-- ===== src/Tests.antt =====
-- The theorems at concrete inputs, and runs of the definitions.
mod Available
mod Limits
mod Breaker
mod Services
mod Texts
mod Directories
mod Accounts
mod Secrets
mod Flows

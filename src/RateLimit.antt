-- ===== src/RateLimit.antt =====
-- Rate limiting: requests and tokens per minute, and requests in flight.
pub mod Estimate
pub mod Repo
pub mod Usecase
pub mod Rpm
pub mod Tpm
pub mod Store
pub mod Slots

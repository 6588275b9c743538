-- ===== src/CircuitBreaker.antt =====
-- The circuit breaker of an account: health score, tripping, probing and recovery.
pub mod Domain
pub mod Usecase
pub mod Laws
pub mod Range
pub mod Failure
pub mod Trip
pub mod Probe
pub mod Recovery
pub mod Store
pub mod Memory

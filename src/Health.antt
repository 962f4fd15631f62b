-- ===== src/Health.antt =====
-- src/health: the circuit breaker and the health checker.
pub mod Breaker
pub mod Checker

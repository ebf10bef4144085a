-- ===== src/Agent/Recovery.antt =====
-- di-core/src/agent/recovery.rs: circuit breakers and the detection of loops.
pub mod Breaker
pub mod Stagnation
mod Tests

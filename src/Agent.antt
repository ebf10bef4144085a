-- ===== src/Agent.antt =====
-- The agent's own state machines (di-core/src/agent).
pub mod Recovery
pub mod FileContext

-- ===== src/Context.antt =====
-- The context of the agent (di-core/src/context): when it is compacted, and what admits a distiller call.
pub mod Metrics
pub mod Triggers
pub mod Lifecycle
pub mod Admission
mod Tests

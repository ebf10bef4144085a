-- ===== src/Hooks/Tests.antt =====
-- Concrete inputs of the hook system (di-core/src/hooks), and the properties at them.
pub mod Fixture
mod Merging
mod Evaluating
mod Managing
mod Compiling

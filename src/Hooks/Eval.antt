-- ===== src/Hooks/Eval.antt =====
-- di-core/src/hooks/evaluator.rs: what a compiled module does at an event.
pub mod Value
pub mod Print
pub mod Run
pub mod Steps
pub mod Fired
pub mod Complete
pub mod Bounds
pub mod Panics

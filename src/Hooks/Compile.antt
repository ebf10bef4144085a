-- ===== src/Hooks/Compile.antt =====
-- `HookCompiler` of di-core/src/hooks/compiler.rs: from the syntax tree to the compiled form. What
-- the source pushes onto `errors` comes back as a list, in the order of the pushes.
pub mod Expr
pub mod Action
pub mod Block
pub mod Module
pub mod Names
pub mod Copies
pub mod WellFormed
pub mod Branches

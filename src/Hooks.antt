-- ===== src/Hooks.antt =====
-- The hook system (di-core/src/hooks).
pub mod External
pub mod Directive
pub mod Ast
pub mod Ir
pub mod Eval
pub mod Event
pub mod Manager
pub mod Compile
pub mod Lexer
pub mod Parser
pub mod EndToEnd
pub mod Tests

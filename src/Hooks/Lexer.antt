-- ===== src/Hooks/Lexer.antt =====
-- di-core/src/hooks/parser/lexer.rs: tokens, and indentation as tokens of its own.
pub mod Token
pub mod Cursor
pub mod Indent
pub mod Next
pub mod Levels
pub mod Fuel
pub mod Ends
pub mod All
mod Tests

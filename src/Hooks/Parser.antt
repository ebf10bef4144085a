-- ===== src/Hooks/Parser.antt =====
-- di-core/src/hooks/parser/parser.rs: the parser of hook files, by recursive descent.
pub mod State
pub mod Expr
pub mod Stmt
pub mod Items
pub mod Role
pub mod Module
pub mod Syntax
pub mod Reads
pub mod Levels
pub mod Heads
pub mod Operands
pub mod Steps
pub mod Chains
pub mod Fields
pub mod RoundTrip
pub mod Faults
mod Tests

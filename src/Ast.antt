-- ===== src/Ast.antt =====
-- metel-interpreter/src/ast/mod.rs: the syntax tree. Spans are those of Error.
pub mod Literals
pub mod Modules
pub mod Types
pub mod Trees

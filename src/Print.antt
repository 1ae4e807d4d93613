-- ===== src/Print.antt =====
-- fcd/ast/print.cpp, without tokens: expressions, statements and declarations as text.
pub mod Operators
pub mod Expressions
pub mod Levels
pub mod Printable
pub mod Symbols
pub mod Grammar
pub mod Statements
pub mod Syntax
pub mod Code
pub mod Declarations
pub mod Ancestors
pub mod Enclosing
pub mod Tests

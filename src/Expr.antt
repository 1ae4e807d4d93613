-- ===== src/Expr.antt =====
-- fcd/ast/expressions.h, expressions.cpp and the simple transformations of ast_context.cpp.
pub mod Defs
pub mod TypeOf
pub mod Equality
pub mod Erase
pub mod Exact
pub mod Negate
pub mod Reading
pub mod Tests

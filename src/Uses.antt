-- ===== src/Uses.antt =====
-- fcd/ast/expression_use.cpp, expression_user.cpp and the storage that AstContext prepares: how an
-- expression finds the users of its value, and a user its operands.
pub mod Waymarks
pub mod Walk
pub mod Operands
pub mod Access
pub mod Linked
pub mod Unlink
pub mod Neighbours
pub mod SetUse
pub mod Moved
pub mod Tests

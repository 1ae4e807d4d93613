-- ===== src/Simplify.antt =====
-- fcd/ast/pass_simplifyexpressions.cpp.
pub mod Terms
pub mod Truth
pub mod Collect
pub mod Keep
pub mod Neutral
pub mod Removal
pub mod Local
pub mod Flip
pub mod Typing
pub mod Tests

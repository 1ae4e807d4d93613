-- ===== src/Interning.antt =====
-- The type index of fcd/ast/ast_context.cpp.
pub mod Defs
pub mod Maps
pub mod Canonical
pub mod Tests

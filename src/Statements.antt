-- ===== src/Statements.antt =====
-- fcd/ast/statements.h and statements.cpp: the lists of statements.
pub mod Defs
pub mod Chain
pub mod Relink
pub mod Parts
pub mod Put
pub mod Insert
pub mod Push
pub mod Erase
pub mod Splice
pub mod Concat
pub mod Prepend
pub mod Moves
pub mod Tests

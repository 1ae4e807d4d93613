-- ===== src/Combine.antt =====
-- The statement trees of fcd/ast/statements.h, and the passes that combine if-else statements:
-- fcd/ast/pass_consecutivecombine.cpp and pass_nestedcombiner.cpp.
pub mod Tree
pub mod Run
pub mod Same
pub mod Each
pub mod Outcome
pub mod Consecutive
pub mod Merge
pub mod Branches
pub mod Kept
pub mod Joined
pub mod Visited
pub mod Combined
pub mod Nested
pub mod Breaks
pub mod LastBreak
pub mod NestedKept
pub mod Structured
pub mod Nesting
pub mod Counter
pub mod Tests

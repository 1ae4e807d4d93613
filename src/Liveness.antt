-- ===== src/Liveness.antt =====
-- fcd/ast/analysis_liveness.cpp: the numbers of statements, the assignments and the live ranges.
pub mod Indices
pub mod Ranges
pub mod Search
pub mod Partitioned
pub mod Tests

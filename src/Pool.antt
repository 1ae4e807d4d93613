-- ===== src/Pool.antt =====
-- fcd/dumb_allocator.h: `Defs` models the code; `Small` and `Large` prove its two paths correct.
pub mod Defs
pub mod Blocks
pub mod Small
pub mod Large
pub mod Tests

-- ===== src/Printed.antt =====
-- The printed lines and scopes of fcd/ast/print_item.h and print_item.cpp.
pub mod Defs
pub mod Lines
pub mod Placing
pub mod Tests

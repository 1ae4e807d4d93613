-- ===== src/Types.antt =====
-- fcd/ast/expression_type.h, expression_type.cpp and type_printer.cpp: the types of the AST and the
-- C declarations that they are printed as.
pub mod Defs
pub mod Printer
pub mod Declarations
pub mod Apart
pub mod Declarator
pub mod Fields
pub mod Tests

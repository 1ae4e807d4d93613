-- ===== src/Lib.antt =====
-- fcd, a decompiler: its parser of executables, and the parts of its C abstract syntax tree that do not
-- rest on LLVM.
--
-- fcd lifts machine code to LLVM IR, simplifies it, and turns it into a tree of C statements and
-- expressions, which passes simplify and a printer writes out. The tree lives in a bulk allocator.
-- Each expression stands behind the array of its operands, and each operand finds its user by tags
-- in the array. Expressions and types are compared by their pointers, and expressions also by
-- structure. The modules and the code they are about:
--
-- Base: numbers, bits, lists and Boolean tests that the other modules share.
-- Pool: DumbAllocator of fcd/dumb_allocator.h. The state is the list of chunks and the offset; what
-- `new` returns is an argument, and failed assertions are `none`.
-- Types: fcd/ast/expression_type.h, expression_type.cpp and type_printer.cpp. `show`, the print of a
-- number by raw_ostream, is an argument. Types are finite trees, so a structure that holds a pointer
-- to itself has no value. Declarations is the grammar of C's declarations, without the printer.
-- Uses: prepareStorageAndUses of fcd/ast/ast_context.cpp, walkWay and walkToEndOfArray of
-- fcd/ast/expression_use.cpp, and the operands of fcd/ast/expression_user.h and expression_user.cpp.
-- A pointer into an array is the part of it from there to the end. Also setUse, and replaceAllUsesWith of
-- fcd/ast/expressions.cpp with a target that is not null, on a store of uses; its loop runs on as
-- many rounds as there are uses, and the theorem says that they are enough.
-- Expr: fcd/ast/expressions.h, operator== and getExpressionType of fcd/ast/expressions.cpp, negate of
-- fcd/ast/ast_context.cpp and countNegationDepth. An expression is a node with its address, its kind
-- and its operands, since the code compares pointers.
-- Interning: AstContext::TypeIndex of fcd/ast/ast_context.cpp, with a heap of type objects.
-- Printed: the lines and scopes of fcd/ast/print_item.h and print_item.cpp. The loop of tabulate runs
-- on as many rounds as there are tabs, which is enough since each round writes sixteen of them.
-- Simplify: collectExpressionTerms, removeIdenticalTerms, visitUnaryOperator and visitSubscript of
-- fcd/ast/pass_simplifyexpressions.cpp. They use Expr, and the proofs say what a reading of
-- conditions must give to `!`, `&&`, `||`, the constants and the comparisons.
--
-- Executables: the files of fcd/executables but the Python loader, and fcd/symbols. The bytes of a file
-- stand in memory from an address on; a read outside of them is `wild`, a failed assertion `failed`. Ehdr, Phdr and the like hold the
-- fields that the parser reads. Standard maps are lists of keys and values; `show` is the print of a
-- number. `parse` takes a number of rounds for its loops over relocations; 2^33 are enough for files of
-- 32 bits, and for the others the theorem on the loops says how many are. An executable and a repository
-- are both providers of entry points.
-- Statements: the lists of fcd/ast/statements.h and statements.cpp, as a store of statements and lists,
-- without the move assignment and `clear`, which release references as well.
-- The loops that move a list run on as many rounds as that list has statements, which the theorems say
-- is enough.
--
-- Combine: the statement classes of fcd/ast/statements.h as trees, fcd/ast/pass_consecutivecombine.cpp and
-- pass_nestedcombiner.cpp. A pass gives the statements that it leaves, the next new address, or what went
-- wrong: a failed cast, or no more fuel. Each call of optimizeSequence inside itself takes one of the fuel;
-- one more than there are statements is enough. Run says what statements do.
--
-- Print: fcd/ast/print.cpp without tokens, from expressions and the trees of Combine to the scopes of
-- Printed. Levels is the grammar of C's expressions by precedence, Syntax that of its statements; both
-- stand apart from the printer and its tables, and say which text is a text of which tree.
-- Declarations is one round of insertDeclarations, from the users of a variable to the change it makes.
--
-- Liveness: the numbers of statements, the assignments and the live ranges of fcd/ast/analysis_liveness.cpp,
-- on the trees of Combine. The use lists and the searches of the standard library are arguments; what
-- upper_bound requires is a predicate.
--
-- Numbers are the native ones; machine words wrap around at 2^64 where the code computes with
-- addresses. Every function but those named above is structurally recursive and runs on no fuel.
--
-- Not modelled: the choice of the printer's tokens, the other passes on statements, the command line,
-- and everything that calls LLVM, clang, remill or Python. The rewriting of Simplify is that of one expression; the
-- traversal, which changes use lists and keeps a set of visited expressions, is left out.
pub mod Base
pub mod Pool
pub mod Types
pub mod Uses
pub mod Expr
pub mod Interning
pub mod Simplify
pub mod Combine
pub mod Executables
pub mod Liveness
pub mod Print
pub mod Printed
pub mod Statements

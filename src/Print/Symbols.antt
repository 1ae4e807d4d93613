-- ===== src/Print/Symbols.antt =====
-- The tables of operators in fcd/ast/print.cpp are those of C's grammar.
use fcd.Expr.Defs.{
  NAryOperator, assign, multiply, divide, modulus, add, subtract, shift_left, shift_right,
  smaller_than, greater_or_equal_to, greater_than, smaller_or_equal_to, equal, not_equal,
  bitwise_and, bitwise_xor, bitwise_or, short_circuit_and, short_circuit_or,
}
use fcd.Print.Operators.{nary_name, nary_precedence}
use fcd.Print.Levels.{
  BinaryOperator, times, divided_by, modulo, plus, minus, shifted_left, shifted_right, less,
  less_or_equal, greater, greater_or_equal, equal_sign, differs, and, exclusive_or, inclusive_or,
  logical_and, logical_or, assignment_sign,
}

pub nary_precedence-BinaryOperator :
    (op : NAryOperator) → BinaryOperator op (nary_precedence op) (nary_name op)
nary_precedence-BinaryOperator multiply = times
nary_precedence-BinaryOperator divide = divided_by
nary_precedence-BinaryOperator modulus = modulo
nary_precedence-BinaryOperator add = plus
nary_precedence-BinaryOperator subtract = minus
nary_precedence-BinaryOperator shift_left = shifted_left
nary_precedence-BinaryOperator shift_right = shifted_right
nary_precedence-BinaryOperator smaller_than = less
nary_precedence-BinaryOperator smaller_or_equal_to = less_or_equal
nary_precedence-BinaryOperator greater_than = greater
nary_precedence-BinaryOperator greater_or_equal_to = greater_or_equal
nary_precedence-BinaryOperator equal = equal_sign
nary_precedence-BinaryOperator not_equal = differs
nary_precedence-BinaryOperator bitwise_and = and
nary_precedence-BinaryOperator bitwise_xor = exclusive_or
nary_precedence-BinaryOperator bitwise_or = inclusive_or
nary_precedence-BinaryOperator short_circuit_and = logical_and
nary_precedence-BinaryOperator short_circuit_or = logical_or
nary_precedence-BinaryOperator assign = assignment_sign

-- ===== src/Print/Operators.antt =====
-- The tables of operators in fcd/ast/print.cpp, and when an operand needs parentheses.
use Prim.Native.String.{String}
use fcd.Base.{ℕ, ◌-◌, ◌^◌, Bool, false, ltb}
use fcd.Expr.Defs.{
  UnaryOperator, increment, decrement, address_of, dereference, arithmetic_negate, logical_negate,
  binary_negate, NAryOperator, assign, multiply, divide, modulus, add, subtract, shift_left,
  shift_right, smaller_than, greater_or_equal_to, greater_than, smaller_or_equal_to, equal,
  not_equal, bitwise_and, bitwise_xor, bitwise_or, short_circuit_and, short_circuit_or, unary, nary,
  member_access, pointer_access, cast, ternary, Expression, node,
}

-- `operatorName`
abbrev pub unary_name : UnaryOperator → String
unary_name increment = "++"
unary_name decrement = "--"
unary_name address_of = "&"
unary_name dereference = "*"
unary_name arithmetic_negate = "-"
unary_name logical_negate = "!"
unary_name binary_negate = "~"

abbrev pub nary_name : NAryOperator → String
nary_name assign = "="
nary_name multiply = "*"
nary_name divide = "/"
nary_name modulus = "%"
nary_name add = "+"
nary_name subtract = "-"
nary_name shift_left = "<<"
nary_name shift_right = ">>"
nary_name smaller_than = "<"
nary_name smaller_or_equal_to = "<="
nary_name greater_than = ">"
nary_name greater_or_equal_to = ">="
nary_name equal = "=="
nary_name not_equal = "!="
nary_name bitwise_and = "&"
nary_name bitwise_xor = "^"
nary_name bitwise_or = "|"
nary_name short_circuit_and = "&&"
nary_name short_circuit_or = "||"

-- `operatorPrecedence`: a weaker operator has a larger number.
abbrev pub unary_precedence : UnaryOperator → ℕ
unary_precedence increment = 1
unary_precedence decrement = 1
unary_precedence op = 2

abbrev pub nary_precedence : NAryOperator → ℕ
nary_precedence multiply = 3
nary_precedence divide = 3
nary_precedence modulus = 3
nary_precedence add = 4
nary_precedence subtract = 4
nary_precedence shift_left = 5
nary_precedence shift_right = 5
nary_precedence smaller_than = 6
nary_precedence smaller_or_equal_to = 6
nary_precedence greater_than = 6
nary_precedence greater_or_equal_to = 6
nary_precedence equal = 7
nary_precedence not_equal = 7
nary_precedence bitwise_and = 8
nary_precedence bitwise_xor = 9
nary_precedence bitwise_or = 10
nary_precedence short_circuit_and = 11
nary_precedence short_circuit_or = 12
nary_precedence assign = 13

abbrev pub member_precedence : ℕ
member_precedence = 1

abbrev pub subscript_precedence : ℕ
subscript_precedence = 1

abbrev pub call_precedence : ℕ
call_precedence = 1

abbrev pub cast_precedence : ℕ
cast_precedence = 2

abbrev pub ternary_precedence : ℕ
ternary_precedence = 13

-- `badOperator`, with `numeric_limits<unsigned>::max()`
abbrev pub bad_operator : String
bad_operator = "<bad>"

abbrev pub bad_precedence : ℕ
bad_precedence = 2 ^ 32 - 1

-- `type > Min && type < Max`, where `Min` is the increment
abbrev pub printed_name : UnaryOperator → String
printed_name increment = bad_operator
printed_name op = unary_name op

abbrev pub printed_precedence : UnaryOperator → ℕ
printed_precedence increment = bad_precedence
printed_precedence op = unary_precedence op

abbrev pub needs_parentheses : ℕ → Expression → Bool
needs_parentheses this_precedence (node p (nary op) es) = ltb this_precedence (nary_precedence op)
needs_parentheses this_precedence (node p (unary op) es) = ltb this_precedence (unary_precedence op)
needs_parentheses this_precedence (node p (member_access s i) es) =
    ltb this_precedence member_precedence
needs_parentheses this_precedence (node p (pointer_access s i) es) =
    ltb this_precedence member_precedence
needs_parentheses this_precedence (node p (cast t) es) = ltb this_precedence cast_precedence
needs_parentheses this_precedence (node p ternary es) = ltb this_precedence ternary_precedence
needs_parentheses this_precedence e = false

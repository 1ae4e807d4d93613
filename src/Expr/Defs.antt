-- ===== src/Expr/Defs.antt =====
-- fcd/ast/expressions.h: the expression classes. Every expression is a user with its type, the
-- fields of its class, and its operands in the use array, so it is a node of a kind with a list of
-- operands. Its address is kept, since the code compares pointers. Types and structures are known
-- by the addresses of their objects, which AstContext makes.
use Prim.Native.String.{String}
use fcd.Base.{ℕ, zero, suc, Bool, true, false, ◌==◌}

-- `enum UnaryOperatorType`, in its order
pub data UnaryOperator : Type 0 where
  increment decrement address_of dereference : UnaryOperator
  arithmetic_negate logical_negate binary_negate : UnaryOperator

-- `enum NAryOperatorType`, in its order
pub data NAryOperator : Type 0 where
  assign multiply divide modulus add subtract shift_left shift_right : NAryOperator
  smaller_than greater_or_equal_to greater_than smaller_or_equal_to equal not_equal : NAryOperator
  bitwise_and bitwise_xor bitwise_or short_circuit_and short_circuit_or : NAryOperator

abbrev pub unary_code : UnaryOperator → ℕ
unary_code increment = 0
unary_code decrement = 1
unary_code address_of = 2
unary_code dereference = 3
unary_code arithmetic_negate = 4
unary_code logical_negate = 5
unary_code binary_negate = 6

-- `UnaryOperatorExpression::Max`, where the n-ary operators begin
abbrev pub unary_max : ℕ
unary_max = 7

-- The comparisons begin at `(ShiftRight + 2) & ~1`, an even number.
abbrev pub comparison_min : ℕ
comparison_min = 16

abbrev pub comparison_max : ℕ
comparison_max = 22

abbrev pub nary_code : NAryOperator → ℕ
nary_code assign = 7
nary_code multiply = 8
nary_code divide = 9
nary_code modulus = 10
nary_code add = 11
nary_code subtract = 12
nary_code shift_left = 13
nary_code shift_right = 14
nary_code smaller_than = 16
nary_code greater_or_equal_to = 17
nary_code greater_than = 18
nary_code smaller_or_equal_to = 19
nary_code equal = 20
nary_code not_equal = 21
nary_code bitwise_and = 22
nary_code bitwise_xor = 23
nary_code bitwise_or = 24
nary_code short_circuit_and = 25
nary_code short_circuit_or = 26

-- The subclasses of `Expression` with their fields; `member_access` and `pointer_access` are one
-- class with two user types.
pub data Kind : Type 0 where
  token : (type : ℕ) (text : String) → Kind
  unary : UnaryOperator → Kind
  nary : NAryOperator → Kind
  member_access pointer_access : (structure_type field_index : ℕ) → Kind
  call : Kind
  cast : (type : ℕ) → Kind
  numeric : (type ui64 : ℕ) → Kind
  ternary : Kind
  aggregate : (type : ℕ) → Kind
  subscript : Kind
  assembly : (type : ℕ) (text : String) → Kind
  assignable : (type : ℕ) (prefix : String) (addressable : Bool) → Kind

mutual
  pub data Expression : Type 0 where
    node : (address : ℕ) → Kind → Operands → Expression

  pub data Operands : Type 0 where
    nil : Operands
    cons : Expression → Operands → Operands

-- `getUserType`, numbered as in the enumeration of fcd/ast/expression_user.h
abbrev pub user_type : Kind → ℕ
user_type (token t s) = 5
user_type (unary op) = 6
user_type (nary op) = 7
user_type (member_access s i) = 8
user_type (pointer_access s i) = 9
user_type call = 10
user_type (cast t) = 11
user_type (numeric t n) = 12
user_type ternary = 13
user_type (aggregate t) = 14
user_type subscript = 15
user_type (assembly t s) = 16
user_type (assignable t s b) = 17

unfoldable pub operands_size : Operands → ℕ
operands_size nil = 0
operands_size (cons e es) = suc (operands_size es)

abbrev pub address : Expression → ℕ
address (node p k es) = p

abbrev pub kind : Expression → Kind
kind (node p k es) = k

abbrev pub operands : Expression → Operands
operands (node p k es) = es

-- The constructors' assertions: an n-ary operator and a call have an operand at least, and the
-- other kinds except aggregates have a fixed number.
abbrev pub arity_ok : Kind → ℕ → Bool
arity_ok (unary op) n = n == 1
arity_ok (nary op) zero = false
arity_ok (nary op) (suc n) = true
arity_ok (member_access s i) n = n == 1
arity_ok (pointer_access s i) n = n == 1
arity_ok call zero = false
arity_ok call (suc n) = true
arity_ok (cast t) n = n == 1
arity_ok ternary n = n == 3
arity_ok (aggregate t) n = true
arity_ok subscript n = n == 2
arity_ok (token t s) n = n == 0
arity_ok (numeric t i) n = n == 0
arity_ok (assembly t s) n = n == 0
arity_ok (assignable t s b) n = n == 0

-- ===== src/Expr/TypeOf.antt =====
-- `getExpressionType` of fcd/ast/expressions.h and expressions.cpp. `type_at` is the type that stands
-- at an address. A failed cast, a missing operand and unreachable code are `none`.
use fcd.Base.{ℕ, Bool, true, false, Option, none, some}
use fcd.Types.Defs.{ExpressionType, pointer, array, structure, function, get_field, integer_type}
use fcd.Expr.Defs.{
  UnaryOperator, address_of, dereference, NAryOperator, smaller_than, greater_or_equal_to,
  greater_than, smaller_or_equal_to, equal, not_equal, short_circuit_and, short_circuit_or, token,
  unary, nary, member_access, pointer_access, call, cast, numeric, ternary, aggregate, subscript,
  assembly, assignable, Expression, node, cons,
}

-- `cast<PointerExpressionType>`, and the type that it points to
abbrev pub pointee : ExpressionType → Option ExpressionType
pointee (pointer t) = some t
pointee t = none

abbrev pub unary_type : UnaryOperator → ExpressionType → Option ExpressionType
unary_type address_of t = some (pointer t)
unary_type dereference t = pointee t
unary_type op t = some t

-- the operators whose result is a condition
abbrev pub is_condition : NAryOperator → Bool
is_condition smaller_than = true
is_condition greater_or_equal_to = true
is_condition greater_than = true
is_condition smaller_or_equal_to = true
is_condition equal = true
is_condition not_equal = true
is_condition short_circuit_and = true
is_condition short_circuit_or = true
is_condition op = false

abbrev pub field_type : ExpressionType → ℕ → Option ExpressionType
field_type (structure fs name) i = elim (get_field fs i) [ some f ↦ some f.type | none ↦ none ]
field_type t i = none

abbrev pub return_type : ExpressionType → Option ExpressionType
return_type (pointer (function r ps)) = some r
return_type t = none

abbrev pub element_type : ExpressionType → Option ExpressionType
element_type (pointer t) = some t
element_type (array t n) = some t
element_type t = none

abbrev pub then_type :
    Option ExpressionType → (ExpressionType → Option ExpressionType) → Option ExpressionType
then_type none f = none
then_type (some t) f = f t

module _ (type_at : ℕ → ExpressionType) where
  unfoldable pub get_expression_type : Expression → Option ExpressionType
  get_expression_type (node p (token t s) es) = some (type_at t)
  get_expression_type (node p (unary op) (cons e es)) =
      then_type (get_expression_type e) (unary_type op)
  get_expression_type (node p (nary op) (cons e es)) =
      let first = get_expression_type e in
      elim (is_condition op) [ true ↦ some (integer_type false 1) | false ↦ first ]
  get_expression_type (node p (member_access s i) es) = field_type (type_at s) i
  get_expression_type (node p (pointer_access s i) es) = field_type (type_at s) i
  get_expression_type (node p call (cons e es)) = then_type (get_expression_type e) return_type
  get_expression_type (node p (cast t) es) = some (type_at t)
  get_expression_type (node p (numeric t n) es) = some (type_at t)
  get_expression_type (node p ternary (cons a (cons b es))) = get_expression_type b
  get_expression_type (node p (aggregate t) es) = some (type_at t)
  get_expression_type (node p subscript (cons e es)) =
      then_type (get_expression_type e) element_type
  get_expression_type (node p (assembly t s) es) = some (type_at t)
  get_expression_type (node p (assignable t s b) es) = some (type_at t)
  get_expression_type e = none

-- ===== src/Expr/Equality.antt =====
-- `operator==` of the expression classes and `defaultEqualityCheck`: fcd/ast/expressions.cpp. A
-- failed `cast<>`, and an operand that is not there, are `none`.
use Prim.Native.String.{String}
use text.Mathlib.Text.{◌==◌ as str_eq}
use fcd.Base.{ℕ, Bool, true, false, ◌&&◌, Option, none, some, ◌==◌, if◌then◌else◌}
use fcd.Expr.Defs.{
  UnaryOperator, unary_code, Kind, token, unary, nary, member_access, pointer_access, numeric,
  assembly, assignable, Expression, Operands, node, nil, cons, user_type, operands_size, address,
  kind, operands,
}

-- `&&` of two tests, the second only run when the first holds
abbrev pub and_also : Option Bool → Option Bool → Option Bool
and_also none m = none
and_also (some false) m = some false
and_also (some true) m = m

-- The loop that strips n-ary operators with a single operand.
unfoldable pub unwrap : Expression → Expression
unwrap (node p (nary op) (cons e nil)) = unwrap e
unwrap e = e

abbrev pub same_unary : UnaryOperator → Kind → Bool
same_unary op (unary op') = unary_code op == unary_code op'
same_unary op _ = false

abbrev pub same_number : ℕ → Kind → Bool
same_number n (numeric t m) = n == m
same_number n _ = false

abbrev pub same_token : String → Kind → Bool
same_token s (token t s') = str_eq s s'
same_token s _ = false

abbrev pub same_assembly : String → Kind → Bool
same_assembly s (assembly t s') = str_eq s s'
same_assembly s _ = false

abbrev pub same_assignable : ℕ → String → Kind → Bool
same_assignable t s (assignable t' s' b) = t == t' && str_eq s s'
same_assignable t s _ = false

-- `cast<MemberAccessExpression>(that)`, and the comparison of the fields
abbrev pub same_member : (structure_type field_index : ℕ) → Kind → Option Bool
same_member s i (member_access s' i') = some (i' == i && s' == s)
same_member s i (pointer_access s' i') = some (i' == i && s' == s)
same_member s i _ = none

-- The last test of `defaultEqualityCheck`: the same user type and as many operands, and then equal
-- operands, whose comparison is `rest`.
abbrev pub shape_check : Kind → Operands → Kind → Operands → Option Bool → Option Bool
shape_check k es k' fs rest =
    if user_type k == user_type k' && operands_size es == operands_size fs then rest else some false

unfoldable mutual
  unfolding unwrap operands_size

  pub equals : Expression → Expression → Option Bool
  equals (node p (token t s) es) b = some (same_token s (kind b))
  equals (node p (numeric t n) es) b = some (same_number n (kind b))
  equals (node p (assembly t s) es) b = some (same_assembly s (kind b))
  equals (node p (assignable t s a) es) b = some (same_assignable t s (kind b))
  equals (node p (unary op) es) b =
      if same_unary op (kind b) then equals_operand es (operands b) else some false
  equals (node p (member_access s i) es) b =
      and_also
        (shape_check (member_access s i) es (kind (unwrap b)) (operands (unwrap b))
          (equals_operands es (operands (unwrap b))))
        (same_member s i (kind b))
  equals (node p (pointer_access s i) es) b =
      and_also
        (shape_check (pointer_access s i) es (kind (unwrap b)) (operands (unwrap b))
          (equals_operands es (operands (unwrap b))))
        (same_member s i (kind b))
  equals (node p (nary op) (cons e nil)) b = default_equality_check e (unwrap b)
  equals (node p k es) b =
      shape_check k es (kind (unwrap b)) (operands (unwrap b))
        (equals_operands es (operands (unwrap b)))

  -- its first loop; the second one has been run on `b`
  pub default_equality_check : Expression → Expression → Option Bool
  default_equality_check (node p (nary op) (cons e nil)) b = default_equality_check e b
  default_equality_check (node p k es) b =
      shape_check k es (kind b) (operands b) (equals_operands es (operands b))

  -- `std::equal` over the operands, where equal pointers need no comparison
  pub equals_operands : Operands → Operands → Option Bool
  equals_operands nil fs = some true
  equals_operands (cons e es) nil = none
  equals_operands (cons e es) (cons f fs) =
      and_also (if address e == address f then some true else equals e f) (equals_operands es fs)

  -- `*getOperand() == *that.getOperand()`
  pub equals_operand : Operands → Operands → Option Bool
  equals_operand (cons e es) (cons f fs) = equals e f
  equals_operand (cons e es) nil = none
  equals_operand nil fs = none

-- ===== src/Simplify/Local.antt =====
-- The rewriting that `visitUnaryOperator` and `visitSubscript` of
-- fcd/ast/pass_simplifyexpressions.cpp do once the operands are visited: the expression that takes
-- the place of the visited one, `none` where it stays.
use fcd.Base.{
  ℕ, zero, bit_xor, Bool, ◌&&◌, Option, none, some, List, [], ◌∷◌, leb, ◌==◌, if◌then◌else◌,
}
use fcd.Expr.Defs.{
  UnaryOperator, address_of, dereference, logical_negate, unary_code, NAryOperator, assign,
  multiply, divide, modulus, add, subtract, shift_left, shift_right, smaller_than,
  greater_or_equal_to, greater_than, smaller_or_equal_to, equal, not_equal, bitwise_and,
  bitwise_xor, bitwise_or, short_circuit_and, short_circuit_or, nary_code, comparison_min,
  comparison_max, unary, nary, numeric, Expression, node, nil, cons,
}

-- `match`: the operand of a unary operator of the given type
unfoldable pub match_unary : UnaryOperator → Expression → Option Expression
match_unary op (node p (unary op') (cons e es)) =
    if unary_code op' == unary_code op then some e else none
match_unary op e = none

abbrev operators : List NAryOperator
operators =
    assign ∷ multiply ∷ divide ∷ modulus ∷ add ∷ subtract ∷ shift_left ∷ shift_right ∷ smaller_than
    ∷ greater_or_equal_to ∷ greater_than ∷ smaller_or_equal_to ∷ equal ∷ not_equal ∷ bitwise_and
    ∷ bitwise_xor ∷ bitwise_or ∷ short_circuit_and ∷ short_circuit_or ∷ []

abbrev nary_with_code : ℕ → List NAryOperator → Option NAryOperator
nary_with_code n [] = none
nary_with_code n (op ∷ ops) = if nary_code op == n then some op else nary_with_code n ops

-- `static_cast` to the enumeration, where no enumerator has the number 15
unfoldable pub nary_of_code : ℕ → Option NAryOperator
nary_of_code n = nary_with_code n operators

abbrev pub is_flipped : NAryOperator → Bool
is_flipped op = leb comparison_min (nary_code op) && leb (nary_code op) comparison_max

unfoldable pub flip : NAryOperator → Option NAryOperator
unfolding nary_of_code
flip op = nary_of_code (bit_xor (nary_code op) 1)

-- The comparison with its operator exchanged, at a new address
unfoldable pub flip_comparison : (fresh : ℕ) → Expression → Option Expression
unfolding flip
flip_comparison fresh (node p (nary op) (cons a (cons b nil))) =
    if is_flipped op
    then elim (flip op) [
      | some op' ↦ some (node fresh (nary op') (cons a (cons b nil)))
      | none ↦ none
    ]
    else none
flip_comparison fresh e = none

-- `visitUnaryOperator` below `visit(*operand)`
unfoldable pub visit_unary_operator :
    (fresh : ℕ) → UnaryOperator → (operand : Expression) → Option Expression
unfolding match_unary flip_comparison
visit_unary_operator fresh logical_negate e = elim (match_unary logical_negate e) [
  | some inner ↦ some inner
  | none ↦ flip_comparison fresh e
]
visit_unary_operator fresh dereference e = match_unary address_of e
visit_unary_operator fresh op e = none

-- `visitSubscript` below the two visits
unfoldable pub visit_subscript : (pointer index : Expression) → Option Expression
unfolding match_unary
visit_subscript pointer (node p (numeric t zero) es) = match_unary address_of pointer
visit_subscript pointer index = none

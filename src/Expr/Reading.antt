-- ===== src/Expr/Reading.antt =====
-- A reading of expressions as conditions on numbers, which the tests use.
use text.Mathlib.Text.{◌==◌ as str_eq}
use fcd.Base.{ℕ, refl, Bool, true, false, not, ltb, ◌==◌, ◌&&◌, ◌||◌}
use fcd.Expr.Defs.{
  logical_negate, smaller_than, greater_or_equal_to, greater_than, smaller_or_equal_to, equal,
  not_equal, short_circuit_and, short_circuit_or, token, unary, nary, numeric, Expression, Operands,
  node, nil, cons,
}
use fcd.Expr.Negate.{Constants, IsReading}

abbrev pub value : Expression → ℕ
value (node p (numeric t n) es) = n
value (node p k es) = p

unfoldable mutual
  pub evaluate : Expression → Bool
  evaluate (node p (token t s) es) = str_eq s "true"
  evaluate (node p (unary logical_negate) (cons e es)) = not (evaluate e)
  evaluate (node p (nary short_circuit_and) es) = evaluate_all es
  evaluate (node p (nary short_circuit_or) es) = evaluate_any es
  evaluate (node p (nary smaller_than) (cons a (cons b nil))) = ltb (value a) (value b)
  evaluate (node p (nary greater_than) (cons a (cons b nil))) = ltb (value b) (value a)
  evaluate (node p (nary smaller_or_equal_to) (cons a (cons b nil))) = not (ltb (value b) (value a))
  evaluate (node p (nary greater_or_equal_to) (cons a (cons b nil))) = not (ltb (value a) (value b))
  evaluate (node p (nary equal) (cons a (cons b nil))) = value a == value b
  evaluate (node p (nary not_equal) (cons a (cons b nil))) = not (value a == value b)
  evaluate e = false

  pub evaluate_all : Operands → Bool
  evaluate_all nil = true
  evaluate_all (cons e es) = evaluate e && evaluate_all es

  pub evaluate_any : Operands → Bool
  evaluate_any nil = false
  evaluate_any (cons e es) = evaluate e || evaluate_any es

abbrev pub constants : Constants
constants = record {
  expression_for_true = node 1 (token 0 "true") nil;
  expression_for_false = node 2 (token 0 "false") nil;
}

pub evaluate-IsReading : IsReading constants evaluate
unfolding evaluate
evaluate-IsReading = record {
  negates = λ p e es. refl;
  is_true = λ p t es. refl;
  is_false = λ p t es. refl;
  for_true = refl;
  for_false = refl;
}

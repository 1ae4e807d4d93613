-- ===== src/Simplify/Tests.antt =====
-- Conditions on the constants of a small store, simplified.
use fcd.Base.{ℕ, ◌≡◌, refl, ap, true, false, not, ltb, ◌==◌, ◌&&◌, ◌||◌, none, some, if◌then◌else◌}
use fcd.Expr.Defs.{
  logical_negate, smaller_than, greater_or_equal_to, short_circuit_and, unary, nary, numeric,
  Expression, Operands, node, nil, cons,
}
use fcd.Expr.Negate.{count_negation_depth}
use fcd.Expr.Reading.{value, evaluate, evaluate_all, evaluate_any, constants, evaluate-IsReading}
use fcd.Types.Defs.{ExpressionType, integer_type}
use fcd.Expr.TypeOf.{get_expression_type}
use fcd.Simplify.Typing.{get_expression_type-visit_unary_operator}
use fcd.Simplify.Terms.{collect_expression_terms, no_terms, remove_identical_terms}
use fcd.Simplify.Truth.{truths, IsStored, stored, none_left, one_more, IsLogic}
use fcd.Simplify.Removal.{Outcome, remove_identical_terms-Outcome}
use fcd.Simplify.Local.{visit_unary_operator}
use fcd.Simplify.Flip.{IsComparing, truth-visit_unary_operator}

abbrev one : Expression
one = node 3 (numeric 0 1) nil

abbrev two : Expression
two = node 4 (numeric 0 2) nil

abbrev below : Expression
below = node 5 (nary smaller_than) (cons one (cons two nil))

abbrev not_below : Expression
not_below = node 6 (unary logical_negate) (cons below nil)

abbrev at : ℕ → Expression
at p =
    if p == 1
    then constants.expression_for_true
    else if p == 2
    then constants.expression_for_false
    else if p == 3
    then one
    else if p == 4
    then two
    else if p == 5
    then below
    else not_below

evaluate_all-truths : (es : Operands) → evaluate_all es ≡ truths evaluate true es
unfolding evaluate
evaluate_all-truths nil = refl
evaluate_all-truths (cons e es) = ap (λ b. evaluate e && b) (evaluate_all-truths es)

evaluate_any-truths : (es : Operands) → evaluate_any es ≡ truths evaluate false es
unfolding evaluate
evaluate_any-truths nil = refl
evaluate_any-truths (cons e es) = ap (λ b. evaluate e || b) (evaluate_any-truths es)

evaluate-IsLogic : IsLogic at constants evaluate
unfolding evaluate
evaluate-IsLogic = record {
  reading = evaluate-IsReading;
  conjoins = λ p es. evaluate_all-truths es;
  disjoins = λ p es. evaluate_any-truths es;
  true_stored = refl;
  false_stored = refl;
}

evaluate-IsComparing : IsComparing value ltb (λ a b. a == b) evaluate
unfolding evaluate
evaluate-IsComparing = record {
  lt = λ p a b. refl;
  gt = λ p a b. refl;
  le = λ p a b. refl;
  ge = λ p a b. refl;
  eq = λ p a b. refl;
  ne = λ p a b. refl;
}

below-IsStored : IsStored at below
below-IsStored =
    stored refl (one_more (stored refl none_left) (one_more (stored refl none_left) none_left))

-- `x && !x` is the constant for false.
contradiction_example :
    remove_identical_terms constants 30
      (node 7 (nary short_circuit_and) (cons below (cons not_below nil)))
    ≡ some constants.expression_for_false
unfolding remove_identical_terms collect_expression_terms count_negation_depth
contradiction_example = refl

-- `true && true` leaves no operand.
neutral_example :
    remove_identical_terms constants 30 (
      node 7
        (nary short_circuit_and)
        (cons constants.expression_for_true (cons constants.expression_for_true nil)))
    ≡ none
unfolding remove_identical_terms collect_expression_terms count_negation_depth
neutral_example = refl

remove_identical_terms-Outcome_example :
    Outcome constants evaluate short_circuit_and
      (collect_expression_terms short_circuit_and (cons below (cons not_below nil)) no_terms)
      (evaluate (node 7 (nary short_circuit_and) (cons below (cons not_below nil))))
      (remove_identical_terms constants 30
        (node 7 (nary short_circuit_and) (cons below (cons not_below nil))))
remove_identical_terms-Outcome_example =
    remove_identical_terms-Outcome evaluate-IsLogic short_circuit_and 7 30
      (cons below (cons not_below nil)) refl
      (one_more below-IsStored
        (one_more (stored refl (one_more below-IsStored none_left)) none_left))

truth-visit_unary_operator_example :
    evaluate (node 30 (nary greater_or_equal_to) (cons one (cons two nil))) ≡ not (evaluate below)
unfolding visit_unary_operator
truth-visit_unary_operator_example =
    truth-visit_unary_operator evaluate-IsComparing evaluate-IsReading 30 below
      (node 30 (nary greater_or_equal_to) (cons one (cons two nil))) (λ q. cc) refl

abbrev types : ℕ → ExpressionType
types t = integer_type true 32

get_expression_type-visit_unary_operator_example :
    get_expression_type types (node 30 (nary greater_or_equal_to) (cons one (cons two nil)))
    ≡ get_expression_type types (node 6 (unary logical_negate) (cons below nil))
unfolding visit_unary_operator
get_expression_type-visit_unary_operator_example =
    get_expression_type-visit_unary_operator types 30 6 logical_negate below
      (node 30 (nary greater_or_equal_to) (cons one (cons two nil))) refl

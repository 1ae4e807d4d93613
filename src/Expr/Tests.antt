-- ===== src/Expr/Tests.antt =====
-- Expressions of a small store, compared and negated.
use fcd.Base.{ℕ, ◌≡◌, ◌↔◌, refl, Bool, true, false, not, ◌==◌, some, if◌then◌else◌}
use fcd.Expr.Defs.{
  logical_negate, add, subtract, smaller_than, operands_size, unary, nary, numeric, assignable,
  Expression, node, nil, cons,
}
use fcd.Expr.Equality.{equals}
use fcd.Expr.Erase.{erase, plain, none_left, one_more}
use fcd.Expr.Exact.{equals-erase}
use fcd.Expr.Negate.{
  negate, negate_if, count_negation_depth, truth-negate, truth-count_negation_depth,
}
use fcd.Expr.Reading.{evaluate, constants, evaluate-IsReading}

abbrev first : Expression
first = node 3 (numeric 0 5) nil

abbrev second : Expression
second = node 4 (assignable 0 "phi" false) nil

abbrev third : Expression
third = node 5 (assignable 0 "phi" false) nil

abbrev sum : Expression
sum = node 6 (nary add) (cons first (cons second nil))

abbrev difference : Expression
difference = node 7 (nary subtract) (cons first (cons third nil))

abbrev at : ℕ → Expression
at p =
    if p == 3
    then first
    else if p == 4
    then second
    else if p == 5
    then third
    else if p == 6
    then sum
    else difference

equals-sum-difference : equals sum difference ≡ some true
unfolding equals
equals-sum-difference = refl

equals-erase_example :
    (r : Bool) × (equals sum difference ≡ some r) × ((r ≡ true) ↔ (erase sum ≡ erase difference))
unfolding operands_size
equals-erase_example =
    equals-erase at sum difference
      (plain refl refl refl (
        one_more (plain refl refl refl none_left)
          (one_more (plain refl refl refl none_left) none_left)))
      (plain refl refl refl (
        one_more (plain refl refl refl none_left)
          (one_more (plain refl refl refl none_left) none_left)))

abbrev comparison : Expression
comparison = node 8 (nary smaller_than) (cons first (cons second nil))

abbrev twice_negated : Expression
twice_negated =
    node 9 (unary logical_negate) (cons (node 10 (unary logical_negate) (cons comparison nil)) nil)

truth-negate_example : evaluate (negate constants 20 comparison) ≡ not (evaluate comparison)
truth-negate_example = truth-negate evaluate-IsReading 20 comparison

truth-count_negation_depth_example :
    evaluate twice_negated
    ≡ negate_if
        (count_negation_depth twice_negated).is_negated
        (evaluate (count_negation_depth twice_negated).canonical)
truth-count_negation_depth_example = truth-count_negation_depth evaluate-IsReading twice_negated

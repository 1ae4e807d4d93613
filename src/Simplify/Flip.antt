-- ===== src/Simplify/Flip.antt =====
-- A negated comparison becomes the opposite comparison.
use fcd.Base.{ℕ, ◌≡◌, refl, ap, Bool, true, false, not, some, arith}
use fcd.Expr.Defs.{
  logical_negate, NAryOperator, smaller_than, greater_or_equal_to, greater_than,
  smaller_or_equal_to, equal, not_equal, bitwise_and, unary, nary, Expression, node, nil, cons,
  kind,
}
use fcd.Expr.Negate.{Constants, IsReading}
use fcd.Simplify.Local.{match_unary, flip_comparison, visit_unary_operator}

-- A reading that compares values: the six comparisons rest on one order and one equality.
pub record IsComparing {V : Type 0} (value : Expression → V) (less same : V → V → Bool)
    (truth : Expression → Bool) : Type 0 where
  pub lt :
      (p : ℕ) (a b : Expression)
      → truth (node p (nary smaller_than) (cons a (cons b nil))) ≡ less (value a) (value b)
  pub gt :
      (p : ℕ) (a b : Expression)
      → truth (node p (nary greater_than) (cons a (cons b nil))) ≡ less (value b) (value a)
  pub le :
      (p : ℕ) (a b : Expression)
      → truth (node p (nary smaller_or_equal_to) (cons a (cons b nil)))
        ≡ not (less (value b) (value a))
  pub ge :
      (p : ℕ) (a b : Expression)
      → truth (node p (nary greater_or_equal_to) (cons a (cons b nil)))
        ≡ not (less (value a) (value b))
  pub eq :
      (p : ℕ) (a b : Expression)
      → truth (node p (nary equal) (cons a (cons b nil))) ≡ same (value a) (value b)
  pub ne :
      (p : ℕ) (a b : Expression)
      → truth (node p (nary not_equal) (cons a (cons b nil))) ≡ not (same (value a) (value b))

not-not : (b : Bool) → not (not b) ≡ b
not-not true = refl
not-not false = refl

module _ {V : Type 0} {value : Expression → V} {less same : V → V → Bool}
    {truth : Expression → Bool} (w : IsComparing value less same truth) where
  flip_comparison-truth :
      (fresh p : ℕ) (op : NAryOperator) (a b r : Expression)
      → (op ≡ bitwise_and → ⊥)
      → flip_comparison fresh (node p (nary op) (cons a (cons b nil))) ≡ some r
      → truth r ≡ not (truth (node p (nary op) (cons a (cons b nil))))
  unfolding flip_comparison
  flip_comparison-truth fresh p smaller_than a b r n h =
      let x = w.ge fresh a b in let y = w.lt p a b in ground arith
  flip_comparison-truth fresh p greater_or_equal_to a b r n h =
      let x = w.lt fresh a b in let y = w.ge p a b in ground arith
  flip_comparison-truth fresh p greater_than a b r n h =
      let x = w.le fresh a b in let y = w.gt p a b in ground arith
  flip_comparison-truth fresh p smaller_or_equal_to a b r n h =
      let x = w.gt fresh a b in let y = w.le p a b in ground arith
  flip_comparison-truth fresh p equal a b r n h =
      let x = w.ne fresh a b in let y = w.eq p a b in ground arith
  flip_comparison-truth fresh p not_equal a b r n h =
      let x = w.eq fresh a b in let y = w.ne p a b in ground arith
  flip_comparison-truth fresh p bitwise_and a b r n h = absurd (n refl)
  flip_comparison-truth fresh p _ a b r n h = cc

  -- Where `visitUnaryOperator` replaces `!e`, it puts in an expression that is true just where `e`
  -- is false: the operand of an inner `!`, or the opposite comparison. The reading must give `!` and
  -- the comparisons their meaning, and `e` must not be a bitwise `&`.
  pub truth-visit_unary_operator :
      {c : Constants} (r : IsReading c truth) (fresh : ℕ) (e result : Expression)
      → (kind e ≡ nary bitwise_and → ⊥)
      → visit_unary_operator fresh logical_negate e ≡ some result
      → truth result ≡ not (truth e)
  unfolding visit_unary_operator match_unary flip_comparison
  truth-visit_unary_operator r fresh (node p (unary logical_negate) (cons e es)) result n h =
      let x = r.negates p e es in ground arith
  truth-visit_unary_operator r fresh (node p (nary op) (cons a (cons b nil))) result n h =
      flip_comparison-truth fresh p op a b result (λ q. n (ap nary q)) h
  truth-visit_unary_operator r fresh (node p (unary op) nil) result n h = cc
  truth-visit_unary_operator r fresh (node p (unary op) (cons e es)) result n h = cc
  truth-visit_unary_operator r fresh (node p (nary op) nil) result n h = cc
  truth-visit_unary_operator r fresh (node p (nary op) (cons a nil)) result n h = cc
  truth-visit_unary_operator r fresh (node p (nary op) (cons a (cons b (cons d es)))) result n h =
      cc
  truth-visit_unary_operator r fresh (node p k es) result n h = cc

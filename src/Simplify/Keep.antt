-- ===== src/Simplify/Keep.antt =====
-- What the two loops of `removeIdenticalTerms` keep is worth as much as the terms.
use fcd.Base.{
  ℕ, ◌+◌, ◌≡◌, refl, sym, ap, ◌∙◌, inl, inr, Bool, true, false, not, ◌||◌, List, [], ◌∷◌, All,
  subst, arith, ◌==◌, Bool-cases, if◌then◌else◌,
}
use fcd.Expr.Defs.{NAryOperator, short_circuit_and, short_circuit_or, Expression, address}
use fcd.Expr.Negate.{Constants, negate, truth-negate}
use fcd.Simplify.Terms.{
  has, Removal, returned, kept, keep, is_or, is_and, keep_false_terms, keep_true_terms,
}
use fcd.Simplify.Truth.{combine, IsLogic, folded, Known, folded-has, same_at}

-- A loop that returns has found the constant that decides; one that ends keeps terms of the worth
-- `f`, where the true terms have the worth `t`.
abbrev pub Sound : (Expression → Bool) → (j t f : Bool) → Removal → Type 0
Sound truth j t f (returned r) = (truth r ≡ not j) × (combine j t f ≡ not j)
Sound truth j t f (kept es) = folded truth j es ≡ f

keep-Sound :
    (truth : Expression → Bool) (j t f x : Bool) (e : Expression) (m : Removal)
    → truth e ≡ x
    → Sound truth j t f m
    → Sound truth j t (combine j x f) (keep e m)
keep-Sound truth j t f x e (returned r) q h = (h.0, ground arith)
keep-Sound truth j t f x e (kept es) q h = rw q (ap (combine j x) h)

-- A test that returns a constant, or goes on where the term adds nothing
constant-Sound :
    (truth : Expression → Bool) (j t x f b : Bool) (r : Expression) (m : Removal)
    → Sound truth j t f m
    → (b ≡ true → (truth r ≡ not j) × (combine j t (combine j x f) ≡ not j))
    → (b ≡ false → combine j x f ≡ f)
    → Sound truth j t (combine j x f) (if b then returned r else m)
constant-Sound truth j t x f true r m h hr hm = hr refl
constant-Sound truth j t x f false r m h hr hm = subst (λ y. Sound truth j t y m) (sym (hm refl)) h

module _ {at : ℕ → Expression} {c : Constants} {truth : Expression → Bool}
    (w : IsLogic at c truth) where
  truth-for_true :
      (e : Expression)
      → Known at e
      → (address e == address c.expression_for_true) ≡ true
      → truth e ≡ true
  truth-for_true e h q = same_at at truth e _ h w.true_stored q ∙ w.reading.for_true

  truth-for_false :
      (e : Expression)
      → Known at e
      → (address e == address c.expression_for_false) ≡ true
      → truth e ≡ false
  truth-for_false e h q = same_at at truth e _ h w.false_stored q ∙ w.reading.for_false

  truth-both :
      (op : NAryOperator)
      → (is_or op || is_and op) ≡ true
      → truth (if is_or op then c.expression_for_true else c.expression_for_false) ≡ not (is_and op)
  truth-both short_circuit_and ok = w.reading.for_false
  truth-both short_circuit_or ok = w.reading.for_true
  truth-both _ ok = cc

  pub keep_true_terms-Sound :
      (op : NAryOperator) (ts : List Expression) (f : Bool)
      → (is_or op || is_and op) ≡ true
      → All (Known at) ts
      → Sound truth (is_and op) f (folded truth (is_and op) ts) (keep_true_terms c op ts)
  unfolding keep_true_terms
  keep_true_terms-Sound op [] f ok h = refl
  keep_true_terms-Sound op (t ∷ ts) f ok h =
      let ih = keep_true_terms-Sound op ts f ok h.1 in
      let j = is_and op in
      elim (Bool-cases (address t == address c.expression_for_true)) [
        | inl q ↦
            let v = truth-for_true t h.0 q in
            rw q (
              constant-Sound truth j f _ _ (is_or op) _ _ ih (λ o. (ground arith, ground arith))
                (λ o. ground arith))
        | inr q ↦ elim (Bool-cases (address t == address c.expression_for_false)) [
          | inl r ↦
              let v = truth-for_false t h.0 r in
              rw q (
                rw r (
                  constant-Sound truth j f _ _ (is_and op) _ _ ih
                    (λ o. (ground arith, ground arith)) (λ o. ground arith)))
          | inr r ↦ rw q (rw r (keep-Sound truth j f _ _ t _ refl ih))
        ]
      ]

  pub keep_false_terms-Sound :
      (op : NAryOperator) (ts : List Expression) (fresh : ℕ) (fs : List Expression)
      → (is_or op || is_and op) ≡ true
      → All (Known at) ts
      → All (Known at) fs
      → Sound truth
          (is_and op)
          (folded truth (is_and op) ts)
          (folded (λ e. not (truth e)) (is_and op) fs)
          (keep_false_terms c op ts fresh fs)
  unfolding keep_false_terms
  keep_false_terms-Sound op ts fresh [] ok ht h = refl
  keep_false_terms-Sound op ts fresh (f ∷ fs) ok ht h =
      let ih = keep_false_terms-Sound op ts (fresh + 1) fs ok ht h.1 in
      let j = is_and op in
      elim (Bool-cases (has (address f) ts)) [
        | inl q ↦
            let there = folded-has at truth j f ts h.0 ht q in rw q (truth-both op ok, ground arith)
        | inr q ↦ elim (Bool-cases (address f == address c.expression_for_true)) [
          | inl r ↦
              let v = truth-for_true f h.0 r in
              rw q (
                rw r (
                  constant-Sound truth j _ _ _ (is_and op) _ _ ih
                    (λ o. (ground arith, ground arith)) (λ o. ground arith)))
          | inr r ↦ elim (Bool-cases (address f == address c.expression_for_false)) [
            | inl s ↦
                let v = truth-for_false f h.0 s in
                rw q (
                  rw r (
                    rw s (
                      constant-Sound truth j _ _ _ (is_or op) _ _ ih
                        (λ o. (ground arith, ground arith)) (λ o. ground arith))))
            | inr s ↦
                let negated = truth-negate w.reading fresh f in
                rw q (rw r (rw s (keep-Sound truth j _ _ _ (negate c fresh f) _ negated ih)))
          ]
        ]
      ]

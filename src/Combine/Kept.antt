-- ===== src/Combine/Kept.antt =====
-- `AstConsecutiveCombiner` keeps what a function does.
use fcd.Base.{◌+◌, ◌≤◌, ◌≡◌, refl, inl, inr, Bool, Bool-cases, true, false, not, some, arith}
use fcd.Expr.Defs.{Expression}
use fcd.Expr.Negate.{Constants, negate_if, count_negation_depth, truth-count_negation_depth}
use fcd.Combine.Tree.{Statements, nil, cons, append, size}
use fcd.Combine.Run.{Machine}
use fcd.Combine.Each.{Keeps}
use fcd.Combine.Same.{Same, Same-refl, Same-trans}
use fcd.Combine.Merge.{Conditions, Admits}
use fcd.Combine.Consecutive.{
  Comparison, same, opposite, different, compare_conditions, same_flag, is_logically_opposite,
  opposite_or_different, same_or_else,
}

pub size-append : (s t : Statements) → size (append s t) ≡ size s + size t
unfolding size append
size-append nil t = omega arith
size-append (cons x s) t = omega (arith, size-append s t)

module _ {m : Machine} {c : Constants} (w : Conditions m c) where
  -- What a pass may make of statements: no more of them, which do the same, and run no other
  -- expression statements.
  pub record Kept (s r : Statements) : Type 0 where
    pub admitted : Admits w r
    pub bounded : size r ≤ size s
    pub does_same : Same m s r
    pub keeps : (d : Expression) → Keeps m d s → Keeps m d r

  pub Kept-refl : (s : Statements) → Admits w s → Kept s s
  Kept-refl s h = record {
    admitted = h;
    bounded = omega arith;
    does_same = Same-refl m s;
    keeps = λ d k. k;
  }

  pub Kept-trans : (s t r : Statements) → Kept s t → Kept t r → Kept s r
  Kept-trans s t r h k = record {
    admitted = k.admitted;
    bounded = omega (arith, h.bounded, k.bounded);
    does_same = Same-trans m h.does_same k.does_same;
    keeps = λ d e. k.keeps d (h.keeps d e);
  }

  -- what a comparison says of the two conditions
  abbrev pub Says : Expression → Expression → Comparison → Type 0
  Says e d same = (st : m.State) → m.truth st e ≡ m.truth st d
  Says e d opposite = (st : m.State) → m.truth st e ≡ not (m.truth st d)
  Says e d different = Unit

  canonical_opposite :
      (x y : Bool) (u v a b : Bool)
      → same_flag x y ≡ false
      → a ≡ negate_if x u
      → b ≡ negate_if y v
      → u ≡ v
      → a ≡ not b
  canonical_opposite true false u v a b h p q e = cc
  canonical_opposite false true true v a b h p q e = cc
  canonical_opposite false true false v a b h p q e = cc
  canonical_opposite true true u v a b h p q e = cc
  canonical_opposite false false u v a b h p q e = cc

  opposite-Says :
      (e d : Expression)
      → w.Tested e
      → w.Tested d
      → (r : Bool) × (is_logically_opposite e d ≡ some r)
        × (r ≡ true → (st : m.State) → m.truth st e ≡ not (m.truth st d))
  unfolding is_logically_opposite
  opposite-Says e d he hd =
      let x = count_negation_depth e in
      let y = count_negation_depth d in
      elim (Bool-cases (same_flag x.is_negated y.is_negated)) [
        | inl p ↦ rw p (false, refl, λ h st. cc)
        | inr p ↦
            let (r, q, truths) =
              w.compared x.canonical y.canonical (w.tested_canonical e he)
                (w.tested_canonical d hd) in
            rw p (
              r,
              q,
              λ h st.
                  canonical_opposite x.is_negated y.is_negated _ _ _ _ p
                    (truth-count_negation_depth (w.reading st) e)
                    (truth-count_negation_depth (w.reading st) d) (truths h st),
            )
      ]

  after_same :
      (e d : Expression) (r : Bool)
      → (r ≡ true → (st : m.State) → m.truth st e ≡ m.truth st d)
      → (o : Bool) → (o ≡ true → (st : m.State) → m.truth st e ≡ not (m.truth st d))
      → (k : Comparison) × (same_or_else (some r) (opposite_or_different (some o)) ≡ some k)
        × Says e d k
  after_same e d true h o h' = (same, refl, h refl)
  after_same e d false h true h' = (opposite, refl, h' refl)
  after_same e d false h false h' = (different, refl, tt)

  pub compare_conditions-Says :
      (e d : Expression)
      → w.Tested e
      → w.Tested d
      → (k : Comparison) × (compare_conditions e d ≡ some k) × Says e d k
  unfolding compare_conditions
  compare_conditions-Says e d he hd =
      let (r, p, says) = w.compared e d he hd in
      let (o, q, says') = opposite-Says e d he hd in rw p (rw q (after_same e d r says o says'))

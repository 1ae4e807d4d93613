-- ===== src/Simplify/Truth.antt =====
-- `removeIdenticalTerms` keeps the truth of a condition.
use fcd.Base.{
  ℕ, ◌≡◌, refl, sym, ap, ◌∙◌, inl, inr, Bool, true, false, ◌&&◌, ◌||◌, List, [], ◌∷◌, ◌++◌, All,
  All-append, arith, ◌==◌, Bool-cases,
}
use fcd.Expr.Defs.{
  short_circuit_and, short_circuit_or, Kind, nary, Expression, Operands, node, nil, cons, address,
}
use fcd.Expr.Negate.{Constants, IsReading}
use fcd.Simplify.Terms.{has, push_absent}

-- `true` for a conjunction, `false` for a disjunction: also what an empty one is worth
abbrev pub combine : Bool → Bool → Bool → Bool
combine true a b = a && b
combine false a b = a || b

abbrev pub truths : (Expression → Bool) → Bool → Operands → Bool
truths truth conj nil = conj
truths truth conj (cons e es) = combine conj (truth e) (truths truth conj es)

-- Every expression below `e` is the one that `at` has at its address.
mutual
  pub data IsStored (at : ℕ → Expression) : Expression → Type 0 where
    stored :
        {p : ℕ} {k : Kind} {es : Operands}
        → at p ≡ node p k es
        → AreStored at es
        → IsStored at (node p k es)

  pub data AreStored (at : ℕ → Expression) : Operands → Type 0 where
    none_left : AreStored at nil
    one_more :
        {e : Expression} {es : Operands}
        → IsStored at e
        → AreStored at es
        → AreStored at (cons e es)

-- A reading in which `&&` and `||` join conditions, and the store of the context's constants.
pub record IsLogic (at : ℕ → Expression) (c : Constants) (truth : Expression → Bool) : Type 0 where
  pub reading : IsReading c truth
  pub conjoins :
      (p : ℕ) (es : Operands) → truth (node p (nary short_circuit_and) es) ≡ truths truth true es
  pub disjoins :
      (p : ℕ) (es : Operands) → truth (node p (nary short_circuit_or) es) ≡ truths truth false es
  pub true_stored : at (address c.expression_for_true) ≡ c.expression_for_true
  pub false_stored : at (address c.expression_for_false) ≡ c.expression_for_false

-- What a list of terms is worth when each is read by `f`.
abbrev pub folded : (Expression → Bool) → Bool → List Expression → Bool
folded f j [] = j
folded f j (e ∷ es) = combine j (f e) (folded f j es)

-- The store has the expression at its address.
abbrev pub Known : (ℕ → Expression) → Expression → Type 0
Known at e = at (address e) ≡ e

module _ (f : Expression → Bool) where
  folded-end :
      (j : Bool) (e : Expression) (l : List Expression)
      → folded f j (l ++ e ∷ []) ≡ combine j (folded f j l) (f e)
  folded-end true e [] = ground arith
  folded-end false e [] = ground arith
  folded-end j e (g ∷ l) = let ih = folded-end j e l in ground arith

  pub folded-append :
      (j : Bool) (l m : List Expression)
      → folded f j (l ++ m) ≡ combine j (folded f j l) (folded f j m)
  folded-append true [] m = refl
  folded-append false [] m = refl
  folded-append j (g ∷ l) m = let ih = folded-append j l m in ground arith

module _ (at : ℕ → Expression) (f : Expression → Bool) where
  pub same_at :
      (a b : Expression) → Known at a → Known at b → (address a == address b) ≡ true → f a ≡ f b
  same_at a b ha hb h =
      let same : address a ≡ address b = ground arith in ap f (sym ha ∙ ap at same ∙ hb)

  -- A term that is there already adds nothing.
  pub folded-has :
      (j : Bool) (e : Expression) (l : List Expression)
      → Known at e
      → All (Known at) l
      → has (address e) l ≡ true
      → combine j (folded f j l) (f e) ≡ folded f j l
  folded-has j e [] he hl h = cc
  folded-has j e (g ∷ l) he hl h = elim (Bool-cases (address g == address e)) [
    | inl q ↦ let same = same_at g e hl.0 he q in ground arith
    | inr d ↦ let ih = folded-has j e l he hl.1 (ground arith) in ground arith
  ]

  pub folded-push_absent :
      (j : Bool) (e : Expression) (l : List Expression)
      → Known at e
      → All (Known at) l
      → folded f j (push_absent e l) ≡ combine j (folded f j l) (f e)
  folded-push_absent j e l he hl = elim (Bool-cases (has (address e) l)) [
    | inl q ↦ rw q (sym (folded-has j e l he hl q))
    | inr q ↦ rw q (folded-end f j e l)
  ]

pub push_absent-Known :
    (at : ℕ → Expression) (e : Expression) (l : List Expression)
    → Known at e
    → All (Known at) l
    → All (Known at) (push_absent e l)
push_absent-Known at e l he hl = elim (Bool-cases (has (address e) l)) [
  | inl q ↦ rw q hl
  | inr q ↦ rw q (All-append (Known at) l (e ∷ []) hl (he, tt))
]

-- ===== src/Simplify/Removal.antt =====
-- `removeIdenticalTerms`, whole: what it returns, and where it asserts.
use fcd.Base.{
  ℕ, ◌+◌, ◌≡◌, refl, sym, ap, ◌∙◌, Bool, true, false, ◌||◌, Option, none, some, List, [], ◌∷◌, ◌++◌,
  arith,
}
use fcd.Expr.Defs.{NAryOperator, nary, Expression, Operands, node}
use fcd.Expr.Negate.{Constants}
use fcd.Simplify.Terms.{
  Terms, collect_expression_terms, Removal, returned, kept, is_or, is_and, to_operands, finish,
  no_terms, removal, remove_identical_terms,
}
use fcd.Simplify.Truth.{combine, truths, AreStored, IsLogic, folded, folded-append}
use fcd.Simplify.Collect.{worth, truth-nary, collect-worth}
use fcd.Simplify.Keep.{Sound, keep_true_terms-Sound, keep_false_terms-Sound}
use fcd.Simplify.Neutral.{neutral, deciding, AllAt, keep_true_terms-AllAt, keep_false_terms-AllAt}

-- An expression of the worth `b`, or the failed assertion, which needs that no term says anything.
abbrev pub Outcome :
    Constants → (Expression → Bool) → NAryOperator → Terms → (b : Bool) → Option Expression → Type 0
Outcome c truth op t b (some r) = truth r ≡ b
Outcome c truth op t b none =
    AllAt (neutral c op) t.true_terms × AllAt (deciding c op) t.false_terms

truths-to_operands :
    (truth : Expression → Bool) (j : Bool) (es : List Expression)
    → truths truth j (to_operands es) ≡ folded truth j es
truths-to_operands truth j [] = refl
truths-to_operands truth j (e ∷ es) = ap (combine j (truth e)) (truths-to_operands truth j es)

combine-unit : (j b : Bool) → combine j b j ≡ b
combine-unit true b = ground arith
combine-unit false b = ground arith

unit-combine : (j b : Bool) → combine j (combine j j j) b ≡ b
unit-combine true b = refl
unit-combine false b = refl

combine_comm : (j a b : Bool) → combine j a b ≡ combine j b a
combine_comm j a b = ground arith

module _ {at : ℕ → Expression} {c : Constants} {truth : Expression → Bool}
    (w : IsLogic at c truth) where
  finish-Outcome :
      (op : NAryOperator) (fresh : ℕ) (t : Terms) (tv fv : Bool) (m n : Removal)
      → (is_or op || is_and op) ≡ true
      → Sound truth (is_and op) tv fv m
      → Sound truth (is_and op) fv tv n
      → (m ≡ kept [] → AllAt (deciding c op) t.false_terms)
      → (n ≡ kept [] → AllAt (neutral c op) t.true_terms)
      → Outcome c truth op t (combine (is_and op) tv fv) (finish fresh op m n)
  finish-Outcome op fresh t tv fv (returned r) n ok hm hn em en = hm.0 ∙ sym hm.1
  finish-Outcome op fresh t tv fv (kept es) (returned r) ok hm hn em en = ground arith
  finish-Outcome op fresh t tv fv (kept []) (kept []) ok hm hn em en = (en refl, em refl)
  finish-Outcome op fresh t tv fv (kept []) (kept (f ∷ fs)) ok hm hn em en =
      let v = truth-nary w op fresh (to_operands (f ∷ fs)) ok in
      let u = truths-to_operands truth (is_and op) (f ∷ fs) in
      v ∙ u ∙ hn ∙ sym (ap (combine (is_and op) tv) (sym hm) ∙ combine-unit (is_and op) tv)
  finish-Outcome op fresh t tv fv (kept (e ∷ es)) (kept fs) ok hm hn em en =
      let v = truth-nary w op fresh (to_operands (e ∷ es ++ fs)) ok in
      let u = truths-to_operands truth (is_and op) (e ∷ es ++ fs) in
      let a = folded-append truth (is_and op) (e ∷ es) fs in
      v
      ∙ u
      ∙ a
      ∙ ap (λ x. combine (is_and op) x (folded truth (is_and op) fs)) hm
      ∙ ap (combine (is_and op) fv) hn
      ∙ combine_comm (is_and op) fv tv

  -- For a conjunction or a disjunction, `removeIdenticalTerms` returns an expression that is true
  -- just where the given one is, or its assertion fails, and then each of the collected true terms
  -- is the constant that the operator ignores, and each false term the opposite constant. Every
  -- expression must be the one stored at its address, and the reading of conditions must give `!`,
  -- `&&`, `||` and the constants their meaning.
  pub remove_identical_terms-Outcome :
      (op : NAryOperator) (p fresh : ℕ) (es : Operands)
      → (is_or op || is_and op) ≡ true
      → AreStored at es
      → Outcome c truth op
          (collect_expression_terms op es no_terms)
          (truth (node p (nary op) es))
          (remove_identical_terms c fresh (node p (nary op) es))
  unfolding remove_identical_terms removal
  remove_identical_terms-Outcome op p fresh es ok hs =
      let t = collect_expression_terms op es no_terms in
      let h = collect-worth w op es no_terms ok hs (tt, tt) in
      let v : truth (node p (nary op) es) ≡ worth truth (is_and op) t =
        truth-nary w op p es ok ∙ sym (h.1 ∙ unit-combine (is_and op) _) in
      rw ok (
        rw v (
          finish-Outcome op fresh t _ _ _ _ ok
            (keep_false_terms-Sound w op t.true_terms (fresh + 1) t.false_terms ok h.0.0 h.0.1)
            (keep_true_terms-Sound w op t.true_terms _ ok h.0.0)
            (keep_false_terms-AllAt c op t.true_terms (fresh + 1) t.false_terms ok)
            (keep_true_terms-AllAt c op t.true_terms ok)))

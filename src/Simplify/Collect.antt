-- ===== src/Simplify/Collect.antt =====
-- The terms that `collectExpressionTerms` finds in a conjunction or a disjunction are worth as much
-- as its operands.
use fcd.Base.{ℕ, ◌≡◌, inl, inr, Bool, true, false, not, ◌||◌, All, arith, Bool-cases}
use fcd.Expr.Defs.{
  logical_negate, NAryOperator, short_circuit_and, short_circuit_or, nary_code, unary, nary,
  Expression, Operands, node, nil, cons,
}
use fcd.Expr.Negate.{Constants, count_negations, count_negation_depth, truth-count_negation_depth}
use fcd.Simplify.Terms.{
  Terms, add_term, same_operator, collect_expression_terms, collect_term, is_or, is_and,
}
use fcd.Simplify.Truth.{
  combine, truths, IsStored, AreStored, stored, none_left, one_more, IsLogic, folded, Known,
  folded-push_absent, push_absent-Known,
}

pub IsStored-Known : (at : ℕ → Expression) (e : Expression) → IsStored at e → Known at e
IsStored-Known at (node p k es) (stored h hs) = h

count_negations-Known :
    (at : ℕ → Expression) (b : Bool) (e : Expression)
    → IsStored at e
    → Known at (count_negations b e).canonical
unfolding count_negations
count_negations-Known at b (node p (unary logical_negate) (cons e es)) (stored h (one_more he hs)) =
    count_negations-Known at (not b) e he
count_negations-Known at b e h = IsStored-Known at e h

abbrev pub AllKnown : (ℕ → Expression) → Terms → Type 0
AllKnown at t = All (Known at) t.true_terms × All (Known at) t.false_terms

-- What the terms are worth: the true ones as they are, the false ones negated.
abbrev pub worth : (Expression → Bool) → Bool → Terms → Bool
worth truth j t =
    combine j (folded truth j t.true_terms) (folded (λ e. not (truth e)) j t.false_terms)

module _ {at : ℕ → Expression} {c : Constants} {truth : Expression → Bool}
    (w : IsLogic at c truth) where
  add_term-worth :
      (j : Bool) (e : Expression) (t : Terms)
      → IsStored at e
      → AllKnown at t
      → AllKnown at (add_term e t)
        × (worth truth j (add_term e t) ≡ combine j (worth truth j t) (truth e))
  unfolding count_negation_depth
  add_term-worth j e t he ht =
      let d = count_negations false e in
      let known = count_negations-Known at false e he in
      let meaning = truth-count_negation_depth w.reading e in
      let ps = push_absent-Known at d.canonical t.true_terms known ht.0 in
      let ns = push_absent-Known at d.canonical t.false_terms known ht.1 in
      let pv = folded-push_absent at truth j d.canonical t.true_terms known ht.0 in
      let nv = folded-push_absent at (λ x. not (truth x)) j d.canonical t.false_terms known ht.1 in
      elim (Bool-cases d.is_negated) [
        | inl q ↦ rw q ((ht.0, ns), ground arith)
        | inr q ↦ rw q ((ps, ht.1), ground arith)
      ]

  pub truth-nary :
      (op : NAryOperator) (p : ℕ) (es : Operands)
      → (is_or op || is_and op) ≡ true
      → truth (node p (nary op) es) ≡ truths truth (is_and op) es
  truth-nary short_circuit_and p es h = w.conjoins p es
  truth-nary short_circuit_or p es h = w.disjoins p es
  truth-nary _ p es h = cc

  -- The terms of a flattened list of operands are worth what was there and the operands.
  mutual
    unfolding collect_expression_terms collect_term

    pub collect-worth :
        (op : NAryOperator) (es : Operands) (t : Terms)
        → (is_or op || is_and op) ≡ true
        → AreStored at es
        → AllKnown at t
        → AllKnown at (collect_expression_terms op es t)
          × (worth truth (is_and op) (collect_expression_terms op es t)
              ≡ combine (is_and op) (worth truth (is_and op) t) (truths truth (is_and op) es))
    collect-worth op nil t ok none_left ht = (ht, ground arith)
    collect-worth op (cons e es) t ok (one_more he hs) ht =
        let first = collect_term-worth op e t ok he ht in
        let rest = collect-worth op es (collect_term op e t) ok hs first.0 in (rest.0, ground arith)

    collect_term-worth :
        (op : NAryOperator) (e : Expression) (t : Terms)
        → (is_or op || is_and op) ≡ true
        → IsStored at e
        → AllKnown at t
        → AllKnown at (collect_term op e t)
          × (worth truth (is_and op) (collect_term op e t)
              ≡ combine (is_and op) (worth truth (is_and op) t) (truth e))
    collect_term-worth op (node p (nary op') es) t ok (stored h hs) ht =
        elim (Bool-cases (same_operator op' op)) [
          | inl q ↦ rw q (
              let inner = collect-worth op es t ok hs ht in
              let same : nary_code op' ≡ nary_code op = ground arith in
              let m = truth-nary op' p es (ground arith) in (inner.0, ground arith))
          | inr q ↦ rw q (add_term-worth (is_and op) _ t (stored h hs) ht)
        ]
    collect_term-worth op e t ok h ht = add_term-worth (is_and op) e t h ht

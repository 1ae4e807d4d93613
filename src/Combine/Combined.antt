-- ===== src/Combine/Combined.antt =====
-- `AstConsecutiveCombiner` ends, and keeps what a function does.
use fcd.Base.{ℕ, zero, suc, ◌≤◌, ◌<◌, arith}
use fcd.Expr.Defs.{Expression}
use fcd.Expr.Negate.{Constants}
use fcd.Combine.Tree.{
  ConditionPosition, Statement, Statements, expr, keyword, if_else, loop, nil, cons, append, size,
  statement_size,
}
use fcd.Combine.Run.{Machine}
use fcd.Combine.Each.{Each-append, Executes-append, LeavesWorth}
use fcd.Combine.Same.{Same-refl, Same-cons, Same-append, SameExec-if_else, SameExec-loop}
use fcd.Combine.Merge.{Conditions, Admits, AdmitsStatement, asked}
use fcd.Combine.Outcome.{Pass, Gives, Ensures, Ensures-pure, Ensures-bind, Ensures-map}
use fcd.Combine.Consecutive.{
  no_if_else, visit, visit_all, optimize_sequence, run_consecutive_combiner,
}
use fcd.Combine.Kept.{size-append, Kept, Kept-refl, Kept-trans}
use fcd.Combine.Joined.{combine_list-Kept}
use fcd.Combine.Visited.{visit_if_else-Kept, visit_loop-Kept}

module _ {m : Machine} {c : Constants} (w : Conditions m c) where
  bodies-Kept :
      (d : Expression) (a b a' b' : Statements)
      → AdmitsStatement w (if_else d a b)
      → Kept w a a'
      → Kept w b b'
      → Kept w (cons (if_else d a b) nil) (cons (if_else d a' b') nil)
  unfolding size
  bodies-Kept d a b a' b' h ka kb = record {
    admitted = (((h.0.0, ka.keeps d h.0.1, kb.keeps d h.0.2), ka.admitted, kb.admitted), tt);
    keeps = λ g k. ((ka.keeps g k.0.0, kb.keeps g k.0.1), tt);
    bounded = omega (arith, ka.bounded, kb.bounded);
    does_same = Same-cons m (SameExec-if_else m d ka.does_same kb.does_same) (Same-refl m nil);
  }

  body-Kept :
      (d : Expression) (p : ConditionPosition) (b b' : Statements)
      → AdmitsStatement w (loop d p b)
      → Kept w b b'
      → Kept w (cons (loop d p b) nil) (cons (loop d p b') nil)
  unfolding size
  body-Kept d p b b' h kb = record {
    admitted = ((h.0, kb.admitted), tt);
    keeps = λ g k. (kb.keeps g k.0, tt);
    bounded = omega (arith, kb.bounded);
    does_same = Same-cons m (SameExec-loop m d p kb.does_same) (Same-refl m nil);
  }

  append-Kept :
      (x : Statement) (s t r : Statements)
      → Kept w (cons x nil) t
      → Kept w s r
      → Kept w (cons x s) (append t r)
  unfolding size append
  append-Kept x s t r kx k = record {
    admitted = Each-append (asked w) t r kx.admitted k.admitted;
    bounded = omega (arith, kx.bounded, k.bounded, size-append t r);
    does_same = Same-append m {s = cons x nil} kx.does_same k.does_same;
    keeps = λ g e. Executes-append (LeavesWorth m g) t r (kx.keeps g (e.0, tt)) (k.keeps g e.1);
  }

  module _ (f : ℕ) (again : Statements → Pass Statements)
      (ih : (s : Statements)
        → size s < f
        → Admits w s
        → Ensures w.first_new (Kept w s) (again s)) where
    visit-Kept :
        (x : Statement)
        → AdmitsStatement w x
        → statement_size x ≤ f
        → Ensures w.first_new (Kept w (cons x nil)) (visit c again x)
    unfolding visit size
    visit-Kept (expr e) h fits = Ensures-pure _ (Kept-refl w _ (h, tt))
    visit-Kept (keyword n o) h fits = Ensures-pure _ (Kept-refl w _ (h, tt))
    visit-Kept (if_else d a b) h fits = Ensures-bind _ _ (ih a (omega arith) h.1) λ a' ka.
        Ensures-bind _ _ (ih b (omega arith) h.2) λ b' kb.
          let k = bodies-Kept d a b a' b' h ka kb in
          Ensures-map _ (λ r kr. Kept-trans w _ _ r k kr)
            (visit_if_else-Kept w d a' b' k.admitted.0)
    visit-Kept (loop d p b) h fits = Ensures-bind _ _ (ih b (omega arith) h.1) λ b' kb.
        let k = body-Kept d p b b' h kb in
        Ensures-map _ (λ r kr. Kept-trans w _ _ r k kr) (visit_loop-Kept w d p b' k.admitted.0)

    visit_all-Kept :
        (s : Statements)
        → Admits w s
        → size s ≤ f
        → Ensures w.first_new (Kept w s) (visit_all c again s)
    unfolding visit_all size
    visit_all-Kept nil h fits = Ensures-pure _ (Kept-refl w nil h)
    visit_all-Kept (cons x s) h fits = Ensures-bind _ _ (visit-Kept x h.0 (omega arith)) λ t kx.
        Ensures-bind _ _ (visit_all-Kept s h.1 (omega arith))
          λ r k. Ensures-pure _ (append-Kept x s t r kx k)

  -- With more fuel than there are statements.
  optimize_sequence-Kept :
      (f : ℕ) (s : Statements)
      → size s < f
      → Admits w s
      → Ensures w.first_new (Kept w s) (optimize_sequence c f s)
  unfolding optimize_sequence
  optimize_sequence-Kept zero s fits h = absurd (omega arith)
  optimize_sequence-Kept (suc f) s fits h =
      let ih =
        λ (t : Statements) (k : size t < f) (a : Admits w t). optimize_sequence-Kept f t k a in
      Ensures-bind _ _
        (combine_list-Kept w f (optimize_sequence c f) ih no_if_else s h (omega arith))
        λ t kt.
          Ensures-map _ (λ r kr. Kept-trans w s t r kt kr)
            (visit_all-Kept f (optimize_sequence c f) ih t kt.admitted (omega (arith, kt.bounded)))

  -- `AstConsecutiveCombiner` always finishes: no comparison of conditions fails, `optimizeSequence`
  -- calls itself at most once more often inside itself than the function has statements, and the
  -- statements that it leaves are no more than the given ones and end in the same states with the
  -- same signals. It needs conditions among which `operator==` gives an answer and holds only of
  -- ones that are worth the same, and if-else statements with no body that changes what their own
  -- condition is worth. The new negations get addresses of no condition.
  pub run_consecutive_combiner-Kept :
      (body : Statements) (next_address : ℕ)
      → Admits w body
      → w.first_new ≤ next_address
      → Gives w.first_new (Kept w body) (run_consecutive_combiner c body next_address)
  unfolding run_consecutive_combiner
  run_consecutive_combiner-Kept body next_address h new =
      optimize_sequence-Kept (suc (size body)) body (omega arith) h next_address new

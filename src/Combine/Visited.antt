-- ===== src/Combine/Visited.antt =====
-- What `visitIfElse` and `visitLoop` make of a statement keeps what it does.
use fcd.Base.{◌≤◌, ◌≡◌, refl, ap, ◌∙◌, inl, inr, Bool, Bool-cases, true, false, not, arith, ==_iff}
use fcd.Expr.Defs.{Expression}
use fcd.Expr.Equality.{equals}
use fcd.Expr.Negate.{
  Constants, negate, negate_if, count_negation_depth, truth-negate, truth-count_negation_depth,
}
use fcd.Combine.Tree.{
  ConditionPosition, post_tested, Statement, Statements, if_else, loop, nil, cons, size,
  statement_size,
}
use fcd.Combine.Run.{Machine}
use fcd.Combine.Same.{Same-refl, Same-cons, SameExec}
use fcd.Combine.Each.{ExecutesIn, LeavesWorth, Keeps-worth}
use fcd.Combine.Merge.{Conditions, AdmitsStatement}
use fcd.Combine.Branches.{SameExec-opposite, Same-constant, Same-empty_if, SameExec-do_if}
use fcd.Combine.Outcome.{Ensures, gave, Ensures-pure, Ensures-ask, Ensures-bind}
use fcd.Combine.Consecutive.{
  is_constant, positive_form, without_constants, pre_test_if, visit_if_else, visit_loop,
}
use fcd.Combine.Kept.{Kept, Kept-refl, Kept-trans}

module _ {m : Machine} {c : Constants} (w : Conditions m c) where
  opposite_canonical :
      (d : Expression)
      → (count_negation_depth d).is_negated ≡ true
      → (st : m.State) → m.truth st (count_negation_depth d).canonical ≡ not (m.truth st d)
  opposite_canonical d p st =
      let worth = truth-count_negation_depth (w.reading st) d in opposite_of _ _ _ p worth
    where
      opposite_of : (x u v : Bool) → x ≡ true → u ≡ negate_if x v → v ≡ not u
      opposite_of true u true h q = ground arith
      opposite_of true u false h q = ground arith
      opposite_of false u v h q = cc

  one_for_one :
      (x y : Statement)
      → AdmitsStatement w y
      → statement_size y ≤ statement_size x
      → SameExec m x y
      → ((d : Expression) → ExecutesIn (LeavesWorth m d) x → ExecutesIn (LeavesWorth m d) y)
      → Kept w (cons x nil) (cons y nil)
  unfolding size
  one_for_one x y h k e same_run = record {
    admitted = (h, tt);
    bounded = omega arith;
    does_same = Same-cons m e (Same-refl m nil);
    keeps = λ d k. (same_run d k.0, tt);
  }

  positive_form-Kept :
      (d : Expression) (a b : Statements)
      → AdmitsStatement w (if_else d a b)
      → Kept w (cons (if_else d a b) nil) (cons (positive_form d a b) nil)
  unfolding size
  positive_form-Kept d a nil h = Kept-refl w _ (h, tt)
  positive_form-Kept d a (cons x s) h = elim (Bool-cases (count_negation_depth d).is_negated) [
    | inr p ↦ rw p (Kept-refl w _ (h, tt))
    | inl p ↦
        let e = (count_negation_depth d).canonical in
        let opposite = opposite_canonical d p in
        rw p (
          one_for_one (if_else d a (cons x s)) (if_else e (cons x s) a)
            (
              (
                w.tested_canonical d h.0.0,
                Keeps-worth m not d e (cons x s) opposite h.0.2,
                Keeps-worth m not d e a opposite h.0.1,
              ),
              h.2,
              h.1,
            )
            (omega arith) (SameExec-opposite m d e a (cons x s) opposite) (λ g k. (k.1, k.0)))
  ]

  without_constants-Kept :
      (d : Expression) (a b : Statements)
      → AdmitsStatement w (if_else d a b)
      → Kept w (cons (if_else d a b) nil) (without_constants c d a b)
  unfolding without_constants size
  without_constants-Kept d a b h = elim (Bool-cases (is_constant d c.expression_for_true)) [
    | inl p ↦
        let is_it = w.true_address d h.0.0 ((==_iff _ _).0 p) in
        let worth = λ (st : m.State). ap (m.truth st) is_it ∙ (w.reading st).for_true in
        rw p (record {
          admitted = h.1;
          bounded = omega arith;
          does_same = Same-constant m true d a b worth;
          keeps = λ g k. k.0.0;
        })
    | inr p ↦ rw p (elim (Bool-cases (is_constant d c.expression_for_false)) [
      | inl q ↦
          let is_it = w.false_address d h.0.0 ((==_iff _ _).0 q) in
          let worth = λ (st : m.State). ap (m.truth st) is_it ∙ (w.reading st).for_false in
          rw q (record {
            admitted = h.2;
            bounded = omega arith;
            does_same = Same-constant m false d a b worth;
            keeps = λ g k. k.0.1;
          })
      | inr q ↦ rw q (positive_form-Kept d a b h)
    ])
  ]

  pub visit_if_else-Kept :
      (d : Expression) (a b : Statements)
      → AdmitsStatement w (if_else d a b)
      → Ensures w.first_new (Kept w (cons (if_else d a b) nil)) (visit_if_else c d a b)
  unfolding visit_if_else size
  visit_if_else-Kept d nil nil h n new = gave (omega arith) (record {
    admitted = tt;
    bounded = omega arith;
    does_same = Same-empty_if m d;
    keeps = λ g k. tt;
  })
  visit_if_else-Kept d nil (cons x s) h n new =
      let e = negate c n d in
      let opposite = λ (st : m.State). truth-negate (w.reading st) n d in
      let admitted : AdmitsStatement w (if_else e (cons x s) nil) = (
        (w.tested_negate n d new h.0.0, Keeps-worth m not d e (cons x s) opposite h.0.2, tt),
        h.2,
        tt,
      ) in
      gave (omega arith) (
        Kept-trans w _ _ _
          (one_for_one (if_else d nil (cons x s)) (if_else e (cons x s) nil) admitted (omega arith)
            (SameExec-opposite m d e nil (cons x s) opposite) (λ g k. (k.1, tt)))
          (without_constants-Kept e (cons x s) nil admitted))
  visit_if_else-Kept d (cons x s) b h n new =
      gave (omega arith) (without_constants-Kept d (cons x s) b h)

  pre_test_if-Kept :
      (d e : Expression) (a : Statements) (r : Bool)
      → AdmitsStatement w (loop d post_tested (cons (if_else e a nil) nil))
      → (r ≡ true → (st : m.State) → m.truth st e ≡ m.truth st d)
      → Kept w
          (cons (loop d post_tested (cons (if_else e a nil) nil)) nil)
          (cons (pre_test_if d e a r) nil)
  unfolding size
  pre_test_if-Kept d e a true h says =
      one_for_one _ _ (h.0, h.1.0.1) (omega arith) (SameExec-do_if m d e a (says refl))
        (λ g k. k.0.0)
  pre_test_if-Kept d e a false h says = Kept-refl w _ (h, tt)

  pub visit_loop-Kept :
      (d : Expression) (p : ConditionPosition) (b : Statements)
      → AdmitsStatement w (loop d p b)
      → Ensures w.first_new (Kept w (cons (loop d p b) nil)) (visit_loop d p b)
  unfolding visit_loop
  visit_loop-Kept d post_tested (cons (if_else e a nil) nil) h =
      let (r, found, says) = w.compared e d h.1.0.0.0 h.0 in
      Ensures-bind {P = λ t. t ≡ true → (st : m.State) → m.truth st e ≡ m.truth st d} _ _
        (Ensures-ask (equals e d) r found says) λ t s. Ensures-pure _ (pre_test_if-Kept d e a t h s)
  visit_loop-Kept d p b h = Ensures-pure _ (Kept-refl w _ (h, tt))

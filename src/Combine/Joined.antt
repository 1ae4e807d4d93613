-- ===== src/Combine/Joined.antt =====
-- What the loop of `optimizeSequence` puts together keeps what the list does.
use fcd.Base.{sym, not, ℕ, ◌+◌, ◌≤◌, ◌<◌, ◌≡◌, arith}
use fcd.Expr.Defs.{Expression}
use fcd.Expr.Negate.{Constants}
use fcd.Combine.Tree.{Statement, Statements, expr, keyword, if_else, loop, nil, cons, append, size}
use fcd.Combine.Run.{Machine}
use fcd.Combine.Each.{Each-append, Executes-append, LeavesWorth, Keeps, Keeps-worth}
use fcd.Combine.Same.{Same-refl, Same-trans, Same-cons, SameExec, SameExec-refl, SameExec-if_else}
use fcd.Combine.Merge.{Conditions, Admits, AdmitsStatement, asked, Same-merged}
use fcd.Combine.Branches.{SameExec-equal, SameExec-opposite, opposite_back}
use fcd.Combine.Outcome.{Pass, Ensures, ◌>>=◌, Ensures-pure, Ensures-ask, Ensures-bind, Ensures-map}
use fcd.Combine.Consecutive.{
  Last, no_if_else, last_if_else, last_statement, same, opposite, different, compare_conditions,
  combine_list,
}
use fcd.Combine.Kept.{size-append, Kept, Kept-refl, Kept-trans, Says, compare_conditions-Says}

module _ {m : Machine} {c : Constants} (w : Conditions m c) where
  pub Kept-cons :
      (x : Statement) (s r : Statements)
      → AdmitsStatement w x
      → Kept w s r
      → Kept w (cons x s) (cons x r)
  unfolding size
  Kept-cons x s r h k = record {
    admitted = (h, k.admitted);
    bounded = omega (arith, k.bounded);
    does_same = Same-cons m (SameExec-refl m x) k.does_same;
    keeps = λ d e. (e.0, k.keeps d e.1);
  }

  -- The bodies joined, and combined again.
  joined-Kept :
      (d e : Expression) (x y a b x' y' a' b' list : Statements)
      → AdmitsStatement w (if_else d x y)
      → Admits w list
      → SameExec m (if_else e a b) (if_else d a' b')
      → size a + size b ≡ size a' + size b'
      → ((e₀ : Expression) → Keeps m e₀ a → Keeps m e₀ b → Keeps m e₀ a' × Keeps m e₀ b')
      → Keeps m d a'
      → Keeps m d b'
      → Kept w (append x a') x'
      → Kept w (append y b') y'
      → Kept w (cons (if_else d x y) (cons (if_else e a b) list)) (cons (if_else d x' y') list)
  unfolding size
  joined-Kept d e x y a b x' y' a' b' list h hl same_if sizes parts ga gb kx ky = record {
    admitted = (
      (
        (
          h.0.0,
          kx.keeps d (Executes-append (LeavesWorth m d) x a' h.0.1 ga),
          ky.keeps d (Executes-append (LeavesWorth m d) y b' h.0.2 gb),
        ),
        kx.admitted,
        ky.admitted,
      ),
      hl,
    );
    keeps = λ e₀ k.
        let (ka, kb) = parts e₀ k.1.0.0 k.1.0.1 in
        (
          (
            kx.keeps e₀ (Executes-append (LeavesWorth m e₀) x a' k.0.0 ka),
            ky.keeps e₀ (Executes-append (LeavesWorth m e₀) y b' k.0.1 kb),
          ),
          k.1.1,
        );
    bounded = omega (arith, kx.bounded, ky.bounded, size-append x a', size-append y b', sizes);
    does_same =
        Same-trans m
          (Same-cons m (SameExec-refl m (if_else d x y)) (Same-cons m same_if (Same-refl m list)))
          (Same-trans m (Same-merged w d x y a' b' list h.0.1 h.0.2)
            (Same-cons m (SameExec-if_else m d kx.does_same ky.does_same) (Same-refl m list)));
  }

  module _ (f : ℕ) (again : Statements → Pass Statements)
      (ih : (s : Statements)
        → size s < f
        → Admits w s
        → Ensures w.first_new (Kept w s) (again s)) where
    -- one of the two joins: both bodies first, then the rest of the list
    join-Kept :
        (d e : Expression) (x y a b a' b' list : Statements)
        → AdmitsStatement w (if_else d x y)
        → AdmitsStatement w (if_else e a b)
        → Admits w a'
        → Admits w b'
        → Admits w list
        → size (cons (if_else d x y) (cons (if_else e a b) list)) ≤ f
        → SameExec m (if_else e a b) (if_else d a' b')
        → size a + size b ≡ size a' + size b'
        → ((e₀ : Expression) → Keeps m e₀ a → Keeps m e₀ b → Keeps m e₀ a' × Keeps m e₀ b')
        → Keeps m d a'
        → Keeps m d b'
        → ((x' y' : Statements)
            → Admits w (cons (if_else d x' y') list)
            → size (cons (if_else d x' y') list) ≤ f
            → Ensures w.first_new
                (Kept w (cons (if_else d x' y') list))
                (combine_list c again (last_if_else d x' y') list))
        → Ensures w.first_new (Kept w (cons (if_else d x y) (cons (if_else e a b) list))) (do
          if_body ← again (append x a')
          else_body ← again (append y b')
          combine_list c again (last_if_else d if_body else_body) list)
    unfolding size
    join-Kept d e x y a b a' b' list h he ha hb hl fits same_if sizes parts ga gb rest =
        Ensures-bind _ _
          (ih (append x a') (omega (arith, size-append x a', sizes))
            (Each-append (asked w) x a' h.1 ha))
          λ x' kx.
            Ensures-bind _ _
              (ih (append y b') (omega (arith, size-append y b', sizes))
                (Each-append (asked w) y b' h.2 hb))
              λ y' ky.
                let k =
                  joined-Kept d e x y a b x' y' a' b' list h hl same_if sizes parts ga gb kx ky in
                Ensures-map _ (λ r kr. Kept-trans w _ _ r k kr)
                  (rest x' y' k.admitted (omega (arith, k.bounded)))

    pub combine_list-Kept :
        (last : Last) (list : Statements)
        → Admits w (last_statement last list)
        → size (last_statement last list) ≤ f
        → Ensures w.first_new (Kept w (last_statement last list)) (combine_list c again last list)
    unfolding combine_list size
    combine_list-Kept no_if_else nil h fits = Ensures-pure _ (Kept-refl w _ h)
    combine_list-Kept (last_if_else d x y) nil h fits = Ensures-pure _ (Kept-refl w _ h)
    combine_list-Kept (last_if_else d x y) (cons (if_else e a b) list) h fits =
        let (k, found, says) = compare_conditions-Says w e d h.1.0.0.0 h.0.0.0 in
        Ensures-bind {P = Says w e d} _ _ (Ensures-ask (compare_conditions e d) k found says)
          (elim [
            | same ↦ λ s.
                join-Kept d e x y a b a b list h.0 h.1.0 h.1.0.1 h.1.0.2 h.1.1 fits
                  (SameExec-equal m e d a b s) (omega arith) (λ e₀ ka kb. (ka, kb))
                  (Keeps-worth m (λ v. v) e d a (λ st. sym (s st)) h.1.0.0.1)
                  (Keeps-worth m (λ v. v) e d b (λ st. sym (s st)) h.1.0.0.2)
                  (λ x' y' hx fx. combine_list-Kept (last_if_else d x' y') list hx fx)
            | opposite ↦ λ s.
                join-Kept d e x y a b b a list h.0 h.1.0 h.1.0.2 h.1.0.1 h.1.1 fits
                  (SameExec-opposite m e d a b (λ st. opposite_back m _ _ (s st))) (omega arith)
                  (λ e₀ ka kb. (kb, ka))
                  (Keeps-worth m not e d b (λ st. opposite_back m _ _ (s st)) h.1.0.0.2)
                  (Keeps-worth m not e d a (λ st. opposite_back m _ _ (s st)) h.1.0.0.1)
                  (λ x' y' hx fx. combine_list-Kept (last_if_else d x' y') list hx fx)
            | different ↦ λ s.
                Ensures-bind _ _ (combine_list-Kept (last_if_else e a b) list h.1 (omega arith))
                  λ r kr. Ensures-pure _ (Kept-cons (if_else d x y) _ r h.0 kr)
          ])
    combine_list-Kept no_if_else (cons (if_else e a b) list) h fits =
        combine_list-Kept (last_if_else e a b) list h fits
    combine_list-Kept no_if_else (cons (expr e) list) h fits =
        Ensures-bind _ _ (combine_list-Kept no_if_else list h.1 (omega arith))
          λ r kr. Ensures-pure _ (Kept-cons (expr e) list r h.0 kr)
    combine_list-Kept no_if_else (cons (keyword n o) list) h fits =
        Ensures-bind _ _ (combine_list-Kept no_if_else list h.1 (omega arith))
          λ r kr. Ensures-pure _ (Kept-cons (keyword n o) list r h.0 kr)
    combine_list-Kept no_if_else (cons (loop d p b) list) h fits =
        Ensures-bind _ _ (combine_list-Kept no_if_else list h.1 (omega arith))
          λ r kr. Ensures-pure _ (Kept-cons (loop d p b) list r h.0 kr)
    combine_list-Kept (last_if_else d x y) (cons (expr e) list) h fits =
        Ensures-bind _ _ (combine_list-Kept no_if_else list h.1.1 (omega arith)) λ r kr.
          Ensures-pure _ (Kept-cons (if_else d x y) _ _ h.0 (Kept-cons (expr e) list r h.1.0 kr))
    combine_list-Kept (last_if_else d x y) (cons (keyword n o) list) h fits =
        Ensures-bind _ _ (combine_list-Kept no_if_else list h.1.1 (omega arith)) λ r kr.
          Ensures-pure _
            (Kept-cons (if_else d x y) _ _ h.0 (Kept-cons (keyword n o) list r h.1.0 kr))
    combine_list-Kept (last_if_else d x y) (cons (loop e p b) list) h fits =
        Ensures-bind _ _ (combine_list-Kept no_if_else list h.1.1 (omega arith)) λ r kr.
          Ensures-pure _
            (Kept-cons (if_else d x y) _ _ h.0 (Kept-cons (loop e p b) list r h.1.0 kr))

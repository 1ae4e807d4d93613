-- ===== src/Uses/SetUse.antt =====
-- `setUse` moves a use from the list of one expression to the front of another's.
use fcd.Base.{
  ℕ, ◌≡◌, ◌≢◌, sym, ◌∙◌, subst, true, false, none, some, List, [], ◌∷◌, ◌==◌, ==_refl,
  if◌then◌else◌, All, arith,
}
use fcd.Uses.Linked.{UseStore, set_next_prev, link, Linked, Absent, Distinct, IsUseList}
use fcd.Uses.Neighbours.{users, next-expression, not-true, some-inj}
use fcd.Uses.Unlink.{
  points, points-apart, if-yes, if-no, All-both, SameUse, Linked-same, next-Absent,
}

link-use_at :
    (h : UseStore) (u e x : ℕ)
    → (x == u) ≡ false
    → (((link h u (some e)).use_at x).expression ≡ (h.use_at x).expression)
      × (((link h u (some e)).use_at x).next ≡ (h.use_at x).next)
      × (((link h u (some e)).use_at x).prev
          ≡ (if points (h.first_use e) x then some u else (h.use_at x).prev))
unfolding link set_next_prev
link-use_at h u e x d = ground arith

link-used :
    (h : UseStore) (u e : ℕ)
    → points (h.first_use e) u ≡ false
    → (((link h u (some e)).use_at u).expression ≡ some e)
      × (((link h u (some e)).use_at u).next ≡ h.first_use e)
      × (((link h u (some e)).use_at u).prev ≡ none)
unfolding link set_next_prev
link-used h u e d = ground arith

link-first_use :
    (h : UseStore) (u e x : ℕ)
    → (link h u (some e)).first_use x ≡ (if x == e then some u else h.first_use x)
unfolding link set_next_prev
link-first_use h u e x = ground arith

link-same :
    (h : UseStore) (u e x : ℕ)
    → x ≢ u
    → points (h.first_use e) x ≡ false
    → SameUse h (link h u (some e)) x
link-same h u e x d f =
    let w = link-use_at h u e x (points-apart u x d) in (w.0, w.1, w.2 ∙ if-no _ _ f)

link-behind :
    (h : UseStore) (u e : ℕ) (us : List ℕ)
    → Linked h e none (h.first_use e) us
    → Distinct us
    → Absent u us
    → Linked (link h u (some e)) e (some u) (h.first_use e) us
link-behind h u e [] l d a = l
link-behind h u e (v ∷ us) l d a =
    let w = link-use_at h u e v (points-apart u v a.0) in
    let here : points (h.first_use e) v ≡ true = rw l.0 (==_refl v) in
    let after : All (SameUse h (link h u (some e))) us =
      All-both (λ x. x ≢ v) (λ x. x ≢ u) _ us
        (λ x m q. link-same h u e x q (rw l.0 (points-apart v x m))) d.0 a.1 in
    (
      l.0,
      w.2 ∙ if-yes _ _ here,
      w.0 ∙ l.2,
      subst (λ n. Linked (link h u (some e)) e (some v) n us) (sym w.1)
          (Linked-same h (link h u (some e)) e (some v) _ us after l.3),
    )

pub link-IsUseList :
    (h : UseStore) (u e : ℕ) (us : List ℕ)
    → IsUseList h e us
    → Absent u us
    → IsUseList (link h u (some e)) e (u ∷ us)
link-IsUseList h u e us (l, d) a =
    let w = link-used h u e (next-Absent h e u us none _ l a) in
    (
      (
        link-first_use h u e e ∙ if-yes _ _ (==_refl e),
        w.2,
        w.0,
        subst (λ n. Linked (link h u (some e)) e (some u) n us) (sym w.1)
            (link-behind h u e us l d a),
      ),
      (a, d),
    )

pub link-others :
    (h : UseStore) (u e f : ℕ) (us fs : List ℕ)
    → IsUseList h e us
    → f ≢ e
    → Absent u fs
    → IsUseList h f fs
    → IsUseList (link h u (some e)) f fs
link-others h u e f us fs (l, d) apart a (m, ds) =
    let distinct : (z : ℕ)
        → (h.use_at z).expression ≡ some f
        → (h.use_at z).expression ≡ some e
        → ⊥ =
      λ z p q. apart (some-inj (sym p ∙ q)) in
    let same : All (SameUse h (link h u (some e))) fs =
      All-both (λ x. x ≢ u) (λ x. (h.use_at x).expression ≡ some f) _ fs
        (λ z n p.
          link-same h u e z n (not-true _ (λ q. distinct z p (next-expression h e z us _ _ l q))))
        a (users h f _ _ fs m) in
    (
      subst (λ c. Linked (link h u (some e)) f none c fs)
          (sym (link-first_use h u e f ∙ if-no _ _ (points-apart e f apart)))
          (Linked-same h (link h u (some e)) f none _ fs same m),
      ds,
    )

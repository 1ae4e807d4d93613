-- ===== src/Uses/Unlink.antt =====
-- Unlinking a use.
use fcd.Base.{
  ℕ, ◌≡◌, ◌≢◌, refl, sym, ◌∙◌, subst, inl, inr, Bool, true, false, ◌&&◌, Option, none, some, List,
  [], ◌∷◌, ◌++◌, ◌==◌, ==_refl, if◌then◌else◌, All, Bool-cases, arith,
}
use fcd.Uses.Linked.{
  UseStore, same_pointer, set_prev_next, set_next_prev, unlink, Linked, Absent, Distinct,
}

abbrev pub points : Option ℕ → ℕ → Bool
points none x = false
points (some a) x = x == a

pub if-yes : {A : Type 0} {b : Bool} (x y : A) → b ≡ true → (if b then x else y) ≡ x
if-yes x y h = rw h refl

pub if-no : {A : Type 0} {b : Bool} (x y : A) → b ≡ false → (if b then x else y) ≡ y
if-no x y h = rw h refl

pub points-apart : (v x : ℕ) → x ≢ v → points (some v) x ≡ false
points-apart v x m = elim (Bool-cases (x == v)) [
  | inl q ↦ let same : x ≡ v = ground arith in absurd (m same)
  | inr q ↦ q
]

pub All-both :
    (P Q R : ℕ → Type 0) (us : List ℕ)
    → ((x : ℕ) → P x → Q x → R x)
    → All P us
    → All Q us
    → All R us
All-both P Q R [] f p q = tt
All-both P Q R (u ∷ us) f p q = (f u p.0 q.0, All-both P Q R us f p.1 q.1)

-- What a use holds when `u` is unlinked.
pub unlink-use_at :
    (h : UseStore) (u x : ℕ)
    → points (h.use_at u).prev u ≡ false
    → (((unlink h u).use_at x).expression ≡ (h.use_at x).expression)
      × (((unlink h u).use_at x).next
          ≡ (if points (h.use_at u).prev x then (h.use_at u).next else (h.use_at x).next))
      × (((unlink h u).use_at x).prev
          ≡ (if points (h.use_at u).next x then (h.use_at u).prev else (h.use_at x).prev))
unfolding unlink set_prev_next set_next_prev
unlink-use_at h u x d = ground arith

pub unlink-first_use :
    (h : UseStore) (u e : ℕ)
    → points (h.use_at u).prev u ≡ false
    → (unlink h u).first_use e ≡ (
        if same_pointer (h.use_at u).prev none && same_pointer (h.use_at u).expression (some e)
        then (h.use_at u).next
        else h.first_use e)
unfolding unlink set_prev_next set_next_prev
unlink-first_use h u e d = ground arith

pub Linked-tail :
    (h : UseStore) (s u : ℕ) (pre post : List ℕ) (b c : Option ℕ)
    → Linked h s b c (pre ++ u ∷ post)
    → Linked h s (some u) (h.use_at u).next post
Linked-tail h s u [] post b c l = l.3
Linked-tail h s u (x ∷ pre) post b c l = Linked-tail h s u pre post (some x) _ l.3

-- The predecessor of `u` is the one before the list, or stands in front of `u`.
pub prev-Absent :
    (h : UseStore) (s u z : ℕ) (pre post : List ℕ) (b c : Option ℕ)
    → Linked h s b c (pre ++ u ∷ post)
    → Absent z pre
    → points b z ≡ false
    → points (h.use_at u).prev z ≡ false
prev-Absent h s u z [] post b c l a d = rw l.1 d
prev-Absent h s u z (x ∷ pre) post b c l a d =
    let away : x ≢ z = a.0 in prev-Absent h s u z pre post (some x) _ l.3 a.1 (ground arith)

pub next-Absent :
    (h : UseStore) (s z : ℕ) (post : List ℕ) (b c : Option ℕ)
    → Linked h s b c post
    → Absent z post
    → points c z ≡ false
next-Absent h s z [] b c l a = rw l refl
next-Absent h s z (v ∷ post) b c l a = let away : v ≢ z = a.0 in rw l.0 (ground arith)

pub Absent-append : (z : ℕ) (us vs : List ℕ) → Absent z (us ++ vs) → Absent z us × Absent z vs
Absent-append z [] vs a = (tt, a)
Absent-append z (u ∷ us) vs a = let r = Absent-append z us vs a.1 in ((a.0, r.0), r.1)

abbrev pub SameUse : UseStore → UseStore → ℕ → Type 0
SameUse h k x =
    ((k.use_at x).expression ≡ (h.use_at x).expression)
    × ((k.use_at x).next ≡ (h.use_at x).next)
    × ((k.use_at x).prev ≡ (h.use_at x).prev)

pub Linked-same :
    (h k : UseStore) (s : ℕ) (b c : Option ℕ) (us : List ℕ)
    → All (SameUse h k) us
    → Linked h s b c us
    → Linked k s b c us
Linked-same h k s b c [] a l = l
Linked-same h k s b c (u ∷ us) a l = (
  l.0,
  a.0.2 ∙ l.1,
  a.0.0 ∙ l.2,
  subst (λ n. Linked k s (some u) n us) (sym a.0.1) (Linked-same h k s (some u) _ us a.1 l.3),
)

pub unlink-same :
    (h : UseStore) (u x : ℕ)
    → points (h.use_at u).prev u ≡ false
    → points (h.use_at u).prev x ≡ false
    → points (h.use_at u).next x ≡ false
    → SameUse h (unlink h u) x
unlink-same h u x d p n =
    let w = unlink-use_at h u x d in (w.0, w.1 ∙ if-no _ _ p, w.2 ∙ if-no _ _ n)

-- Behind `u`, the list begins at the successor of `u`, whose predecessor is now that of `u`.
unlink-after :
    (h : UseStore) (s u : ℕ) (post : List ℕ)
    → points (h.use_at u).prev u ≡ false
    → Linked h s (some u) (h.use_at u).next post
    → Distinct post
    → All (λ z. points (h.use_at u).prev z ≡ false) post
    → Linked (unlink h u) s (h.use_at u).prev (h.use_at u).next post
unlink-after h s u [] d l ds away = l
unlink-after h s u (v ∷ post) d l ds away =
    let w = unlink-use_at h u v d in
    let here : points (h.use_at u).next v ≡ true = rw l.0 (==_refl v) in
    let after : All (SameUse h (unlink h u)) post =
      All-both (λ x. x ≢ v) (λ x. points (h.use_at u).prev x ≡ false) _ post
        (λ x m q. unlink-same h u x d q (rw l.0 (points-apart v x m))) ds.0 away.1 in
    (
      l.0,
      w.2 ∙ if-yes _ _ here,
      w.0 ∙ l.2,
      subst (λ n. Linked (unlink h u) s (some v) n post) (sym (w.1 ∙ if-no _ _ away.0))
          (Linked-same h (unlink h u) s (some v) _ post after l.3),
    )

-- `u` taken out of the list, where it stood behind `pre`
abbrev pub skip : List ℕ → Option ℕ → Option ℕ → Option ℕ
skip [] current next = next
skip (x ∷ pre) current next = current

pub Distinct-after : (u : ℕ) (pre post : List ℕ) → Distinct (pre ++ u ∷ post) → Distinct (u ∷ post)
Distinct-after u [] post d = d
Distinct-after u (x ∷ pre) post d = Distinct-after u pre post d.1

unlink-step :
    (h : UseStore) (s u x : ℕ) (pre post : List ℕ)
    → Linked h s (some x) (h.use_at x).next (pre ++ u ∷ post)
    → Absent x (pre ++ u ∷ post)
    → (if points (h.use_at u).prev x then (h.use_at u).next else (h.use_at x).next)
      ≡ skip pre (h.use_at x).next (h.use_at u).next
unlink-step h s u x [] post l a =
    let here : points (h.use_at u).prev x ≡ true = rw l.1 (==_refl x) in if-yes _ _ here
unlink-step h s u x (y ∷ pre) post l a =
    let behind = Absent-append x pre (u ∷ post) a.1 in
    let away : y ≢ x = a.0 in
    if-no _ _
      (prev-Absent h s u x pre post (some y) _ l.3 behind.0 (points-apart y x (λ q. away (sym q))))

pub unlink-within :
    (h : UseStore) (s u : ℕ) (pre post : List ℕ) (b c : Option ℕ)
    → points (h.use_at u).prev u ≡ false
    → Linked h s b c (pre ++ u ∷ post)
    → Distinct (pre ++ u ∷ post)
    → All (λ z. points (h.use_at u).prev z ≡ false) post
    → Linked (unlink h u) s b (skip pre c (h.use_at u).next) (pre ++ post)
unlink-within h s u [] post b c d l ds away =
    subst (λ p. Linked (unlink h u) s p (h.use_at u).next post) l.1
      (unlink-after h s u post d l.3 ds.1 away)
unlink-within h s u (x ∷ pre) post b c d l ds away =
    let w = unlink-use_at h u x d in
    let behind = Absent-append x pre (u ∷ post) ds.0 in
    let beyond =
      next-Absent h s x post (some u) _ (Linked-tail h s u pre post (some x) _ l.3) behind.1.1 in
    (
      l.0,
      w.2 ∙ if-no _ _ beyond ∙ l.1,
      w.0 ∙ l.2,
      subst (λ n. Linked (unlink h u) s (some x) n (pre ++ post))
          (sym (w.1 ∙ unlink-step h s u x pre post l.3 ds.0))
          (unlink-within h s u pre post (some x) _ d l.3 ds.1 away),
    )

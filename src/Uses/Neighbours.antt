-- ===== src/Uses/Neighbours.antt =====
-- Unlinking a use takes it out of its list and changes no other.
use fcd.Base.{
  ℕ, ◌≡◌, ◌≢◌, refl, sym, ap, ◌∙◌, subst, Bool, true, false, ◌&&◌, Option, none, some, List, [],
  ◌∷◌, ◌++◌, ◌==◌, ==_iff, ==_refl, All, All-append,
}
use fcd.Uses.Linked.{UseStore, same_pointer, unlink, Linked, Absent, Distinct, IsUseList}
use fcd.Uses.Unlink.{
  points, points-apart, if-yes, if-no, All-both, SameUse, Linked-same, unlink-within, unlink-same,
  unlink-first_use, Linked-tail, prev-Absent, Absent-append, skip,
}

nothing_ahead : (post : List ℕ) → All (λ z. Absent z []) post
nothing_ahead [] = tt
nothing_ahead (z ∷ post) = (tt, nothing_ahead post)

-- each member of a distinct list is apart from the members ahead of it
pub ahead :
    (u : ℕ) (pre post : List ℕ)
    → Distinct (pre ++ u ∷ post)
    → Absent u pre × All (λ z. Absent z pre) post
ahead u [] post d = (tt, nothing_ahead post)
ahead u (x ∷ pre) post d =
    let rest = ahead u pre post d.1 in
    let apart = Absent-append x pre (u ∷ post) d.0 in
    (
      ((λ q. apart.1.0 (sym q)), rest.0),
      All-both (λ z. z ≢ x) (λ z. Absent z pre) _ post (λ z m a. ((λ q. m (sym q)), a)) apart.1.1
          rest.1,
    )

pub Distinct-without :
    (u : ℕ) (pre post : List ℕ) → Distinct (pre ++ u ∷ post) → Distinct (pre ++ post)
Distinct-without u [] post d = d.1
Distinct-without u (x ∷ pre) post d =
    let apart = Absent-append x pre (u ∷ post) d.0 in
    (All-append (λ v. v ≢ x) pre post apart.0 apart.1.1, Distinct-without u pre post d.1)

pub no_prev :
    (h : UseStore) (s u : ℕ) (pre post : List ℕ) (c : Option ℕ)
    → Linked h s none c (pre ++ u ∷ post)
    → Distinct (pre ++ u ∷ post)
    → points (h.use_at u).prev u ≡ false
no_prev h s u pre post c l d = prev-Absent h s u u pre post none c l (ahead u pre post d).0 refl

prev-some :
    (h : UseStore) (s u x : ℕ) (pre post : List ℕ) (c : Option ℕ)
    → Linked h s (some x) c (pre ++ u ∷ post)
    → same_pointer (h.use_at u).prev none ≡ false
prev-some h s u x [] post c l = rw l.1 refl
prev-some h s u x (y ∷ pre) post c l = prev-some h s u y pre post _ l.3

first-skip :
    (h : UseStore) (s u : ℕ) (pre post : List ℕ)
    → points (h.use_at u).prev u ≡ false
    → (h.use_at u).expression ≡ some s
    → Linked h s none (h.first_use s) (pre ++ u ∷ post)
    → (unlink h u).first_use s ≡ skip pre (h.first_use s) (h.use_at u).next
first-skip h s u [] post d e l =
    let here : (same_pointer (h.use_at u).prev none
          && same_pointer (h.use_at u).expression (some s))
        ≡ true =
      rw (l.1, e) (==_refl s) in
    unlink-first_use h u s d ∙ if-yes _ _ here
first-skip h s u (x ∷ pre) post d e l =
    let inside = prev-some h s u x pre post _ l.3 in
    let no : (same_pointer (h.use_at u).prev none && same_pointer (h.use_at u).expression (some s))
        ≡ false =
      rw inside refl in
    unlink-first_use h u s d ∙ if-no _ _ no

pub unlink-IsUseList :
    (h : UseStore) (s u : ℕ) (pre post : List ℕ)
    → (h.use_at u).expression ≡ some s
    → IsUseList h s (pre ++ u ∷ post)
    → IsUseList (unlink h u) s (pre ++ post)
unlink-IsUseList h s u pre post e (l, d) =
    let before = no_prev h s u pre post _ l d in
    let others : All (λ z. points (h.use_at u).prev z ≡ false) post =
      All-both (λ z. Absent z pre) (λ z. Absent z pre) _ post
        (λ z a b. prev-Absent h s u z pre post none _ l a refl) (ahead u pre post d).1
        (ahead u pre post d).1 in
    let within = unlink-within h s u pre post none (h.first_use s) before l d others in
    (
      subst (λ c. Linked (unlink h u) s none c (pre ++ post))
          (sym (first-skip h s u pre post before e l)) within,
      Distinct-without u pre post d,
    )

-- The uses next to `u` are uses of the same expression.
prev-expression :
    (h : UseStore) (s u x : ℕ) (pre post : List ℕ) (b c : Option ℕ)
    → Linked h s b c (pre ++ u ∷ post)
    → (points b x ≡ true → (h.use_at x).expression ≡ some s)
    → points (h.use_at u).prev x ≡ true
    → (h.use_at x).expression ≡ some s
prev-expression h s u x [] post b c l f q = f (subst (λ o. points o x ≡ true) l.1 q)
prev-expression h s u x (y ∷ pre) post b c l f q =
    prev-expression h s u x pre post (some y) _ l.3
      (λ r. let same : x ≡ y = (==_iff x y).0 r in ap (λ z. (h.use_at z).expression) same ∙ l.2) q

pub next-expression :
    (h : UseStore) (s x : ℕ) (post : List ℕ) (b c : Option ℕ)
    → Linked h s b c post
    → points c x ≡ true
    → (h.use_at x).expression ≡ some s
next-expression h s x [] b c l q = let no = subst (λ o. points o x ≡ true) l q in cc
next-expression h s x (y ∷ post) b c l q =
    let same : x ≡ y = (==_iff x y).0 (subst (λ o. points o x ≡ true) l.0 q) in
    ap (λ z. (h.use_at z).expression) same ∙ l.2

pub users :
    (h : UseStore) (e : ℕ) (b c : Option ℕ) (es : List ℕ)
    → Linked h e b c es
    → All (λ x. (h.use_at x).expression ≡ some e) es
users h e b c [] l = tt
users h e b c (x ∷ es) l = (l.2, users h e (some x) _ es l.3)

pub All-imply : (P Q : ℕ → Type 0) (us : List ℕ) → ((x : ℕ) → P x → Q x) → All P us → All Q us
All-imply P Q [] f p = tt
All-imply P Q (u ∷ us) f p = (f u p.0, All-imply P Q us f p.1)

and-false : (a b : Bool) → b ≡ false → (a && b) ≡ false
and-false true b h = h
and-false false b h = refl

pub some-inj : {a b : ℕ} → some a ≡ some b → a ≡ b
some-inj h = cc

pub not-true : (b : Bool) → (b ≡ true → ⊥) → b ≡ false
not-true true f = absurd (f refl)
not-true false f = refl

-- The lists of other expressions are as before.
pub unlink-others :
    (h : UseStore) (s u e : ℕ) (pre post es : List ℕ)
    → (h.use_at u).expression ≡ some s
    → IsUseList h s (pre ++ u ∷ post)
    → e ≢ s
    → IsUseList h e es
    → IsUseList (unlink h u) e es
unlink-others h s u e pre post es x (l, d) apart (m, ds) =
    let before = no_prev h s u pre post _ l d in
    let tail = Linked-tail h s u pre post none _ l in
    let distinct : (z : ℕ)
        → (h.use_at z).expression ≡ some e
        → (h.use_at z).expression ≡ some s
        → ⊥ =
      λ z p q. apart (some-inj (sym p ∙ q)) in
    let same : All (SameUse h (unlink h u)) es =
      All-imply _ _ es
        (λ z p.
          unlink-same h u z before
            (not-true _ (λ q. distinct z p (prev-expression h s u z pre post none _ l (λ r. cc) q)))
            (not-true _ (λ q. distinct z p (next-expression h s z post _ _ tail q))))
        (users h e _ _ es m) in
    let elsewhere : (same_pointer (h.use_at u).prev none
          && same_pointer (h.use_at u).expression (some e))
        ≡ false =
      rw x (and-false _ (s == e) (points-apart e s (λ q. apart (sym q)))) in
    (
      subst (λ c. Linked (unlink h u) e none c es)
          (sym (unlink-first_use h u e before ∙ if-no _ _ elsewhere))
          (Linked-same h (unlink h u) e none _ es same m),
      ds,
    )

-- ===== src/Uses/Moved.antt =====
-- What `setUse` and `replaceAllUsesWith` do to the lists of uses.
use fcd.Base.{
  ℕ, zero, suc, ◌≤◌, ◌≡◌, ◌≢◌, refl, sym, ap, ◌∙◌, subst, false, some, List, [], ◌∷◌, ◌++◌, length,
  ◌==◌, arith,
}
use fcd.Uses.Linked.{
  UseStore, unlink, link, set_use, replace_uses, replace_all_uses_with, Absent, IsUseList,
}
use fcd.Uses.Unlink.{points-apart, unlink-use_at, Distinct-after}
use fcd.Uses.Neighbours.{
  unlink-others, unlink-IsUseList, users, All-imply, some-inj, no_prev, ahead,
}
use fcd.Uses.SetUse.{link-IsUseList, link-others}

Absent-both : (u : ℕ) (us vs : List ℕ) → Absent u us → Absent u vs → Absent u (us ++ vs)
Absent-both u [] vs a b = b
Absent-both u (x ∷ us) vs a b = (a.0, Absent-both u us vs a.1 b)

elsewhere :
    (h : UseStore) (u s e : ℕ) (es : List ℕ)
    → (h.use_at u).expression ≡ some s
    → e ≢ s
    → IsUseList h e es
    → Absent u es
elsewhere h u s e es x apart (l, d) =
    All-imply _ _ es (λ z p q. apart (some-inj (sym p ∙ ap (λ y. (h.use_at y).expression) q ∙ x)))
      (users h e _ _ es l)

-- `setUse` on a use in the list of one expression, with another expression as its target, takes the
-- use out of that list, puts it at the front of the target's, and leaves the lists of all other
-- expressions as they are.
pub set_use-IsUseList :
    (h : UseStore) (s t u : ℕ) (pre post ts : List ℕ)
    → (h.use_at u).expression ≡ some s
    → t ≢ s
    → IsUseList h s (pre ++ u ∷ post)
    → IsUseList h t ts
    → IsUseList (set_use h u (some t)) s (pre ++ post)
      × IsUseList (set_use h u (some t)) t (u ∷ ts)
      × ((e : ℕ) (es : List ℕ)
          → e ≢ s
          → e ≢ t
          → IsUseList h e es
          → IsUseList (set_use h u (some t)) e es)
unfolding set_use
set_use-IsUseList h s t u pre post ts x apart ls lt =
    let away : (s == t) ≡ false = points-apart t s (λ q. apart (sym q)) in
    let kept : ((unlink h u).use_at u).expression ≡ some s =
      (unlink-use_at h u u (no_prev h s u pre post _ ls.0 ls.1)).0 ∙ x in
    let to = unlink-others h s u t pre post ts x ls apart lt in
    let from = unlink-IsUseList h s u pre post x ls in
    let out : Absent u (pre ++ post) =
      Absent-both u pre post (ahead u pre post ls.1).0 (Distinct-after u pre post ls.1).0 in
    let moved : set_use h u (some t) ≡ link (unlink h u) u (some t) = rw x (rw away refl) in
    subst
      (λ k.
        IsUseList k s (pre ++ post)
        × IsUseList k t (u ∷ ts)
        × ((e : ℕ) (es : List ℕ) → e ≢ s → e ≢ t → IsUseList h e es → IsUseList k e es))
      (sym moved)
      (
        link-others (unlink h u) u t s ts (pre ++ post) to (λ q. apart (sym q)) out from,
        link-IsUseList (unlink h u) u t ts to (elsewhere (unlink h u) u s t ts kept apart to),
        λ e es a b le.
            let other = unlink-others h s u e pre post es x ls a le in
            link-others (unlink h u) u t e ts es to b (elsewhere (unlink h u) u s e es kept a other)
              other,
      )

abbrev pub onto : List ℕ → List ℕ → List ℕ
onto [] ts = ts
onto (u ∷ us) ts = onto us (u ∷ ts)

replace_uses-IsUseList :
    (rounds : ℕ) (h : UseStore) (s t : ℕ) (us ts : List ℕ)
    → length us ≤ rounds
    → t ≢ s
    → IsUseList h s us
    → IsUseList h t ts
    → IsUseList (replace_uses rounds h s t) s []
      × IsUseList (replace_uses rounds h s t) t (onto us ts)
unfolding replace_uses
replace_uses-IsUseList zero h s t [] ts m apart ls lt = (ls, lt)
replace_uses-IsUseList zero h s t (u ∷ us) ts m apart ls lt = absurd (omega arith)
replace_uses-IsUseList (suc r) h s t [] ts m apart ls lt =
    let step : replace_uses (suc r) h s t ≡ h = rw (ls.0, replace_uses) refl in
    subst (λ k. IsUseList k s [] × IsUseList k t ts) (sym step) (ls, lt)
replace_uses-IsUseList (suc r) h s t (u ∷ us) ts m apart ls lt =
    let next = set_use-IsUseList h s t u [] us ts ls.0.2 apart ls lt in
    let step : replace_uses (suc r) h s t ≡ replace_uses r (set_use h u (some t)) s t =
      rw (ls.0.0, replace_uses) refl in
    subst (λ k. IsUseList k s [] × IsUseList k t (onto us (u ∷ ts))) (sym step)
      (replace_uses-IsUseList r (set_use h u (some t)) s t us (u ∷ ts) (omega arith) apart next.0
        next.1)

-- `replaceAllUsesWith` another expression ends within as many rounds as there are uses: no use is
-- left, and the other expression has them all, the last one first, ahead of its own.
pub replace_all_uses_with-IsUseList :
    (h : UseStore) (s t : ℕ) (us ts : List ℕ)
    → t ≢ s
    → IsUseList h s us
    → IsUseList h t ts
    → IsUseList (replace_all_uses_with (length us) h s t) s []
      × IsUseList (replace_all_uses_with (length us) h s t) t (onto us ts)
unfolding replace_all_uses_with
replace_all_uses_with-IsUseList h s t us ts apart ls lt =
    let away : (s == t) ≡ false = points-apart t s (λ q. apart (sym q)) in
    rw away (replace_uses-IsUseList (length us) h s t us ts (omega arith) apart ls lt)

-- ===== src/Print/Ancestors.antt =====
-- How many scopes around the uses of a variable are the same.
use fcd.Base.{
  ℕ, zero, suc, ◌≤◌, ◌≡◌, refl, inl, inr, Bool-cases, Option, none, some, List, [], ◌∷◌, length,
  All, arith, ◌==◌,
}
use fcd.Print.Declarations.{User, mismatch, min, common_ancestors}

-- The first `n` of both lists are there and the same.
abbrev pub Agree : ℕ → List ℕ → List ℕ → Type 0
Agree zero ps qs = Unit
Agree (suc n) [] qs = ⊥
Agree (suc n) (p ∷ ps) [] = ⊥
Agree (suc n) (p ∷ ps) (q ∷ qs) = (p ≡ q) × Agree n ps qs

pub Agree-refl : (ps : List ℕ) → Agree (length ps) ps ps
Agree-refl [] = tt
Agree-refl (p ∷ ps) = (refl, Agree-refl ps)

pub Agree-le : (m n : ℕ) (ps qs : List ℕ) → m ≤ n → Agree n ps qs → Agree m ps qs
Agree-le zero n ps qs h a = tt
Agree-le (suc m) zero ps qs h a = absurd (omega arith)
Agree-le (suc m) (suc n) [] qs h a = a
Agree-le (suc m) (suc n) (p ∷ ps) [] h a = a
Agree-le (suc m) (suc n) (p ∷ ps) (q ∷ qs) h a = (a.0, Agree-le m n ps qs (omega arith) a.1)

mismatch-le : (n : ℕ) (ps qs : List ℕ) → mismatch n ps qs ≤ n
unfolding mismatch
mismatch-le zero ps qs = omega arith
mismatch-le (suc n) [] qs = omega arith
mismatch-le (suc n) (p ∷ ps) [] = omega arith
mismatch-le (suc n) (p ∷ ps) (q ∷ qs) = let ih = mismatch-le n ps qs in ground arith

Agree-mismatch : (n : ℕ) (ps qs : List ℕ) → Agree (mismatch n ps qs) ps qs
unfolding mismatch
Agree-mismatch zero ps qs = tt
Agree-mismatch (suc n) [] qs = tt
Agree-mismatch (suc n) (p ∷ ps) [] = tt
Agree-mismatch (suc n) (p ∷ ps) (q ∷ qs) = elim (Bool-cases (p == q)) [
  | inl e ↦ rw e (ground arith, Agree-mismatch n ps qs)
  | inr e ↦ rw e tt
]

mismatch-greatest : (m n : ℕ) (ps qs : List ℕ) → m ≤ n → Agree m ps qs → m ≤ mismatch n ps qs
unfolding mismatch
mismatch-greatest zero n ps qs h a = omega arith
mismatch-greatest (suc m) zero ps qs h a = absurd (omega arith)
mismatch-greatest (suc m) (suc n) [] qs h a = elim a [ ]
mismatch-greatest (suc m) (suc n) (p ∷ ps) [] h a = elim a [ ]
mismatch-greatest (suc m) (suc n) (p ∷ ps) (q ∷ qs) h a =
    let ih = mismatch-greatest m n ps qs (omega arith) a.1 in let same = a.0 in ground arith

-- `P` holds of all users but the one of that number.
abbrev pub Others : (User → Type 0) → Option ℕ → List User → Type 0
Others P skipped [] = Unit
Others P (some zero) (u ∷ us) = Others P none us
Others P (some (suc i)) (u ∷ us) = P u × Others P (some i) us
Others P none (u ∷ us) = P u × Others P none us

module _ (ps : List ℕ) where
  abbrev pub Shares : ℕ → User → Type 0
  Shares n u = Agree n ps u.parents

  pub common-le :
      (n : ℕ) (skipped : Option ℕ) (us : List User) → common_ancestors ps n skipped us ≤ n
  unfolding common_ancestors
  common-le n skipped [] = omega arith
  common-le n (some zero) (u ∷ us) = common-le n none us
  common-le n (some (suc i)) (u ∷ us) =
      let ih = common-le (min n (mismatch n ps u.parents)) (some i) us in
      let below = mismatch-le n ps u.parents in ground arith
  common-le n none (u ∷ us) =
      let ih = common-le (min n (mismatch n ps u.parents)) none us in
      let below = mismatch-le n ps u.parents in ground arith

  shared : (n r : ℕ) (u : User) → r ≤ min n (mismatch n ps u.parents) → Agree r ps u.parents
  shared n r u h =
      Agree-le r (mismatch n ps u.parents) ps u.parents (ground arith)
        (Agree-mismatch n ps u.parents)

  pub common-Shares :
      (n : ℕ) (skipped : Option ℕ) (us : List User)
      → Others (Shares (common_ancestors ps n skipped us)) skipped us
  unfolding common_ancestors
  common-Shares n skipped [] = tt
  common-Shares n (some zero) (u ∷ us) = common-Shares n none us
  common-Shares n (some (suc i)) (u ∷ us) = (
    shared n _ u (common-le (min n (mismatch n ps u.parents)) (some i) us),
    common-Shares (min n (mismatch n ps u.parents)) (some i) us,
  )
  common-Shares n none (u ∷ us) = (
    shared n _ u (common-le (min n (mismatch n ps u.parents)) none us),
    common-Shares (min n (mismatch n ps u.parents)) none us,
  )

  both_below : (k n : ℕ) (u : User) → k ≤ n → Shares k u → k ≤ min n (mismatch n ps u.parents)
  both_below k n u h a = let below = mismatch-greatest k n ps u.parents h a in ground arith

  pub common-greatest :
      (skipped : Option ℕ) (us : List User) (k n : ℕ)
      → k ≤ n
      → All (Shares k) us
      → k ≤ common_ancestors ps n skipped us
  unfolding common_ancestors
  common-greatest skipped [] k n h a = h
  common-greatest (some zero) (u ∷ us) k n h a = common-greatest none us k n h a.1
  common-greatest (some (suc i)) (u ∷ us) k n h a =
      common-greatest (some i) us k _ (both_below k n u h a.0) a.1
  common-greatest none (u ∷ us) k n h a = common-greatest none us k _ (both_below k n u h a.0) a.1

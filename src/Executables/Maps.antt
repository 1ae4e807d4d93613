-- ===== src/Executables/Maps.antt =====
-- Maps of the standard library as lists of keys and values: `find`, `[]` and `erase`.
use fcd.Base.{ℕ, ◌≡◌, refl, List, [], ◌∷◌, Option, none, some, ◌==◌, if◌then◌else◌, arith}

module _ {A : Type 0} where
  abbrev pub find : ℕ → List (ℕ × A) → Option A
  find k [] = none
  find k ((l, a) ∷ m) = if l == k then some a else find k m

  -- What a reference `m[k]` is after a change: a missing entry is first made from `new`.
  unfoldable pub update : ℕ → (new : A) → (A → A) → List (ℕ × A) → List (ℕ × A)
  update k new f [] = (k, f new) ∷ []
  update k new f ((l, a) ∷ m) =
      let rest = update k new f m in if l == k then (l, f a) ∷ m else (l, a) ∷ rest

  unfoldable pub erase : ℕ → List (ℕ × A) → List (ℕ × A)
  erase k [] = []
  erase k ((l, a) ∷ m) = let rest = erase k m in if l == k then rest else (l, a) ∷ rest

  abbrev pub or_new : A → Option A → A
  or_new new none = new
  or_new new (some a) = a

  pub find-update :
      (k : ℕ) (new : A) (f : A → A) (m : List (ℕ × A)) (j : ℕ)
      → find j (update k new f m) ≡ (if k == j then some (f (or_new new (find k m))) else find j m)
  unfolding update
  find-update k new f [] j = refl
  find-update k new f ((l, a) ∷ m) j = let rest = find-update k new f m j in ground arith

  pub find-erase :
      (k : ℕ) (m : List (ℕ × A)) (j : ℕ) → find j (erase k m) ≡ (if k == j then none else find j m)
  unfolding erase
  find-erase k [] j = ground arith
  find-erase k ((l, a) ∷ m) j = let rest = find-erase k m j in ground arith

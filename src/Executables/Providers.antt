-- ===== src/Executables/Providers.antt =====
-- fcd/symbols/entry_points.h and entry_points.cpp: the repository of entry points. A provider's
-- `getInfo` may fill a cache, so it gives back its state.
use fcd.Base.{
  ℕ, ◌≡◌, Bool, true, false, List, [], ◌∷◌, ◌++◌, Option, none, some, ◌==◌, if◌then◌else◌,
}
use fcd.Executables.Symbols.{SymbolInfo}

-- What a client of a provider relies on: an answer stays the same whatever else was asked before.
pub record EntryPointProvider : Type 1 where
  pub State : Type 0
  pub visible : State → List ℕ
  pub info : ℕ → State → Option SymbolInfo × State
  pub info_stable : (a b : ℕ) (s : State) → (info b (info a s).1).0 ≡ (info b s).0

module _ {A : Type 0} where
  -- the providers in the order in which they were added
  unfoldable pub add_provider : A → List A → List A
  add_provider p ps = ps ++ p ∷ []

  unfoldable pub repository_info :
      (ℕ → A → Option SymbolInfo × A) → ℕ → List A → Option SymbolInfo × List A
  repository_info info a [] = (none, [])
  repository_info info a (p ∷ ps) =
      let (later, ps') = repository_info info a ps in
      elim later [
        | some i ↦ (some i, p ∷ ps')
        | none ↦ let (here, p') = info a p in (here, p' ∷ ps')
      ]

abbrev pub contains : ℕ → List ℕ → Bool
contains a [] = false
contains a (b ∷ bs) = if b == a then true else contains a bs

abbrev pub insert_all : List ℕ → List ℕ → List ℕ
insert_all [] set = set
insert_all (a ∷ rest) set = insert_all rest (if contains a set then set else a ∷ set)

-- The set is listed in some order of its own.
unfoldable pub repository_visible : {A : Type 0} → (A → List ℕ) → List A → List ℕ → List ℕ
repository_visible visible [] set = set
repository_visible visible (p ∷ ps) set = repository_visible visible ps (insert_all (visible p) set)

-- ===== src/Executables/EntryPoints.antt =====
-- The entry points that an executable and a repository show, and what a repository answers.
use mathlib.Core.List.{Perm}
use mathlib.Core.List.Perm
use fcd.Base.{
  ℕ, ◌≡◌, ◌≤◌, refl, ap, sym, subst, ◌∙◌, Bool, true, false, ◌||◌, List, [], ◌∷◌, Option, none,
  some, leb, ◌==◌, if◌then◌else◌, arith, Bool-cases, Option-cases, inl, inr, All, All-map,
}
use fcd.Executables.Symbols.{
  SymbolInfo, Executable, insert_sorted, sort, addresses_of, get_visible_entry_points, get_info,
}
use fcd.Executables.Caches.{get_info-stable}
use fcd.Executables.Providers.{
  EntryPointProvider, repository_info, repository_visible, contains, insert_all,
}

abbrev pub IsSorted : List ℕ → Type 0
IsSorted [] = Unit
IsSorted (a ∷ rest) = All (λ b. a ≤ b) rest × IsSorted rest

insert-All : (P : ℕ → Type 0) (a : ℕ) (bs : List ℕ) → P a → All P bs → All P (insert_sorted a bs)
insert-All P a [] p h = (p, tt)
insert-All P a (b ∷ bs) p h =
    let rest = insert-All P a bs p h.1 in
    elim (Bool-cases (leb a b)) [ inl q ↦ rw q (p, h) | inr q ↦ rw q (h.0, rest) ]

insert-IsSorted : (a : ℕ) (bs : List ℕ) → IsSorted bs → IsSorted (insert_sorted a bs)
insert-IsSorted a [] h = (tt, tt)
insert-IsSorted a (b ∷ bs) h =
    let rest = insert-IsSorted a bs h.1 in
    elim (Bool-cases (leb a b)) [
      | inl q ↦
          let le : a ≤ b = ground arith in
          rw q ((le, All-map (λ c. b ≤ c) (λ c. a ≤ c) bs (λ c below. omega arith) h.0), h)
      | inr q ↦ let le : b ≤ a = ground arith in rw q (insert-All (λ c. b ≤ c) a bs le h.0, rest)
    ]

insert-Perm : (a : ℕ) (bs : List ℕ) → Perm (insert_sorted a bs) (a ∷ bs)
insert-Perm a [] = Perm.refl (a ∷ [])
insert-Perm a (b ∷ bs) =
    let rest = insert-Perm a bs in
    elim (Bool-cases (leb a b)) [
      | inl q ↦ rw q (Perm.refl (a ∷ b ∷ bs))
      | inr q ↦ rw q (Perm.trans (Perm.cons b rest) (Perm.swap a b bs))
    ]

sort-Perm : (entries : List ℕ) → Perm (sort entries) entries
sort-Perm [] = Perm.nil
sort-Perm (a ∷ rest) = Perm.trans (insert-Perm a (sort rest)) (Perm.cons a (sort-Perm rest))

sort-IsSorted : (entries : List ℕ) → IsSorted (sort entries)
sort-IsSorted [] = tt
sort-IsSorted (a ∷ rest) = insert-IsSorted a (sort rest) (sort-IsSorted rest)

-- The visible entry points of an executable are the virtual addresses of its symbols, each as often
-- as symbols have it, in increasing order.
pub get_visible_entry_points-IsSorted :
    (e : Executable)
    → IsSorted (get_visible_entry_points e)
      × Perm (get_visible_entry_points e) (addresses_of e.symbols)
unfolding get_visible_entry_points
get_visible_entry_points-IsSorted e =
    (sort-IsSorted (addresses_of e.symbols), sort-Perm (addresses_of e.symbols))

abbrev pub or_else : {A : Type 0} → Option A → Option A → Option A
or_else none o = o
or_else (some a) o = some a

-- an executable as a provider
abbrev pub executable_provider : (map : ℕ → ℕ) → EntryPointProvider
executable_provider map = record {
  State = Executable;
  visible = get_visible_entry_points;
  info = get_info map;
  info_stable = λ a b e. (get_info-stable map a b e).1 ∙ sym (get_info-stable map a b e).0;
}

-- the last answer that is not null
abbrev pub last_answer : {A : Type 0} → (A → Option SymbolInfo) → List A → Option SymbolInfo
last_answer f [] = none
last_answer f (p ∷ ps) = or_else (last_answer f ps) (f p)

module _ (provider : EntryPointProvider) where
  abbrev pub answer : ℕ → provider.State → Option SymbolInfo
  answer a p = (provider.info a p).0

  repository_info-last_answer :
      (a : ℕ) (ps : List provider.State)
      → (repository_info provider.info a ps).0 ≡ last_answer (answer a) ps
  unfolding repository_info
  repository_info-last_answer a [] = refl
  repository_info-last_answer a (p ∷ ps) =
      let rest = repository_info-last_answer a ps in
      elim (Option-cases (repository_info provider.info a ps).0) [
        | inl q ↦
            let gone : last_answer (answer a) ps ≡ none = sym rest ∙ q in
            rw (q, gone, repository_info) refl
        | inr (i, q) ↦
            let there : last_answer (answer a) ps ≡ some i = sym rest ∙ q in
            rw (q, there, repository_info) refl
      ]

  last_answer-repository_info :
      (a b : ℕ) (ps : List provider.State)
      → last_answer (answer b) (repository_info provider.info a ps).1 ≡ last_answer (answer b) ps
  unfolding repository_info
  last_answer-repository_info a b [] = refl
  last_answer-repository_info a b (p ∷ ps) =
      let rest = last_answer-repository_info a b ps in
      let same : (provider.info b (provider.info a p).1).0 ≡ (provider.info b p).0 =
        provider.info_stable a b p in
      elim (Option-cases (repository_info provider.info a ps).0) [
        | inl q ↦
            rw (q, last_answer, repository_info)
              (ap (λ o. or_else o (provider.info b (provider.info a p).1).0) rest
                ∙ ap (λ o. or_else (last_answer (answer b) ps) o) same)
        | inr (i, q) ↦ rw (q, last_answer, repository_info) (ap (λ o. or_else o (answer b p)) rest)
      ]

  -- `EntryPointRepository::getInfo` gives the answer of the last added provider that has one, and
  -- null if there is none, whatever was asked before; so a repository is a provider in turn.
  pub repository_info-stable :
      (a b : ℕ) (ps : List provider.State)
      → ((repository_info provider.info b ps).0 ≡ last_answer (answer b) ps)
        × ((repository_info provider.info b (repository_info provider.info a ps).1).0
            ≡ last_answer (answer b) ps)
  repository_info-stable a b ps = (
    repository_info-last_answer b ps,
    repository_info-last_answer b (repository_info provider.info a ps).1
        ∙ last_answer-repository_info a b ps,
  )

abbrev pub some_shows : {A : Type 0} → (A → List ℕ) → ℕ → List A → Bool
some_shows visible a [] = false
some_shows visible a (p ∷ ps) = contains a (visible p) || some_shows visible a ps

contains-insert :
    (a b : ℕ) (set : List ℕ)
    → contains a (if contains b set then set else b ∷ set) ≡ (b == a) || contains a set
contains-insert a b set = elim (Bool-cases (contains b set)) [
  | inr q ↦ rw q (ground arith)
  | inl q ↦ rw q (elim (Bool-cases (b == a)) [
    | inl y ↦
        let same : b ≡ a = ground arith in
        let there : contains a set ≡ true = subst (λ x. contains x set ≡ true) same q in
        rw (y, there) refl
    | inr n ↦ rw n refl
  ])
]

contains-insert_all :
    (a : ℕ) (bs set : List ℕ) → contains a (insert_all bs set) ≡ contains a bs || contains a set
contains-insert_all a [] set = refl
contains-insert_all a (b ∷ bs) set =
    let rest = contains-insert_all a bs (if contains b set then set else b ∷ set) in
    let first = contains-insert a b set in rest ∙ ap (λ x. contains a bs || x) first ∙ ground arith

abbrev pub IsDistinct : List ℕ → Type 0
IsDistinct [] = Unit
IsDistinct (a ∷ rest) = (contains a rest ≡ false) × IsDistinct rest

insert_all-IsDistinct : (bs set : List ℕ) → IsDistinct set → IsDistinct (insert_all bs set)
insert_all-IsDistinct [] set h = h
insert_all-IsDistinct (b ∷ bs) set h = elim (Bool-cases (contains b set)) [
  | inl q ↦ rw q (insert_all-IsDistinct bs set h)
  | inr q ↦ rw q (insert_all-IsDistinct bs (b ∷ set) (q, h))
]

visible-IsDistinct :
    {A : Type 0} (visible : A → List ℕ) (ps : List A) (set : List ℕ)
    → IsDistinct set
    → IsDistinct (repository_visible visible ps set)
unfolding repository_visible
visible-IsDistinct visible [] set h = h
visible-IsDistinct visible (p ∷ ps) set h =
    visible-IsDistinct visible ps (insert_all (visible p) set)
      (insert_all-IsDistinct (visible p) set h)

contains-visible :
    {A : Type 0} (visible : A → List ℕ) (a : ℕ) (ps : List A) (set : List ℕ)
    → contains a (repository_visible visible ps set) ≡ some_shows visible a ps || contains a set
unfolding repository_visible
contains-visible visible a [] set = refl
contains-visible visible a (p ∷ ps) set =
    let rest = contains-visible visible a ps (insert_all (visible p) set) in
    let here = contains-insert_all a (visible p) set in
    rest ∙ ap (λ x. some_shows visible a ps || x) here ∙ ground arith

-- A repository lists an address just if some provider shows it, and no address twice
-- (`EntryPointRepository::getVisibleEntryPoints`).
pub repository_visible-IsDistinct :
    {A : Type 0} (visible : A → List ℕ) (ps : List A)
    → IsDistinct (repository_visible visible ps [])
      × ((a : ℕ) → contains a (repository_visible visible ps []) ≡ some_shows visible a ps)
repository_visible-IsDistinct visible ps =
    (visible-IsDistinct visible ps [] tt, λ a. contains-visible visible a ps [] ∙ ground arith)

-- ===== src/Executables/Unmapped.antt =====
-- After `ElfExecutable::parse`, the visible entry points are those of its symbols that are mapped.
use fcd.Base.{
  ℕ, ◌≡◌, ◌≢◌, refl, subst, sym, ap, ◌∙◌, Bool, true, false, ◌||◌, ◌&&◌, inl, inr, List, [], ◌∷◌,
  Option, none, some, ◌==◌, if◌then◌else◌, arith, Bool-cases,
}
use fcd.Executables.Maps.{find, erase, find-erase}
use fcd.Executables.Symbols.{
  SymbolInfo, addresses_of, sort, insert_sorted, get_visible_entry_points,
}
use fcd.Executables.Providers.{contains}
use fcd.Executables.Memory.{ok, Image}
use fcd.Executables.Layout.{ElfTypes}
use fcd.Executables.Elf.{ElfExecutable, map_address}
use fcd.Executables.Tables.{erase_unmapped}
use fcd.Executables.Factory.{base_of, has_header, parse_file, parse}
use fcd.Executables.Gives.{Gives, gives, at_failed, if-both, Gives-ok, Gives-bind}
use fcd.Executables.Parsed.{IsKeyed, walk_header-IsKeyed}
use fcd.Executables.Mapped.{ElfIsKeyed, parse_tables-IsKeyed}

abbrev pub is_some : {A : Type 0} → Option A → Bool
is_some none = false
is_some (some _) = true

contains-insert_sorted :
    (a b : ℕ) (bs : List ℕ) → contains a (insert_sorted b bs) ≡ (b == a) || contains a bs
contains-insert_sorted a b [] = ground arith
contains-insert_sorted a b (d ∷ bs) = let rest = contains-insert_sorted a b bs in ground arith

contains-sort : (a : ℕ) (bs : List ℕ) → contains a (sort bs) ≡ contains a bs
contains-sort a [] = refl
contains-sort a (b ∷ bs) =
    contains-insert_sorted a b (sort bs)
    ∙ ap (λ x. (b == a) || x) (contains-sort a bs)
    ∙ ground arith

contains-addresses_of :
    (a : ℕ) (m : List (ℕ × SymbolInfo))
    → IsKeyed m
    → contains a (addresses_of m) ≡ is_some (find a m)
contains-addresses_of a [] h = refl
contains-addresses_of a ((b, s) ∷ m) h =
    let rest = contains-addresses_of a m h.1 in rw h.0 (ground arith)

erase-IsKeyed : (a : ℕ) (m : List (ℕ × SymbolInfo)) → IsKeyed m → IsKeyed (erase a m)
unfolding erase
erase-IsKeyed a [] h = tt
erase-IsKeyed a ((b, s) ∷ m) h =
    let rest = erase-IsKeyed a m h.1 in
    elim (Bool-cases (b == a)) [ inl q ↦ rw q rest | inr q ↦ rw q (h.0, rest) ]

-- the symbols that are left, and the segments, which stay
abbrev Leaves : List ℕ → ElfExecutable → ElfExecutable → Type 0
Leaves erased e d =
    (d.segments ≡ e.segments)
    × IsKeyed d.symbols
    × ((a : ℕ)
        → find a d.symbols
          ≡ (if contains a erased && map_address e.segments a == 0 then none else find a e.symbols))

erased_here :
    {A : Type 0} (a b : ℕ) (m : ℕ → Bool) (c : Bool) (x : Option A)
    → m b ≡ true
    → (if c && m a then none else (if b == a then none else x))
      ≡ (if (if b == a then true else c) && m a then none else x)
erased_here a b m c x h = elim (Bool-cases (b == a)) [
  | inl y ↦
      let same : b ≡ a = ground arith in
      let mapped : m a ≡ true = subst (λ k. m k ≡ true) same h in rw (y, mapped) (ground arith)
  | inr n ↦ rw n refl
]

kept_here :
    {A : Type 0} (a b : ℕ) (m : ℕ → Bool) (c : Bool) (x : Option A)
    → m b ≡ false
    → (if c && m a then none else x) ≡ (if (if b == a then true else c) && m a then none else x)
kept_here a b m c x h = elim (Bool-cases (b == a)) [
  | inl y ↦
      let same : b ≡ a = ground arith in
      let mapped : m a ≡ false = subst (λ k. m k ≡ false) same h in rw (y, mapped) (ground arith)
  | inr n ↦ rw n refl
]

erase_unmapped-Leaves :
    (bs : List ℕ) (e : ElfExecutable) → ElfIsKeyed e → Leaves bs e (erase_unmapped bs e)
unfolding erase_unmapped
erase_unmapped-Leaves [] e h = (refl, h, λ a. refl)
erase_unmapped-Leaves (b ∷ bs) e h = elim (Bool-cases (map_address e.segments b == 0)) [
  | inl q ↦
      let d : ElfExecutable = record e { symbols = erase b e.symbols } in
      let (segments, keyed, left) = erase_unmapped-Leaves bs d (erase-IsKeyed b e.symbols h) in
      rw (q, erase_unmapped)
        (
          segments,
          keyed,
          λ a.
              left a
              ∙ ap (λ o. if contains a bs && map_address e.segments a == 0 then none else o)
                  (find-erase b e.symbols a)
              ∙ erased_here a b (λ k. map_address e.segments k == 0) (contains a bs)
                  (find a e.symbols) q,
        )
  | inr q ↦
      let (segments, keyed, left) = erase_unmapped-Leaves bs e h in
      rw (q, erase_unmapped)
        (
          segments,
          keyed,
          λ a.
              left a
              ∙ kept_here a b (λ k. map_address e.segments k == 0) (contains a bs)
                  (find a e.symbols) q,
        )
]

erased_gone :
    (o p : Option SymbolInfo) (c b : Bool)
    → c ≡ is_some o
    → p ≡ (if c && b then none else o)
    → b ≡ true
    → is_some p ≡ false
erased_gone none p c b h q y = ground arith
erased_gone (some s) p c b h q y = ground arith

abbrev pub shown : ElfExecutable → List ℕ
shown e = get_visible_entry_points (base_of e)

contains-shown :
    (a : ℕ) (e : ElfExecutable)
    → IsKeyed e.symbols
    → contains a (shown e) ≡ is_some (find a e.symbols)
unfolding get_visible_entry_points
contains-shown a e h =
    contains-sort a (addresses_of e.symbols) ∙ contains-addresses_of a e.symbols h

abbrev pub HasMappedSymbols : ElfExecutable → Type 0
HasMappedSymbols e =
    IsKeyed e.symbols × ((a : ℕ) → contains a (shown e) ≡ true → map_address e.segments a ≢ 0)

erased-HasMappedSymbols :
    (e : ElfExecutable) → ElfIsKeyed e → HasMappedSymbols (erase_unmapped (shown e) e)
erased-HasMappedSymbols e h =
    let d = erase_unmapped (shown e) e in
    let (segments, keyed, left) = erase_unmapped-Leaves (shown e) e h in
    (
      keyed,
      λ a there zero.
          let unmapped : map_address e.segments a == 0 ≡ true =
            ap (λ s. map_address s a == 0) (sym segments) ∙ ap (λ p. p == 0) zero in
          let before = contains-shown a e h in
          let after = contains-shown a d keyed in
          let gone =
            erased_gone (find a e.symbols) (find a d.symbols) (contains a (shown e))
              (map_address e.segments a == 0) before (left a) unmapped in
          ground arith,
    )

-- When `ElfExecutable::parse` gives an executable, each of its symbols stands under its virtual
-- address, and each address among its visible entry points is mapped to a pointer that is not null.
pub parse-HasMappedSymbols :
    (show : ℕ → List ℕ) (rounds : ℕ) (c : ElfTypes) (i : Image) (e : ElfExecutable)
    → parse show rounds c i ≡ ok e
    → HasMappedSymbols e
unfolding parse parse_file
parse-HasMappedSymbols show rounds c i e q =
    Gives-ok {P = HasMappedSymbols}
      (if-both (Gives HasMappedSymbols) (has_header c i)
        (Gives-bind (walk_header-IsKeyed c i) (λ w h.
          Gives-bind (parse_tables-IsKeyed show rounds c i w h)
            (λ d g. gives (erase_unmapped (shown d) d) (erased-HasMappedSymbols d g))))
        at_failed)
      q

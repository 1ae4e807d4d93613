-- ===== src/Executables/Symbols.antt =====
-- fcd/executables/executable.h and executable.cpp: the symbols and stubs that every executable
-- keeps. `map`, `do_get_stub_target` and `do_get_target_triple` are the virtual functions of the
-- format; a null pointer is 0.
use Prim.Native.Char.{code}
use Prim.Native.String.{String}
use fcd.Base.{
  ℕ, Bool, true, false, ◌&&◌, List, [], ◌∷◌, Option, none, some, leb, ◌==◌, if◌then◌else◌, map,
}
use fcd.Executables.Maps.{find, update}

pub record SymbolInfo : Type 0 where
  pub name : List ℕ
  pub virtual_address : ℕ

pub record StubInfo : Type 0 where
  pub shared_object : Option (List ℕ)
  pub name : List ℕ

pub data StubTargetQueryResult : Type 0 where
  unresolved : StubTargetQueryResult
  resolved_in_flat_namespace : (name : List ℕ) → StubTargetQueryResult
  resolved_in_two_level_namespace : (library name : List ℕ) → StubTargetQueryResult

pub record Executable : Type 0 where
  pub symbols : List (ℕ × SymbolInfo)
  pub stub_targets : List (ℕ × StubInfo)
  pub libraries : List (List ℕ)

-- A missing symbol is made by value initialization.
abbrev pub new_symbol : SymbolInfo
new_symbol = record { name = []; virtual_address = 0 }

abbrev pub at_address : ℕ → SymbolInfo → SymbolInfo
at_address address s = record s { virtual_address = address }

abbrev pub insert_sorted : ℕ → List ℕ → List ℕ
insert_sorted a [] = a ∷ []
insert_sorted a (b ∷ bs) = let rest = insert_sorted a bs in if leb a b then a ∷ b ∷ bs else b ∷ rest

abbrev pub sort : List ℕ → List ℕ
sort [] = []
sort (a ∷ rest) = insert_sorted a (sort rest)

abbrev pub addresses_of : List (ℕ × SymbolInfo) → List ℕ
addresses_of [] = []
addresses_of ((a, s) ∷ m) = s.virtual_address ∷ addresses_of m

unfoldable pub get_visible_entry_points : Executable → List ℕ
get_visible_entry_points e = sort (addresses_of e.symbols)

unfoldable pub get_info : (map : ℕ → ℕ) → ℕ → Executable → Option SymbolInfo × Executable
get_info map address e = elim (find address e.symbols) [
  | some s ↦ (some s, e)
  | none ↦ if map address == 0 then (none, e) else (
    some (at_address address new_symbol),
    record e { symbols = update address new_symbol (at_address address) e.symbols },
  )
]

abbrev pub same_bytes : List ℕ → List ℕ → Bool
same_bytes [] [] = true
same_bytes (a ∷ rest) (b ∷ bs) = a == b && same_bytes rest bs
same_bytes _ _ = false

-- `libraries.insert`
abbrev pub insert_library : List ℕ → List (List ℕ) → List (List ℕ)
insert_library n [] = n ∷ []
insert_library n (l ∷ ls) =
    let rest = insert_library n ls in if same_bytes n l then l ∷ ls else l ∷ rest

abbrev pub new_stub : StubInfo
new_stub = record { shared_object = none; name = [] }

abbrev pub stub_of : StubTargetQueryResult → Option StubInfo
stub_of unresolved = none
stub_of (resolved_in_flat_namespace n) = some (record { shared_object = none; name = n })
stub_of (resolved_in_two_level_namespace l n) = some (record { shared_object = some l; name = n })

unfoldable pub get_stub_target :
    (do_get_stub_target : ℕ → StubTargetQueryResult) → ℕ → Executable → Option StubInfo × Executable
get_stub_target do_get_stub_target address e = elim (find address e.stub_targets) [
  | some s ↦ (some s, e)
  | none ↦ elim (do_get_stub_target address) [
    | resolved_in_flat_namespace n ↦
        let stub : StubInfo = record { shared_object = none; name = n } in
        (some stub, record e { stub_targets = update address new_stub (λ s. stub) e.stub_targets })
    | resolved_in_two_level_namespace l n ↦
        let stub : StubInfo = record { shared_object = some l; name = n } in
        (
          some stub,
          record e {
            libraries = insert_library l e.libraries;
            stub_targets = update address new_stub (λ s. stub) e.stub_targets;
          },
        )
    | unresolved ↦ (none, e)
  ]
]

abbrev pub find_dash : String → Option String
find_dash String.[] = none
find_dash (String.◌∷◌ c s) = if code c == b'-' then some s else find_dash s

-- `none` is the failed assertion.
unfoldable pub get_target_triple : (do_get_target_triple : String) → Option String
get_target_triple triple = elim (find_dash triple) [
  | none ↦ none
  | some rest ↦ elim (find_dash rest) [ none ↦ none | some _ ↦ some triple ]
]

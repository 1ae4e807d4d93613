-- ===== src/Executables/Caches.antt =====
-- What the caches of an executable answer, and the repository of providers.
use fcd.Base.{
  ℕ, ◌≡◌, refl, sym, ◌∙◌, List, Option, none, some, ◌==◌, if◌then◌else◌, arith, Bool-cases,
  Option-cases, inl, inr,
}
use fcd.Executables.Maps.{find, update, find-update}
use fcd.Executables.Symbols.{
  SymbolInfo, StubInfo, StubTargetQueryResult, unresolved, resolved_in_flat_namespace,
  resolved_in_two_level_namespace, Executable, new_symbol, new_stub, at_address, get_info, stub_of,
  get_stub_target,
}

-- `getInfo` gives the symbol at the address, or a new one if the address is mapped.
abbrev pub symbol_at : (map : ℕ → ℕ) → Executable → ℕ → Option SymbolInfo
symbol_at map e a = elim (find a e.symbols) [
  | some s ↦ some s
  | none ↦ if map a == 0 then none else some (at_address a new_symbol)
]

get_info-symbol_at :
    (map : ℕ → ℕ) (a : ℕ) (e : Executable) → (get_info map a e).0 ≡ symbol_at map e a
unfolding get_info
get_info-symbol_at map a e = ground arith

symbol_at-get_info :
    (map : ℕ → ℕ) (a b : ℕ) (e : Executable)
    → symbol_at map (get_info map a e).1 b ≡ symbol_at map e b
unfolding get_info
symbol_at-get_info map a b e =
    let after = find-update a new_symbol (at_address a) e.symbols b in ground arith

-- Whatever was asked before, `getInfo` gives the known symbol of the address, a new symbol if the
-- format maps the address, and null otherwise. The symbols that it adds change no later answer.
pub get_info-stable :
    (map : ℕ → ℕ) (a b : ℕ) (e : Executable)
    → ((get_info map b e).0 ≡ symbol_at map e b)
      × ((get_info map b (get_info map a e).1).0 ≡ symbol_at map e b)
get_info-stable map a b e = (
  get_info-symbol_at map b e,
  get_info-symbol_at map b (get_info map a e).1 ∙ symbol_at-get_info map a b e,
)

-- Every cached stub is what the format answers for its address.
abbrev pub IsCached : (ℕ → StubTargetQueryResult) → Executable → Type 0
IsCached q e = (a : ℕ) (s : StubInfo) → find a e.stub_targets ≡ some s → stub_of (q a) ≡ some s

cached-update :
    (q : ℕ → StubTargetQueryResult) (m : List (ℕ × StubInfo)) (a : ℕ) (stub : StubInfo)
    → stub_of (q a) ≡ some stub
    → ((b : ℕ) (s : StubInfo) → find b m ≡ some s → stub_of (q b) ≡ some s)
    → (b : ℕ) (s : StubInfo) → find b (update a new_stub (λ _. stub) m) ≡ some s
    → stub_of (q b) ≡ some s
cached-update q m a stub eq h b s found =
    let after = find-update a new_stub (λ _. stub) m b in
    elim (Bool-cases (a == b)) [
      | inl y ↦
          let same : a ≡ b = ground arith in
          let it : some stub ≡ some s = sym (after ∙ rw y refl) ∙ found in rw (sym same) (eq ∙ it)
      | inr n ↦ h b s (sym (after ∙ rw n refl) ∙ found)
    ]

new_stub-IsCached :
    (q : ℕ → StubTargetQueryResult) (a : ℕ) (e : Executable) (r : StubTargetQueryResult)
    → q a ≡ r
    → find a e.stub_targets ≡ none
    → IsCached q e
    → ((get_stub_target q a e).0 ≡ stub_of (q a)) × IsCached q (get_stub_target q a e).1
unfolding get_stub_target
new_stub-IsCached q a e unresolved eq absent h = rw (absent, eq, get_stub_target) (refl, h)
new_stub-IsCached q a e (resolved_in_flat_namespace n) eq absent h =
    rw (absent, eq, get_stub_target)
      (
        refl,
        cached-update q e.stub_targets a (record { shared_object = none; name = n }) (rw eq refl) h,
      )
new_stub-IsCached q a e (resolved_in_two_level_namespace l n) eq absent h =
    rw (absent, eq, get_stub_target)
      (
        refl,
        cached-update q e.stub_targets a (record { shared_object = some l; name = n }) (rw eq refl)
            h,
      )

-- `getStubTarget` gives what the format's `doGetStubTarget` resolves the address to, whether it is
-- cached or not, when every cached stub is what `doGetStubTarget` gives; and then this stays so.
pub get_stub_target-IsCached :
    (q : ℕ → StubTargetQueryResult) (a : ℕ) (e : Executable)
    → IsCached q e
    → ((get_stub_target q a e).0 ≡ stub_of (q a)) × IsCached q (get_stub_target q a e).1
unfolding get_stub_target
get_stub_target-IsCached q a e h = elim (Option-cases (find a e.stub_targets)) [
  | inr (s, found) ↦ rw (found, get_stub_target) (sym (h a s found), h)
  | inl absent ↦ new_stub-IsCached q a e (q a) refl absent h
]

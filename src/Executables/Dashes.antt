-- ===== src/Executables/Dashes.antt =====
-- Every target triple that an ELF file's header gives has two dashes.
use Prim.Native.Char.{code}
use Prim.Native.String.{String, ◌++◌}
use Prim.Native.String.append
use fcd.Base.{
  ℕ, ◌+◌, ◌≤◌, ◌<◌, ◌≡◌, refl, ap, inl, inr, Option, none, some, ◌==◌, if◌then◌else◌, arith,
  Bool-cases,
}
use fcd.Executables.Symbols.{find_dash, get_target_triple}
use fcd.Executables.Layout.{ElfTypes}
use fcd.Executables.Triple.{
  is_64_bits, machine_of, arch_name, os_name, triple_of, do_get_target_triple,
}

abbrev pub dashes : String → ℕ
dashes String.[] = 0
dashes (String.◌∷◌ c s) = (if code c == b'-' then 1 else 0) + dashes s

dashes-append : (s t : String) → dashes (s ++ t) ≡ dashes s + dashes t
dashes-append String.[] t =
    let same : dashes ("" ++ t) ≡ dashes t = ap dashes (append.nil t) in omega (arith, same)
dashes-append (String.◌∷◌ c s) t =
    let rest = dashes-append s t in
    let same : dashes (String.◌∷◌ c s ++ t) ≡ (if code c == b'-' then 1 else 0) + dashes (s ++ t) =
      ap dashes (append.cons c s t) in
    omega (arith, same)

find_dash-dashes :
    (s : String) → 0 < dashes s → (r : String) × (find_dash s ≡ some r) × (dashes r + 1 ≡ dashes s)
find_dash-dashes String.[] h = absurd (omega arith)
find_dash-dashes (String.◌∷◌ c s) h = elim (Bool-cases (code c == b'-')) [
  | inl q ↦ rw q (s, refl, omega arith)
  | inr q ↦
      let more : 0 < dashes s = ground arith in
      let (r, found, counted) = find_dash-dashes s more in rw q (r, found, omega arith)
]

get_target_triple-dashes : (t : String) → 2 ≤ dashes t → get_target_triple t ≡ some t
unfolding get_target_triple
get_target_triple-dashes t h =
    let (r, found, counted) = find_dash-dashes t (omega arith) in
    let (_, again, _) = find_dash-dashes r (omega arith) in
    rw (found, get_target_triple) (rw again refl)

triple_of-dashes :
    (arch : Option String) (os t : String)
    → triple_of arch os ≡ some t
    → get_target_triple t ≡ some t
triple_of-dashes none os t h = absurd (ground arith)
triple_of-dashes (some arch) os t h =
    let first = dashes-append arch ("-unknown-" ++ os) in
    let second = dashes-append "-unknown-" os in
    let counted : 2 ≤ dashes (arch ++ ("-unknown-" ++ os)) = omega arith in
    let whole = get_target_triple-dashes (arch ++ ("-unknown-" ++ os)) counted in cc

-- What `doGetTargetTriple` of an ELF file gives always has two dashes, so that `getTargetTriple`
-- returns it, and its assertion does not fail.
pub get_target_triple-do_get_target_triple :
    (c : ElfTypes) (data_byte os_abi machine : ℕ) (t : String)
    → do_get_target_triple c data_byte os_abi machine ≡ some t
    → get_target_triple t ≡ some t
unfolding do_get_target_triple
get_target_triple-do_get_target_triple c data_byte os_abi machine t h =
    triple_of-dashes (arch_name (is_64_bits c) (data_byte == 2) (machine_of machine))
      (os_name os_abi) t h

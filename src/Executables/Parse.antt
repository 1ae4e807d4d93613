-- ===== src/Executables/Parse.antt =====
-- `ElfExecutable::parse` of fcd/executables/elf_executable.cpp after the headers, and the factory.
-- `show` is `raw_ostream`'s print of a number; `rounds` bounds the loops over relocations.
use fcd.Base.{
  ℕ, zero, suc, ◌+◌, ◌-◌, ◌*◌, ◌/◌, ◌%◌, ◌^◌, true, false, List, [], ◌∷◌, ◌++◌, Option, none, some,
  ltb, ◌==◌, if◌then◌else◌,
}
use fcd.Executables.Maps.{update, find}
use fcd.Executables.Memory.{
  Outcome, ok, unfinished, ◌>>=◌, Image, image_end, bounded_cast, bounded_range, elements,
  read_byte, read_number, size_of,
}
use fcd.Executables.Layout.{
  ElfTypes, Phdr, Dynamic, addr_width, sym_layout, dynamic_layout, rel_layout, read_sym,
  read_dynamic, read_rel, rel_symbol,
}
use fcd.Executables.Elf.{ElfExecutable, with_symbol, for_each}

abbrev pub dt_max : ℕ
dt_max = 34

-- `dynEnt`: the last entry of each tag
abbrev pub Entries : Type 0
Entries = List (ℕ × Dynamic)

unfoldable pub dynamic_entry : Dynamic → Entries → Entries
dynamic_entry d es = if ltb d.tag dt_max then update d.tag d (λ _. d) es else es

unfoldable pub walk_dynamics : ElfTypes → Image → List Phdr → Entries → Outcome Entries
unfolding for_each elements dynamic_entry read_dynamic bounded_range
walk_dynamics c i [] es = ok es
walk_dynamics c i (ph ∷ phs) es = do
  let size = size_of (dynamic_layout c)
  fs ←
      for_each (read_dynamic c i) dynamic_entry
        (elements size (bounded_range size i.begin (image_end i) ph.offset (ph.filesz / size))) es
  walk_dynamics c i phs fs

-- One entry of an array of functions: its symbol, and the counter for the next one's name
unfoldable pub array_entry :
    (show : ℕ → List ℕ) (prefix : List ℕ) → ℕ → ℕ × ElfExecutable → ℕ × ElfExecutable
unfolding with_symbol
array_entry show prefix entry (counter, e) = (
  counter + 1,
  with_symbol entry
      (λ s. record { name = s.name ++ (prefix ++ show counter); virtual_address = entry }) e,
)

-- a test for null, on an entry and on a pointer
abbrev pub given :
    {A : Type 0} → Option A → ElfExecutable → (A → Outcome ElfExecutable) → Outcome ElfExecutable
given none e f = ok e
given (some v) e f = f v

abbrev pub given_pointer : ℕ → ElfExecutable → (ℕ → Outcome ElfExecutable) → Outcome ElfExecutable
given_pointer p e f = if p == 0 then ok e else f p

unfoldable pub entry_array :
    (show : ℕ → List ℕ)
    → ElfTypes
    → Image
    → Entries
    → ℕ × ℕ × List ℕ
    → ElfExecutable
    → Outcome ElfExecutable
unfolding for_each elements array_entry read_number bounded_range
entry_array show c i es (location_tag, size_tag, prefix) e =
    given (find location_tag es) e (λ location. given (find size_tag es) e (λ size. do
      let width = addr_width c
      r ←
          for_each (read_number i width) (array_entry show prefix)
            (elements width (bounded_range width i.begin (image_end i) location.value size.value))
            (0, e)
      ok r.1))

unfoldable pub init_fini : Entries → ℕ × List ℕ → ElfExecutable → ElfExecutable
unfolding with_symbol
init_fini es (tag, name) e = elim (find tag es) [
  | none ↦ e
  | some d ↦ with_symbol d.value (λ s. record { name = name; virtual_address = d.value }) e
]

-- the bytes up to a zero, of `count` at most: what `strnlen` measures and `string` copies
unfoldable pub read_name : Image → (count : ℕ) → ℕ → Outcome (List ℕ)
unfolding read_byte
read_name i zero p = ok []
read_name i (suc n) p = do
  b ← read_byte i p
  elim (b == 0) [ true ↦ ok [] | false ↦ do bs ← read_name i n (p + 1); ok (b ∷ bs) ]

-- the body of the two loops over relocations
unfoldable pub relocation :
    ElfTypes
    → Image
    → (symtab strtab reloc_base reloc_iter : ℕ) → ElfExecutable
    → Outcome ElfExecutable
unfolding bounded_cast read_rel read_sym rel_symbol read_name
relocation c i symtab strtab reloc_base reloc_iter e =
    let p = bounded_cast (size_of (rel_layout c)) reloc_base (image_end i) reloc_iter in
    if p == 0 then ok e else do
      reloc ← read_rel c i p
      let size = size_of (sym_layout c)
      let q = bounded_cast size symtab (image_end i) (size * rel_symbol c reloc)
      if q == 0 then ok e else do
        symbol ← read_sym c i q
        let name_begin = bounded_cast 1 strtab (image_end i) symbol.name
        if name_begin == 0 then ok e else do
          name ← read_name i (image_end i - name_begin) name_begin
          ok (record e { stub_targets = update reloc.offset [] (λ _. name) e.stub_targets })

-- `for (uint64_t iter = 0; iter < size; iter += step)`
unfoldable pub count_loop {ℓ} :
    {S : Type ℓ} → (ℕ → S → Outcome S) → (size step rounds iter : ℕ) → S → Outcome S
count_loop body size step zero iter s = if ltb iter size then unfinished else ok s
count_loop body size step (suc n) iter s = elim (ltb iter size) [
  | false ↦ ok s
  | true ↦ do t ← body iter s; count_loop body size step n ((iter + step) % 2 ^ 64) t
]

abbrev pub value_of : Option Dynamic → Option ℕ
value_of none = none
value_of (some d) = some d.value

abbrev pub entry_value : ℕ → Entries → Option ℕ
entry_value tag es = value_of (find tag es)

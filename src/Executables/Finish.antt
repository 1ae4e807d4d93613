-- ===== src/Executables/Finish.antt =====
-- `ElfExecutable::parse` always ends on ELF files of 32 bits.
use fcd.Base.{
  ℕ, ◌-◌, ◌%◌, ◌^◌, ◌≤◌, ◌≡◌, ◌≢◌, true, not, ◌&&◌, List, [], ◌∷◌, ◌==◌, if◌then◌else◌, arith,
}
use fcd.Executables.Memory.{
  Outcome, unfinished, Image, image_end, bounded_cast, bounded_range, elements, read_number,
}
use fcd.Executables.Maps.{find}
use fcd.Executables.Symbols.{get_visible_entry_points}
use fcd.Executables.Layout.{elf32, Shdr, Sym}
use fcd.Executables.Elf.{ElfExecutable, with_symbol}
use fcd.Executables.Parse.{Entries, array_entry, entry_array, init_fini}
use fcd.Executables.Tables.{
  symbol_name, strtab_of, function_symbol, walk_symbols, walk_symtabs, erase_unmapped,
}
use fcd.Executables.Factory.{
  preinit_prefix, init_prefix, fini_prefix, init_name, fini_name, base_of, parse_dynamics,
  parse_tables, has_header, parse_file, parse,
}
use fcd.Executables.Gives.{if-both}
use fcd.Executables.Headers.{walk_header-Succeeds}
use fcd.Executables.Reads.{
  Ends, ends, at_wild, at_failed, Ends-bind, Any, are_bytes, read_number-Ends, read_sym-Ends,
  read_name-Ends,
}
use fcd.Executables.Ends.{Ends-for_each, Ends-given, walk_dynamics-Ends, relocations-Ends}

Ends-unfinished {ℓ κ} : {A : Type ℓ} {P : A → Type κ} {o : Outcome A} → Ends P o → o ≢ unfinished
Ends-unfinished (ends a h) q = ground arith
Ends-unfinished at_wild q = ground arith
Ends-unfinished at_failed q = ground arith

weaken {ℓ κ} : {A : Type ℓ} {P : A → Type κ} {o : Outcome A} → Ends P o → Ends Any o
weaken (ends a h) = ends a tt
weaken at_wild = at_wild
weaken at_failed = at_failed

module _ (i : Image) (bytes : are_bytes i.bytes ≡ true) where
  entry_array-Ends :
      (show : ℕ → List ℕ) (es : Entries) (tags : ℕ × ℕ × List ℕ) (e : ElfExecutable)
      → Ends Any (entry_array show elf32 i es tags e)
  unfolding entry_array
  entry_array-Ends show es (location, size, prefix) e = Ends-given (find location es) e _ (λ d _.
      Ends-given (find size es) e _ (λ f _.
        Ends-bind
          (Ends-for_each Any Any (λ p. read_number i 4 p) (array_entry show prefix)
            (elements 4 (bounded_range 4 i.begin (image_end i) d.value f.value)) (0, e)
            (λ p. weaken (read_number-Ends i 4 p bytes)) (λ a r _ _. tt) tt)
          (λ r _. ends r.1 tt)))

  parse_dynamics-Ends :
      (show : ℕ → List ℕ) (es : Entries) (e : ElfExecutable)
      → Ends Any (parse_dynamics show elf32 i es e)
  unfolding parse_dynamics
  parse_dynamics-Ends show es e =
      Ends-bind (entry_array-Ends show es (32, 33, preinit_prefix) e) (λ e1 _.
        Ends-bind (entry_array-Ends show es (25, 27, init_prefix) e1) (λ e2 _.
          Ends-bind (entry_array-Ends show es (26, 28, fini_prefix) e2)
            (λ e3 _. ends (init_fini es (13, fini_name) (init_fini es (12, init_name) e3)) tt)))

  function_symbol-Ends :
      (strtab : ℕ) (s : Sym) (e : ElfExecutable) → Ends Any (function_symbol i strtab s e)
  unfolding function_symbol symbol_name
  function_symbol-Ends strtab s e =
      let name_begin = if s.name == 0 then 0 else bounded_cast 1 strtab (image_end i) s.name in
      if-both (Ends Any) (not (s.info % 16 == 2)) (ends e tt) (
        Ends-bind
          (if-both (Ends Any) (name_begin == 0) (ends [] tt)
            (read_name-Ends i (image_end i - name_begin) name_begin bytes))
          (λ name _.
            ends (with_symbol s.value (λ _. record { name = name; virtual_address = s.value }) e)
              tt))

  walk_symbols-Ends :
      (strtab : ℕ) (ps : List ℕ) (e : ElfExecutable) → Ends Any (walk_symbols elf32 i strtab ps e)
  unfolding walk_symbols
  walk_symbols-Ends strtab [] e = ends e tt
  walk_symbols-Ends strtab (p ∷ ps) e =
      Ends-bind (read_sym-Ends elf32 i p bytes)
        (λ s _. Ends-bind (function_symbol-Ends strtab s e) (λ d _. walk_symbols-Ends strtab ps d))

  walk_symtabs-Ends :
      (sections symtabs : List Shdr) (e : ElfExecutable)
      → Ends Any (walk_symtabs elf32 i sections symtabs e)
  unfolding walk_symtabs
  walk_symtabs-Ends sections [] e = ends e tt
  walk_symtabs-Ends sections (sh ∷ shs) e =
      Ends-bind
        (if-both (Ends Any) (not (sh.entsize == 0) && not (sh.entsize == 16)) (ends e tt)
          (walk_symbols-Ends (strtab_of i sections sh.link) _ e))
        (λ d _. walk_symtabs-Ends sections shs d)

  parse-Ends :
      (show : ℕ → List ℕ) (rounds : ℕ) → 2 ^ 33 ≤ rounds → Ends Any (parse show rounds elf32 i)
  unfolding parse parse_file parse_tables
  parse-Ends show rounds enough =
      let (w, walked) = walk_header-Succeeds elf32 i in
      if-both (Ends Any) (has_header elf32 i)
        (rw (walked, parse_file)
          (Ends-bind
            (Ends-bind (walk_dynamics-Ends i w.dynamics [] bytes tt) (λ es small.
              Ends-bind (parse_dynamics-Ends show es w.executable) (λ e1 _.
                Ends-bind (relocations-Ends i rounds bytes enough es e1 small)
                  (λ e2 _. walk_symtabs-Ends w.sections w.symtabs e2))))
            (λ e _. ends (erase_unmapped (get_visible_entry_points (base_of e)) e) tt)))
        at_failed

-- `ElfExecutable::parse` ends on every file of 32 bits: with 2^33 rounds for each of its two loops over
-- relocations, which is enough for all sizes that the file can give, it never runs out of them.
pub parse-finishes :
    (show : ℕ → List ℕ) (rounds : ℕ) (i : Image)
    → are_bytes i.bytes ≡ true
    → 2 ^ 33 ≤ rounds
    → parse show rounds elf32 i ≢ unfinished
parse-finishes show rounds i bytes enough = Ends-unfinished (parse-Ends i bytes show rounds enough)

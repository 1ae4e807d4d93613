-- ===== src/Executables/Tables.antt =====
-- `ElfExecutable::parse` of fcd/executables/elf_executable.cpp: relocations and symbol tables.
use fcd.Base.{
  ℕ, ◌-◌, ◌/◌, ◌%◌, ◌^◌, not, ◌&&◌, ◌||◌, List, [], ◌∷◌, length, get_elem?, Option, none, some, ltb,
  ◌==◌, if◌then◌else◌,
}
use fcd.Executables.Maps.{erase}
use fcd.Executables.Memory.{
  Outcome, ok, ◌>>=◌, Image, image_end, bounded_cast, bounded_range, elements, size_of,
}
use fcd.Executables.Layout.{
  ElfTypes, Shdr, Sym, sym_layout, rel_layout, rela_layout, read_sym, sht_strtab, stt_func,
}
use fcd.Executables.Elf.{ElfExecutable, with_symbol, map_address}
use fcd.Executables.Parse.{
  Entries, entry_value, given, given_pointer, read_name, relocation, count_loop,
}

-- A tag is an enumeration of 32 bits.
unfoldable pub plt_relocations :
    (rounds : ℕ)
    → ElfTypes
    → Image
    → Entries
    → (symtab strtab : ℕ) → ElfExecutable
    → Outcome ElfExecutable
unfolding relocation count_loop map_address
plt_relocations rounds c i es symtab strtab e = given (entry_value 23 es) e (λ jmprel.
    given (entry_value 2 es) e (λ pltrelsz. given (entry_value 20 es) e (λ pltrel.
      given_pointer (map_address e.segments jmprel) e (λ reloc_base.
        let rel_type = pltrel % 2 ^ 32 in
        let reloc_size =
          if rel_type == 17 then size_of (rel_layout c) else size_of (rela_layout c) in
        if rel_type == 17 || rel_type == 7
        then count_loop (relocation c i symtab strtab reloc_base) pltrelsz reloc_size rounds 0 e
        else ok e))))

unfoldable pub rela_relocations :
    (rounds : ℕ)
    → ElfTypes
    → Image
    → Entries
    → (symtab strtab : ℕ) → ElfExecutable
    → Outcome ElfExecutable
unfolding relocation count_loop map_address
rela_relocations rounds c i es symtab strtab e = given (entry_value 7 es) e (λ rela.
    given (entry_value 8 es) e (λ relasz. given (entry_value 9 es) e (λ relaent.
      if relaent == size_of (rela_layout c)
      then given_pointer (map_address e.segments rela) e (λ reloc_base.
        count_loop (relocation c i symtab strtab reloc_base) relasz (size_of (rela_layout c)) rounds
          0 e)
      else ok e)))

unfoldable pub relocations :
    (rounds : ℕ) → ElfTypes → Image → Entries → ElfExecutable → Outcome ElfExecutable
unfolding plt_relocations rela_relocations map_address
relocations rounds c i es e = given (entry_value 5 es) e (λ strtab_address.
    given (entry_value 6 es) e (λ symtab_address.
      given_pointer (map_address e.segments symtab_address) e (λ symtab.
        given_pointer (map_address e.segments strtab_address) e (λ strtab. do
          d ← plt_relocations rounds c i es symtab strtab e
          rela_relocations rounds c i es symtab strtab d))))

-- the string table that a symbol table links to, or null
abbrev pub strtab_at : Image → Option Shdr → ℕ
strtab_at i none = 0
strtab_at i (some sh) =
    if sh.type == sht_strtab then bounded_cast 1 i.begin (image_end i) sh.offset else 0

unfoldable pub strtab_of : Image → List Shdr → ℕ → ℕ
unfolding bounded_cast
strtab_of i sections link =
    if not (link == 0) && ltb link (length sections)
    then strtab_at i (get_elem? sections link)
    else 0

unfoldable pub symbol_name : Image → (strtab name : ℕ) → Outcome (List ℕ)
unfolding bounded_cast read_name
symbol_name i strtab name =
    let name_begin = if name == 0 then 0 else bounded_cast 1 strtab (image_end i) name in
    if name_begin == 0 then ok [] else read_name i (image_end i - name_begin) name_begin

unfoldable pub function_symbol : Image → (strtab : ℕ) → Sym → ElfExecutable → Outcome ElfExecutable
unfolding symbol_name with_symbol
function_symbol i strtab s e = if not (s.info % 16 == stt_func) then ok e else do
  name ← symbol_name i strtab s.name
  ok (with_symbol s.value (λ _. record { name = name; virtual_address = s.value }) e)

unfoldable pub walk_symbols :
    ElfTypes → Image → (strtab : ℕ) → List ℕ → ElfExecutable → Outcome ElfExecutable
unfolding read_sym function_symbol
walk_symbols c i strtab [] e = ok e
walk_symbols c i strtab (p ∷ ps) e = do
  s ← read_sym c i p
  d ← function_symbol i strtab s e
  walk_symbols c i strtab ps d

unfoldable pub walk_symtabs :
    ElfTypes → Image → (sections symtabs : List Shdr) → ElfExecutable → Outcome ElfExecutable
unfolding walk_symbols strtab_of elements bounded_range
walk_symtabs c i sections [] e = ok e
walk_symtabs c i sections (sh ∷ shs) e = do
  let size = size_of (sym_layout c)
  d ←
      (if not (sh.entsize == 0) && not (sh.entsize == size)
        then ok e
        else walk_symbols c i (strtab_of i sections sh.link)
            (elements size (bounded_range size i.begin (image_end i) sh.offset (sh.size / size))) e)
  walk_symtabs c i sections shs d

unfoldable pub erase_unmapped : List ℕ → ElfExecutable → ElfExecutable
unfolding erase map_address
erase_unmapped [] e = e
erase_unmapped (a ∷ rest) e =
    erase_unmapped rest
      (if map_address e.segments a == 0 then record e { symbols = erase a e.symbols } else e)

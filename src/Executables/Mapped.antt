-- ===== src/Executables/Mapped.antt =====
-- Every step of `ElfExecutable::parse` leaves the symbols under their addresses.
use fcd.Base.{ℕ, ◌%◌, ◌^◌, refl, ◌||◌, inl, inr, List, [], ◌∷◌, ◌==◌, if◌then◌else◌, Option-cases}
use fcd.Executables.Maps.{find}
use fcd.Executables.Memory.{Image, image_end, read_number, bounded_range, elements, size_of}
use fcd.Executables.Layout.{
  ElfTypes, Shdr, Sym, read_rel, read_sym, addr_width, rel_layout, rela_layout,
}
use fcd.Executables.Elf.{ElfExecutable, Walk, map_address}
use fcd.Executables.Parse.{
  Entries, entry_array, array_entry, init_fini, read_name, relocation, walk_dynamics, entry_value,
  count_loop,
}
use fcd.Executables.Tables.{
  plt_relocations, rela_relocations, relocations, strtab_of, symbol_name, function_symbol,
  walk_symbols, walk_symtabs,
}
use fcd.Executables.Factory.{
  preinit_prefix, init_prefix, fini_prefix, init_name, fini_name, parse_dynamics, parse_tables,
}
use fcd.Executables.Gives.{
  Gives, gives, Gives-bind, Gives-any, Gives-for_each, Gives-given, Gives-given_pointer,
  Gives-count_loop, if-both,
}
use fcd.Executables.Parsed.{IsKeyed, with_symbol-IsKeyed, WalkIsKeyed}

abbrev pub ElfIsKeyed : ElfExecutable → Type 0
ElfIsKeyed e = IsKeyed e.symbols

abbrev CountedIsKeyed : ℕ × ElfExecutable → Type 0
CountedIsKeyed r = IsKeyed r.1.symbols

array_entry-IsKeyed :
    (show : ℕ → List ℕ) (prefix : List ℕ) (entry : ℕ) (r : ℕ × ElfExecutable)
    → CountedIsKeyed r
    → CountedIsKeyed (array_entry show prefix entry r)
unfolding array_entry
array_entry-IsKeyed show prefix entry (n, e) h = with_symbol-IsKeyed entry _ e (λ s. refl) h

entry_array-IsKeyed :
    (show : ℕ → List ℕ) (c : ElfTypes) (i : Image) (es : Entries) (tags : ℕ × ℕ × List ℕ)
    (e : ElfExecutable)
    → ElfIsKeyed e
    → Gives ElfIsKeyed (entry_array show c i es tags e)
unfolding entry_array
entry_array-IsKeyed show c i es (location, size, prefix) e h =
    Gives-given ElfIsKeyed (find location es) e _ h (λ d.
      Gives-given ElfIsKeyed (find size es) e _ h (λ f.
        Gives-bind
          (Gives-for_each CountedIsKeyed (read_number i (addr_width c)) (array_entry show prefix)
            (elements (addr_width c)
              (bounded_range (addr_width c) i.begin (image_end i) d.value f.value))
            (0, e) (array_entry-IsKeyed show prefix) h)
          (λ r g. gives r.1 g)))

init_fini-IsKeyed :
    (es : Entries) (t : ℕ × List ℕ) (e : ElfExecutable)
    → ElfIsKeyed e
    → ElfIsKeyed (init_fini es t e)
unfolding init_fini
init_fini-IsKeyed es (tag, name) e h = elim (Option-cases (find tag es)) [
  | inl q ↦ rw (q, init_fini) h
  | inr (d, q) ↦ rw (q, init_fini) (with_symbol-IsKeyed d.value _ e (λ s. refl) h)
]

parse_dynamics-IsKeyed :
    (show : ℕ → List ℕ) (c : ElfTypes) (i : Image) (es : Entries) (e : ElfExecutable)
    → ElfIsKeyed e
    → Gives ElfIsKeyed (parse_dynamics show c i es e)
unfolding parse_dynamics
parse_dynamics-IsKeyed show c i es e h =
    Gives-bind (entry_array-IsKeyed show c i es (32, 33, preinit_prefix) e h) (λ e1 h1.
      Gives-bind (entry_array-IsKeyed show c i es (25, 27, init_prefix) e1 h1) (λ e2 h2.
        Gives-bind (entry_array-IsKeyed show c i es (26, 28, fini_prefix) e2 h2) (λ e3 h3.
          gives (init_fini es (13, fini_name) (init_fini es (12, init_name) e3)) (
            init_fini-IsKeyed es (13, fini_name) (init_fini es (12, init_name) e3)
              (init_fini-IsKeyed es (12, init_name) e3 h3)))))

relocation-IsKeyed :
    (c : ElfTypes) (i : Image) (symtab strtab base iter : ℕ) (e : ElfExecutable)
    → ElfIsKeyed e
    → Gives ElfIsKeyed (relocation c i symtab strtab base iter e)
unfolding relocation
relocation-IsKeyed c i symtab strtab base iter e h = if-both (Gives ElfIsKeyed) _ (gives e h) (
    Gives-any (read_rel c i _) (λ r. if-both (Gives ElfIsKeyed) _ (gives e h) (
      Gives-any (read_sym c i _) (λ s.
        if-both (Gives ElfIsKeyed) _ (gives e h)
          (Gives-any (read_name i _ _) (λ name. gives _ h))))))

plt_relocations-IsKeyed :
    (rounds : ℕ) (c : ElfTypes) (i : Image) (es : Entries) (symtab strtab : ℕ) (e : ElfExecutable)
    → ElfIsKeyed e
    → Gives ElfIsKeyed (plt_relocations rounds c i es symtab strtab e)
unfolding plt_relocations
plt_relocations-IsKeyed rounds c i es symtab strtab e h =
    Gives-given ElfIsKeyed (entry_value 23 es) e _ h (λ jmprel.
      Gives-given ElfIsKeyed (entry_value 2 es) e _ h (λ size.
        Gives-given ElfIsKeyed (entry_value 20 es) e _ h (λ kind.
          Gives-given_pointer ElfIsKeyed (map_address e.segments jmprel) e _ h (λ base.
            if-both (Gives ElfIsKeyed) (kind % 2 ^ 32 == 17 || kind % 2 ^ 32 == 7)
              (Gives-count_loop ElfIsKeyed (relocation c i symtab strtab base) size
                (if kind % 2 ^ 32 == 17 then size_of (rel_layout c) else size_of (rela_layout c))
                rounds 0 e (relocation-IsKeyed c i symtab strtab base) h)
              (gives e h)))))

rela_relocations-IsKeyed :
    (rounds : ℕ) (c : ElfTypes) (i : Image) (es : Entries) (symtab strtab : ℕ) (e : ElfExecutable)
    → ElfIsKeyed e
    → Gives ElfIsKeyed (rela_relocations rounds c i es symtab strtab e)
unfolding rela_relocations
rela_relocations-IsKeyed rounds c i es symtab strtab e h =
    Gives-given ElfIsKeyed (entry_value 7 es) e _ h (λ rela.
      Gives-given ElfIsKeyed (entry_value 8 es) e _ h (λ size.
        Gives-given ElfIsKeyed (entry_value 9 es) e _ h (λ entry.
          if-both (Gives ElfIsKeyed) (entry == size_of (rela_layout c))
            (Gives-given_pointer ElfIsKeyed (map_address e.segments rela) e
              (λ base.
                count_loop (relocation c i symtab strtab base) size (size_of (rela_layout c)) rounds
                  0 e)
              h
              (λ base.
                Gives-count_loop ElfIsKeyed (relocation c i symtab strtab base) size
                  (size_of (rela_layout c)) rounds 0 e (relocation-IsKeyed c i symtab strtab base)
                  h))
            (gives e h))))

relocations-IsKeyed :
    (rounds : ℕ) (c : ElfTypes) (i : Image) (es : Entries) (e : ElfExecutable)
    → ElfIsKeyed e
    → Gives ElfIsKeyed (relocations rounds c i es e)
unfolding relocations
relocations-IsKeyed rounds c i es e h =
    Gives-given ElfIsKeyed (entry_value 5 es) e _ h (λ strtab_address.
      Gives-given ElfIsKeyed (entry_value 6 es) e _ h (λ symtab_address.
        Gives-given_pointer ElfIsKeyed (map_address e.segments symtab_address) e _ h (λ symtab.
          Gives-given_pointer ElfIsKeyed (map_address e.segments strtab_address) e _ h (λ strtab.
            Gives-bind (plt_relocations-IsKeyed rounds c i es symtab strtab e h)
              (λ d g. rela_relocations-IsKeyed rounds c i es symtab strtab d g)))))

function_symbol-IsKeyed :
    (i : Image) (strtab : ℕ) (s : Sym) (e : ElfExecutable)
    → ElfIsKeyed e
    → Gives ElfIsKeyed (function_symbol i strtab s e)
unfolding function_symbol
function_symbol-IsKeyed i strtab s e h = if-both (Gives ElfIsKeyed) _ (gives e h) (
    Gives-any (symbol_name i strtab s.name)
      (λ name. gives _ (with_symbol-IsKeyed s.value _ e (λ _. refl) h)))

walk_symbols-IsKeyed :
    (c : ElfTypes) (i : Image) (strtab : ℕ) (ps : List ℕ) (e : ElfExecutable)
    → ElfIsKeyed e
    → Gives ElfIsKeyed (walk_symbols c i strtab ps e)
unfolding walk_symbols
walk_symbols-IsKeyed c i strtab [] e h = gives e h
walk_symbols-IsKeyed c i strtab (p ∷ ps) e h = Gives-any (read_sym c i p) (λ s.
    Gives-bind (function_symbol-IsKeyed i strtab s e h)
      (λ d g. walk_symbols-IsKeyed c i strtab ps d g))

walk_symtabs-IsKeyed :
    (c : ElfTypes) (i : Image) (sections symtabs : List Shdr) (e : ElfExecutable)
    → ElfIsKeyed e
    → Gives ElfIsKeyed (walk_symtabs c i sections symtabs e)
unfolding walk_symtabs
walk_symtabs-IsKeyed c i sections [] e h = gives e h
walk_symtabs-IsKeyed c i sections (sh ∷ shs) e h =
    Gives-bind
      (if-both (Gives ElfIsKeyed) _ (gives e h)
        (walk_symbols-IsKeyed c i (strtab_of i sections sh.link) _ e h))
      (λ d g. walk_symtabs-IsKeyed c i sections shs d g)

pub parse_tables-IsKeyed :
    (show : ℕ → List ℕ) (rounds : ℕ) (c : ElfTypes) (i : Image) (w : Walk)
    → WalkIsKeyed w
    → Gives ElfIsKeyed (parse_tables show rounds c i w)
unfolding parse_tables
parse_tables-IsKeyed show rounds c i w h = Gives-any (walk_dynamics c i w.dynamics []) (λ es.
    Gives-bind (parse_dynamics-IsKeyed show c i es w.executable h) (λ e1 h1.
      Gives-bind (relocations-IsKeyed rounds c i es e1 h1)
        (λ e2 h2. walk_symtabs-IsKeyed c i w.sections w.symtabs e2 h2)))

-- ===== src/Executables/Parsed.antt =====
-- What the parser leaves: symbols under their addresses, and those alone that the file maps.
use fcd.Base.{ℕ, ◌≡◌, refl, sym, ◌∙◌, inl, inr, List, [], ◌∷◌, ◌==◌, arith, Bool-cases}
use fcd.Executables.Maps.{update}
use fcd.Executables.Symbols.{SymbolInfo, at_address, new_symbol}
use fcd.Executables.Memory.{Image}
use fcd.Executables.Gives.{Gives, gives, Gives-bind, Gives-any, Gives-for_each, if-both}
use fcd.Executables.Layout.{ElfTypes, Ehdr, Phdr, read_phdr, read_shdr, read_ehdr}
use fcd.Executables.Elf.{
  ElfExecutable, Walk, with_symbol, walk_header, load_segment, program_header, section_header,
  walk_program_headers, walk_section_headers, entry_symbol, new_walk,
}

-- Every symbol stands under its virtual address.
abbrev pub IsKeyed : List (ℕ × SymbolInfo) → Type 0
IsKeyed [] = Unit
IsKeyed ((a, s) ∷ m) = (s.virtual_address ≡ a) × IsKeyed m

update-IsKeyed :
    (a : ℕ) (f : SymbolInfo → SymbolInfo) (m : List (ℕ × SymbolInfo))
    → ((s : SymbolInfo) → (f s).virtual_address ≡ a)
    → IsKeyed m
    → IsKeyed (update a new_symbol f m)
unfolding update
update-IsKeyed a f [] g h = (g new_symbol, tt)
update-IsKeyed a f ((l, s) ∷ m) g h =
    let rest = update-IsKeyed a f m g h.1 in
    elim (Bool-cases (l == a)) [
      | inl q ↦ let same : l ≡ a = ground arith in rw q (g s ∙ sym same, h.1)
      | inr q ↦ rw q (h.0, rest)
    ]

pub with_symbol-IsKeyed :
    (a : ℕ) (f : SymbolInfo → SymbolInfo) (e : ElfExecutable)
    → ((s : SymbolInfo) → (f s).virtual_address ≡ a)
    → IsKeyed e.symbols
    → IsKeyed (with_symbol a f e).symbols
unfolding with_symbol
with_symbol-IsKeyed a f e g h = update-IsKeyed a f e.symbols g h

abbrev pub WalkIsKeyed : Walk → Type 0
WalkIsKeyed w = IsKeyed w.executable.symbols

load_segment-IsKeyed :
    (i : Image) (ph : Phdr) (w : Walk) → WalkIsKeyed w → WalkIsKeyed (load_segment i ph w)
unfolding load_segment
load_segment-IsKeyed i ph w h = if-both WalkIsKeyed _ h h

program_header-IsKeyed :
    (i : Image) (ph : Phdr) (w : Walk) → WalkIsKeyed w → WalkIsKeyed (program_header i ph w)
unfolding program_header
program_header-IsKeyed i ph w h =
    if-both WalkIsKeyed (ph.type == 1) (load_segment-IsKeyed i ph w h)
      (if-both WalkIsKeyed (ph.type == 2) h h)

entry_symbol-IsKeyed : (eh : Ehdr) (w : Walk) → WalkIsKeyed w → WalkIsKeyed (entry_symbol eh w)
unfolding entry_symbol
entry_symbol-IsKeyed eh w h =
    if-both WalkIsKeyed _
      (with_symbol-IsKeyed eh.entry (at_address eh.entry) w.executable (λ s. refl) h) h

walk_program_headers-IsKeyed :
    (c : ElfTypes) (i : Image) (eh : Ehdr) (w : Walk)
    → WalkIsKeyed w
    → Gives WalkIsKeyed (walk_program_headers c i eh w)
unfolding walk_program_headers
walk_program_headers-IsKeyed c i eh w h =
    if-both (Gives WalkIsKeyed) (eh.phentsize == _)
      (Gives-for_each WalkIsKeyed (read_phdr c i) (program_header i) _ w (program_header-IsKeyed i)
        h)
      (gives w h)

walk_section_headers-IsKeyed :
    (c : ElfTypes) (i : Image) (eh : Ehdr) (w : Walk)
    → WalkIsKeyed w
    → Gives WalkIsKeyed (walk_section_headers c i eh w)
unfolding walk_section_headers section_header
walk_section_headers-IsKeyed c i eh w h =
    if-both (Gives WalkIsKeyed) (eh.shentsize == _)
      (Gives-for_each WalkIsKeyed (read_shdr c i) section_header _ w (λ sh v g. g) h) (gives w h)

pub walk_header-IsKeyed : (c : ElfTypes) (i : Image) → Gives WalkIsKeyed (walk_header c i)
unfolding walk_header
walk_header-IsKeyed c i = if-both (Gives WalkIsKeyed) _ (gives new_walk tt) (
    Gives-any (read_ehdr c i _) (λ eh.
      Gives-bind (walk_program_headers-IsKeyed c i eh new_walk tt) (λ w h.
        Gives-bind (walk_section_headers-IsKeyed c i eh w h)
          (λ v g. gives (entry_symbol eh v) (entry_symbol-IsKeyed eh v g)))))

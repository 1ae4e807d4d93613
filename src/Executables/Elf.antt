-- ===== src/Executables/Elf.antt =====
-- fcd/executables/elf_executable.cpp: the headers of a file, its segments, and `map`.
use fcd.Base.{
  ℕ, ◌+◌, ◌-◌, ◌%◌, ◌^◌, Bool, false, not, ◌&&◌, ◌||◌, List, [], ◌∷◌, ◌++◌, Option, none, some, ltb,
  leb, ◌==◌, if◌then◌else◌,
}
use fcd.Executables.Maps.{update, find}
use fcd.Executables.Symbols.{
  SymbolInfo, StubTargetQueryResult, unresolved, resolved_in_flat_namespace, new_symbol, at_address,
}
use fcd.Executables.Memory.{
  Outcome, ok, ◌>>=◌, Image, image_end, bounded_cast, bounded_range, elements, size_of,
}
use fcd.Executables.Layout.{
  ElfTypes, Ehdr, Phdr, Shdr, ehdr_layout, phdr_layout, shdr_layout, read_ehdr, read_phdr,
  read_shdr, pt_load, pt_dynamic, sht_symtab,
}

pub record Segment : Type 0 where
  pub vbegin : ℕ
  pub vend : ℕ
  pub fbegin : ℕ

pub record ElfExecutable : Type 0 where
  pub segments : List Segment
  pub symbols : List (ℕ × SymbolInfo)
  pub stub_targets : List (ℕ × List ℕ)

abbrev pub new_executable : ElfExecutable
new_executable = record { segments = []; symbols = []; stub_targets = [] }

-- `getSymbol` and the changes to what it gives
unfoldable pub with_symbol : ℕ → (SymbolInfo → SymbolInfo) → ElfExecutable → ElfExecutable
with_symbol a f e = record e { symbols = update a new_symbol f e.symbols }

-- the last segment that has the address
abbrev pub segment_of : ℕ → List Segment → Option Segment
segment_of a [] = none
segment_of a (s ∷ ss) = elim (segment_of a ss) [
  | some t ↦ some t
  | none ↦ if leb s.vbegin a && ltb a s.vend then some s else none
]

abbrev pub address_in : ℕ → Option Segment → ℕ
address_in a none = 0
address_in a (some s) = (s.fbegin + (a - s.vbegin)) % 2 ^ 64

unfoldable pub map_address : List Segment → ℕ → ℕ
map_address segments a = address_in a (segment_of a segments)

unfoldable pub do_get_stub_target : ElfExecutable → ℕ → StubTargetQueryResult
do_get_stub_target e a = elim (find a e.stub_targets) [
  | some n ↦ resolved_in_flat_namespace n
  | none ↦ unresolved
]

-- the local variables of the walk over the headers
pub record Walk : Type 0 where
  pub executable : ElfExecutable
  pub load_at_zero : Bool
  pub dynamics : List Phdr
  pub sections : List Shdr
  pub symtabs : List Shdr

abbrev pub new_walk : Walk
new_walk = record {
  executable = new_executable;
  load_at_zero = false;
  dynamics = [];
  sections = [];
  symtabs = [];
}

abbrev pub add_segment : Segment → ElfExecutable → ElfExecutable
add_segment s e = record e { segments = e.segments ++ s ∷ [] }

unfoldable pub load_segment : Image → Phdr → Walk → Walk
unfolding bounded_range
load_segment i ph w =
    let end_address = ph.vaddr + ph.memsz in
    let file_loc = bounded_range 1 i.begin (image_end i) ph.offset ph.filesz in
    if leb (2 ^ 64) end_address || file_loc.a == 0 then w else record w {
      executable =
          add_segment (record { vbegin = ph.vaddr; vend = end_address; fbegin = file_loc.a })
            w.executable;
      load_at_zero = w.load_at_zero || ph.vaddr == 0;
    }

unfoldable pub program_header : Image → Phdr → Walk → Walk
unfolding load_segment
program_header i ph w =
    if ph.type == pt_load
    then load_segment i ph w
    else if ph.type == pt_dynamic
    then record w { dynamics = w.dynamics ++ ph ∷ [] }
    else w

unfoldable pub section_header : Shdr → Walk → Walk
section_header sh w =
    let symtabs = if sh.type == sht_symtab then w.symtabs ++ sh ∷ [] else w.symtabs in
    record w { sections = w.sections ++ sh ∷ []; symtabs = symtabs }

-- a loop over the elements of a range, each of which is read
unfoldable pub for_each {ℓ} :
    {A : Type 0} {S : Type ℓ} → (ℕ → Outcome A) → (A → S → S) → List ℕ → S → Outcome S
for_each read f [] s = ok s
for_each read f (p ∷ ps) s = do x ← read p; for_each read f ps (f x s)

unfoldable pub walk_program_headers : ElfTypes → Image → Ehdr → Walk → Outcome Walk
unfolding for_each elements program_header read_phdr bounded_range
walk_program_headers c i eh w =
    let size = size_of (phdr_layout c) in
    if eh.phentsize == size
    then for_each (read_phdr c i) (program_header i)
        (elements size (bounded_range size i.begin (image_end i) eh.phoff eh.phnum)) w
    else ok w

unfoldable pub walk_section_headers : ElfTypes → Image → Ehdr → Walk → Outcome Walk
unfolding for_each elements section_header read_shdr bounded_range
walk_section_headers c i eh w =
    let size = size_of (shdr_layout c) in
    if eh.shentsize == size
    then for_each (read_shdr c i) section_header
        (elements size (bounded_range size i.begin (image_end i) eh.shoff eh.shnum)) w
    else ok w

unfoldable pub entry_symbol : Ehdr → Walk → Walk
unfolding with_symbol
entry_symbol eh w =
    if not (eh.entry == 0) || w.load_at_zero
    then record w { executable = with_symbol eh.entry (at_address eh.entry) w.executable }
    else w

unfoldable pub walk_header : ElfTypes → Image → Outcome Walk
unfolding walk_program_headers walk_section_headers entry_symbol bounded_cast read_ehdr
walk_header c i =
    let p = bounded_cast (size_of (ehdr_layout c)) i.begin (image_end i) 0 in
    if p == 0 then ok new_walk else do
      eh ← read_ehdr c i p
      w ← walk_program_headers c i eh new_walk
      v ← walk_section_headers c i eh w
      ok (entry_symbol eh v)

-- ===== src/Executables/Ends.antt =====
-- The loops over relocations of an ELF file of 32 bits end within 2^33 rounds.
use fcd.Base.{
  ℕ, ◌+◌, ◌-◌, ◌%◌, ◌^◌, ◌≤◌, ◌<◌, ◌≡◌, refl, sym, ap, ◌∙◌, subst, true, ◌||◌, inl, inr, List, [],
  ◌∷◌, Option, none, some, ltb, ◌==◌, if◌then◌else◌, All, arith, Bool-cases,
}
use native.Mathlib.Nat.{div-le_self}
use fcd.Executables.Memory.{Outcome, Image, image_end, bounded_cast, size_of, addresses}
use fcd.Executables.Maps.{find, update}
use fcd.Executables.Layout.{elf32, Phdr, Dynamic, read_dynamic, rel_layout, rela_layout}
use fcd.Executables.Elf.{ElfExecutable, for_each, map_address}
use fcd.Executables.Parse.{
  Entries, value_of, entry_value, given, given_pointer, dynamic_entry, walk_dynamics, relocation,
  count_loop,
}
use fcd.Executables.Tables.{plt_relocations, rela_relocations, relocations}
use fcd.Executables.Gives.{if-both}
use fcd.Executables.Loops.{visit, table_length, count_loop-visit}
use fcd.Executables.Reads.{
  Ends, ends, Ends-bind, Any, are_bytes, read_dynamic-Ends, read_rel-Ends, read_sym-Ends,
  read_name-Ends,
}

pub Ends-for_each :
    {A : Type 0} {S : Type 0} (R : A → Type 0) (P : S → Type 0) (read : ℕ → Outcome A)
    (f : A → S → S) (ps : List ℕ) (s : S)
    → ((p : ℕ) → Ends R (read p))
    → ((a : A) (s : S) → R a → P s → P (f a s))
    → P s
    → Ends P (for_each read f ps s)
unfolding for_each
Ends-for_each R P read f [] s reads step h = ends s h
Ends-for_each R P read f (p ∷ ps) s reads step h =
    Ends-bind (reads p) (λ a r. Ends-for_each R P read f ps (f a s) reads step (step a s r h))

-- the values of the dynamic entries
abbrev pub AreSmall : Entries → Type 0
AreSmall es = All (λ (e : ℕ × Dynamic). e.1.value < 2 ^ 32) es

update-AreSmall :
    (tag : ℕ) (d : Dynamic) (es : Entries)
    → d.value < 2 ^ 32
    → AreSmall es
    → AreSmall (update tag d (λ _. d) es)
unfolding update
update-AreSmall tag d [] small h = (small, tt)
update-AreSmall tag d ((t, x) ∷ es) small h =
    let rest = update-AreSmall tag d es small h.1 in
    if-both AreSmall (t == tag) (small, h.1) (h.0, rest)

find-AreSmall :
    (tag : ℕ) (es : Entries) → AreSmall es → (v : ℕ) → entry_value tag es ≡ some v → v < 2 ^ 32
find-AreSmall tag [] h v q = absurd (ground arith)
find-AreSmall tag ((t, x) ∷ es) h v q = elim (Bool-cases (t == tag)) [
  | inl y ↦
      let own : some x.value ≡ some v =
        sym (ap (λ b. value_of (if b then some x else find tag es)) y) ∙ q in
      let small = h.0 in ground arith
  | inr n ↦
      find-AreSmall tag es h.1 v
        (sym (ap (λ b. value_of (if b then some x else find tag es)) n) ∙ q)
]

pub walk_dynamics-Ends :
    (i : Image) (phs : List Phdr) (es : Entries)
    → are_bytes i.bytes ≡ true
    → AreSmall es
    → Ends AreSmall (walk_dynamics elf32 i phs es)
unfolding walk_dynamics dynamic_entry
walk_dynamics-Ends i [] es bytes h = ends es h
walk_dynamics-Ends i (ph ∷ phs) es bytes h =
    Ends-bind
      (Ends-for_each (λ (d : Dynamic). d.value < 2 ^ 32) AreSmall (read_dynamic elf32 i)
        dynamic_entry _ es (λ p. read_dynamic-Ends i p bytes)
        (λ d fs small k. if-both AreSmall (ltb d.tag 34) (update-AreSmall d.tag d fs small k) k) h)
      (λ fs k. walk_dynamics-Ends i phs fs bytes k)

Ends-visit :
    {S : Type 0} (P : S → Type 0) (body : ℕ → S → Outcome S) (ps : List ℕ) (s : S)
    → ((p : ℕ) (s : S) → P s → Ends P (body p s))
    → P s
    → Ends P (visit body ps s)
unfolding visit
Ends-visit P body [] s each h = ends s h
Ends-visit P body (p ∷ ps) s each h = Ends-bind (each p s h) (λ t k. Ends-visit P body ps t each k)

Ends-count_loop :
    (body : ℕ → ElfExecutable → Outcome ElfExecutable) (size step rounds : ℕ) (e : ElfExecutable)
    → 0 < step
    → step < 2 ^ 32
    → size < 2 ^ 32
    → 2 ^ 33 ≤ rounds
    → ((p : ℕ) (e : ElfExecutable) → Ends Any (body p e))
    → Ends Any (count_loop body size step rounds 0 e)
Ends-count_loop body size step rounds e pos small_step small enough each =
    let few = div-le_self (size + (step - 1)) step in
    subst (Ends Any)
      (sym (count_loop-visit body size step rounds e pos (omega arith) (omega arith)))
      (Ends-visit Any body (addresses (table_length size step) step 0) e (λ p t _. each p t) tt)

relocation-Ends :
    (i : Image) (symtab strtab base iter : ℕ) (e : ElfExecutable)
    → are_bytes i.bytes ≡ true
    → Ends Any (relocation elf32 i symtab strtab base iter e)
unfolding relocation
relocation-Ends i symtab strtab base iter e bytes = if-both (Ends Any) _ (ends e tt) (
    Ends-bind (read_rel-Ends elf32 i _ bytes) (λ r _. if-both (Ends Any) _ (ends e tt) (
      Ends-bind (read_sym-Ends elf32 i _ bytes) (λ s _.
        let name_begin = bounded_cast 1 strtab (image_end i) s.name in
        if-both (Ends Any) (name_begin == 0) (ends e tt) (
          Ends-bind (read_name-Ends i (image_end i - name_begin) name_begin bytes) (λ name _.
            ends (record e { stub_targets = update r.offset [] (λ _. name) e.stub_targets })
              tt))))))

pub Ends-given :
    {A : Type 0} (o : Option A) (e : ElfExecutable) (f : A → Outcome ElfExecutable)
    → ((a : A) → o ≡ some a → Ends Any (f a))
    → Ends Any (given o e f)
Ends-given none e f h = ends e tt
Ends-given (some a) e f h = h a refl

Ends-given_pointer :
    (p : ℕ) (e : ElfExecutable) (f : ℕ → Outcome ElfExecutable)
    → ((q : ℕ) → Ends Any (f q))
    → Ends Any (given_pointer p e f)
Ends-given_pointer p e f h = if-both (Ends Any) (p == 0) (ends e tt) (h p)

module _ (i : Image) (rounds : ℕ) (bytes : are_bytes i.bytes ≡ true)
    (enough : 2 ^ 33 ≤ rounds) where
  plt_relocations-Ends :
      (es : Entries) (symtab strtab : ℕ) (e : ElfExecutable)
      → AreSmall es
      → Ends Any (plt_relocations rounds elf32 i es symtab strtab e)
  unfolding plt_relocations
  plt_relocations-Ends es symtab strtab e h = Ends-given (entry_value 23 es) e _ (λ jmprel _.
      Ends-given (entry_value 2 es) e _ (λ size found. Ends-given (entry_value 20 es) e _ (λ kind _.
        Ends-given_pointer (map_address e.segments jmprel) e _ (λ base.
          let step =
            if kind % 2 ^ 32 == 17
            then size_of (rel_layout elf32)
            else size_of (rela_layout elf32) in
          if-both (Ends Any) (kind % 2 ^ 32 == 17 || kind % 2 ^ 32 == 7)
            (Ends-count_loop (relocation elf32 i symtab strtab base) size step rounds e
              (ground arith) (ground arith) (find-AreSmall 2 es h size found) enough
              (λ p d. relocation-Ends i symtab strtab base p d bytes))
            (ends e tt)))))

  rela_relocations-Ends :
      (es : Entries) (symtab strtab : ℕ) (e : ElfExecutable)
      → AreSmall es
      → Ends Any (rela_relocations rounds elf32 i es symtab strtab e)
  unfolding rela_relocations
  rela_relocations-Ends es symtab strtab e h = Ends-given (entry_value 7 es) e _ (λ rela _.
      Ends-given (entry_value 8 es) e _ (λ size found. Ends-given (entry_value 9 es) e _ (λ entry _.
        if-both (Ends Any) (entry == size_of (rela_layout elf32))
          (Ends-given_pointer (map_address e.segments rela) e
            (λ base.
              count_loop (relocation elf32 i symtab strtab base) size (size_of (rela_layout elf32))
                rounds 0 e)
            (λ base.
              Ends-count_loop (relocation elf32 i symtab strtab base) size
                (size_of (rela_layout elf32)) rounds e (omega arith) (omega arith)
                (find-AreSmall 8 es h size found) enough
                (λ p d. relocation-Ends i symtab strtab base p d bytes)))
          (ends e tt))))

  pub relocations-Ends :
      (es : Entries) (e : ElfExecutable) → AreSmall es → Ends Any (relocations rounds elf32 i es e)
  unfolding relocations
  relocations-Ends es e h = Ends-given (entry_value 5 es) e _ (λ strtab_address _.
      Ends-given (entry_value 6 es) e _ (λ symtab_address _.
        Ends-given_pointer (map_address e.segments symtab_address) e _ (λ symtab.
          Ends-given_pointer (map_address e.segments strtab_address) e _ (λ strtab.
            Ends-bind (plt_relocations-Ends es symtab strtab e h)
              (λ d _. rela_relocations-Ends es symtab strtab d h)))))

-- ===== src/Executables/Headers.antt =====
-- Reading the headers of an ELF file never leaves the file, whatever its bytes are.
use fcd.Base.{
  ℕ, ◌<◌, ◌≡◌, refl, false, inl, inr, List, [], ◌∷◌, length, All, All-map, ◌==◌, arith, Bool-cases,
}
use fcd.Executables.Memory.{Outcome, ok, ◌>>=◌, Image, image_end, bounded_cast, read_field, size_of}
use fcd.Executables.Ranges.{elements-readable, bounded_cast-fits, read_field-inside}
use fcd.Executables.Layout.{
  ElfTypes, elf32, elf64, Ehdr, ehdr_layout, phdr_layout, shdr_layout, read_ehdr, read_phdr,
  read_shdr,
}
use fcd.Executables.Gives.{if-both}
use fcd.Executables.Elf.{
  Walk, new_walk, for_each, walk_program_headers, walk_section_headers, entry_symbol, walk_header,
  program_header, section_header,
}

-- the computation gives a value: it reads no byte outside of the file, and ends
abbrev pub Succeeds {ℓ} : {A : Type ℓ} → Outcome A → Type ℓ
Succeeds {A = A} o = (a : A) × (o ≡ ok a)

bind-Succeeds {ℓ κ} :
    {A : Type ℓ} {B : Type κ} (o : Outcome A) (f : A → Outcome B)
    → Succeeds o
    → ((a : A) → Succeeds (f a))
    → Succeeds (o >>= f)
bind-Succeeds o f (a, q) h = let (b, r) = h a in (b, rw q r)

-- every field of the structure at the address can be read
abbrev Readable : Image → List ℕ → ℕ → Type 0
Readable i l p = (k : ℕ) → k < length l → Succeeds (read_field i l k p)

read_phdr-Succeeds :
    (c : ElfTypes) (i : Image) (p : ℕ) → Readable i (phdr_layout c) p → Succeeds (read_phdr c i p)
unfolding read_phdr
read_phdr-Succeeds elf32 i p h =
    let (a, qa) = h 0 (omega arith) in
    let (b, qb) = h 1 (omega arith) in
    let (d, qd) = h 2 (omega arith) in
    let (e, qe) = h 4 (omega arith) in
    let (f, qf) = h 5 (omega arith) in
    (
      record { type = a; offset = b; vaddr = d; filesz = e; memsz = f },
      rw (qa, qb, qd, qe, qf) refl,
    )
read_phdr-Succeeds elf64 i p h =
    let (a, qa) = h 0 (omega arith) in
    let (b, qb) = h 2 (omega arith) in
    let (d, qd) = h 3 (omega arith) in
    let (e, qe) = h 5 (omega arith) in
    let (f, qf) = h 6 (omega arith) in
    (
      record { type = a; offset = b; vaddr = d; filesz = e; memsz = f },
      rw (qa, qb, qd, qe, qf) refl,
    )

shdr-length : (c : ElfTypes) → length (shdr_layout c) ≡ 10
shdr-length elf32 = refl
shdr-length elf64 = refl

read_shdr-Succeeds :
    (c : ElfTypes) (i : Image) (p : ℕ) → Readable i (shdr_layout c) p → Succeeds (read_shdr c i p)
unfolding read_shdr
read_shdr-Succeeds c i p h =
    let ten = shdr-length c in
    let (a, qa) = h 1 (omega arith) in
    let (b, qb) = h 4 (omega arith) in
    let (d, qd) = h 5 (omega arith) in
    let (e, qe) = h 6 (omega arith) in
    let (f, qf) = h 9 (omega arith) in
    (record { type = a; offset = b; size = d; link = e; entsize = f }, rw (qa, qb, qd, qe, qf) refl)

read_ehdr-Succeeds :
    (c : ElfTypes) (i : Image) (p : ℕ) → Readable i (ehdr_layout c) p → Succeeds (read_ehdr c i p)
unfolding read_ehdr
read_ehdr-Succeeds c i p h =
    let (a, qa) = h 2 (omega arith) in
    let (b, qb) = h 4 (omega arith) in
    let (d, qd) = h 5 (omega arith) in
    let (e, qe) = h 6 (omega arith) in
    let (f, qf) = h 9 (omega arith) in
    let (g, qg) = h 10 (omega arith) in
    let (j, qj) = h 11 (omega arith) in
    let (k, qk) = h 12 (omega arith) in
    (
      record {
        machine = a;
        entry = b;
        phoff = d;
        shoff = e;
        phentsize = f;
        phnum = g;
        shentsize = j;
        shnum = k;
      },
      rw (qa, qb, qd, qe, qf, qg, qj, qk) refl,
    )

for_each-Succeeds {ℓ} :
    {A : Type 0} {S : Type ℓ} (read : ℕ → Outcome A) (f : A → S → S) (ps : List ℕ) (s : S)
    → All (λ p. Succeeds (read p)) ps
    → Succeeds (for_each read f ps s)
unfolding for_each
for_each-Succeeds read f [] s h = (s, refl)
for_each-Succeeds read f (p ∷ ps) s h =
    let (a, q) = h.0 in let (t, r) = for_each-Succeeds read f ps (f a s) h.1 in (t, rw q r)

phdr-size : (c : ElfTypes) → 0 < size_of (phdr_layout c)
phdr-size elf32 = omega arith
phdr-size elf64 = omega arith

shdr-size : (c : ElfTypes) → 0 < size_of (shdr_layout c)
shdr-size elf32 = omega arith
shdr-size elf64 = omega arith

walk_program_headers-Succeeds :
    (c : ElfTypes) (i : Image) (eh : Ehdr) (w : Walk) → Succeeds (walk_program_headers c i eh w)
unfolding walk_program_headers
walk_program_headers-Succeeds c i eh w =
    if-both Succeeds (eh.phentsize == size_of (phdr_layout c))
      (for_each-Succeeds (read_phdr c i) (program_header i) _ w (
        All-map _ _ _ (λ p h. read_phdr-Succeeds c i p h)
          (elements-readable i (phdr_layout c) eh.phoff eh.phnum (phdr-size c)).1))
      (w, refl)

walk_section_headers-Succeeds :
    (c : ElfTypes) (i : Image) (eh : Ehdr) (w : Walk) → Succeeds (walk_section_headers c i eh w)
unfolding walk_section_headers
walk_section_headers-Succeeds c i eh w =
    if-both Succeeds (eh.shentsize == size_of (shdr_layout c))
      (for_each-Succeeds (read_shdr c i) section_header _ w (
        All-map _ _ _ (λ p h. read_shdr-Succeeds c i p h)
          (elements-readable i (shdr_layout c) eh.shoff eh.shnum (shdr-size c)).1))
      (w, refl)

ehdr-size : (c : ElfTypes) → size_of (ehdr_layout c) < 65
ehdr-size elf32 = omega arith
ehdr-size elf64 = omega arith

-- `bounded_cast` of a whole structure gives null or a readable one.
cast-Readable :
    (i : Image) (l : List ℕ)
    → size_of l < 65
    → (bounded_cast (size_of l) i.begin (image_end i) 0 == 0) ≡ false
    → Readable i l (bounded_cast (size_of l) i.begin (image_end i) 0)
cast-Readable i l small q k h =
    let there = bounded_cast-fits (size_of l) i.begin (image_end i) 0 (omega arith) (omega arith) in
    read_field-inside i l k (bounded_cast (size_of l) i.begin (image_end i) 0) h (ground arith)
      (ground arith)

-- The walk over the header, the program headers and the section headers of a file gives a result
-- for all bytes of the file: it reads nothing outside of the file, and it ends.
pub walk_header-Succeeds : (c : ElfTypes) (i : Image) → (w : Walk) × (walk_header c i ≡ ok w)
unfolding walk_header
walk_header-Succeeds c i =
    elim (Bool-cases (bounded_cast (size_of (ehdr_layout c)) i.begin (image_end i) 0 == 0)) [
      | inl q ↦ (new_walk, rw (q, walk_header) refl)
      | inr q ↦
          let (eh, qe) =
            read_ehdr-Succeeds c i _ (cast-Readable i (ehdr_layout c) (ehdr-size c) q) in
          let (w, qw) = walk_program_headers-Succeeds c i eh new_walk in
          let (v, qv) = walk_section_headers-Succeeds c i eh w in
          (entry_symbol eh v, rw (q, qe, qw, qv, walk_header) refl)
    ]

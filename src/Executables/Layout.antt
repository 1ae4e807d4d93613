-- ===== src/Executables/Layout.antt =====
-- The constants and structures of fcd/executables/elf_executable.cpp. A structure is the list of the
-- widths of its fields in their order; the records hold the fields that the parser reads.
use fcd.Base.{ℕ, ◌/◌, ◌%◌, ◌^◌, List, [], ◌∷◌}
use fcd.Executables.Memory.{Outcome, ok, ◌>>=◌, Image, read_field}

abbrev pub ei_class : ℕ
ei_class = 4

abbrev pub ei_data : ℕ
ei_data = 5

abbrev pub ei_osabi : ℕ
ei_osabi = 7

abbrev pub elfdata_2lsb : ℕ
elfdata_2lsb = 1

abbrev pub elfdata_2msb : ℕ
elfdata_2msb = 2

abbrev pub pt_load : ℕ
pt_load = 1

abbrev pub pt_dynamic : ℕ
pt_dynamic = 2

abbrev pub sht_symtab : ℕ
sht_symtab = 2

abbrev pub sht_strtab : ℕ
sht_strtab = 3

abbrev pub stt_func : ℕ
stt_func = 2

-- `Elf32Types` and `Elf64Types`
pub data ElfTypes : Type 0 where
  elf32 : ElfTypes
  elf64 : ElfTypes

abbrev pub addr_width : ElfTypes → ℕ
addr_width elf32 = 4
addr_width elf64 = 8

abbrev pub ehdr_layout : ElfTypes → List ℕ
ehdr_layout c =
    16 ∷ 2 ∷ 2 ∷ 4 ∷ addr_width c ∷ addr_width c ∷ addr_width c ∷ 4 ∷ 2 ∷ 2 ∷ 2 ∷ 2 ∷ 2 ∷ 2 ∷ []

abbrev pub phdr_layout : ElfTypes → List ℕ
phdr_layout elf32 = 4 ∷ 4 ∷ 4 ∷ 4 ∷ 4 ∷ 4 ∷ 4 ∷ 4 ∷ []
phdr_layout elf64 = 4 ∷ 4 ∷ 8 ∷ 8 ∷ 8 ∷ 8 ∷ 8 ∷ 8 ∷ []

abbrev pub shdr_layout : ElfTypes → List ℕ
shdr_layout elf32 = 4 ∷ 4 ∷ 4 ∷ 4 ∷ 4 ∷ 4 ∷ 4 ∷ 4 ∷ 4 ∷ 4 ∷ []
shdr_layout elf64 = 4 ∷ 4 ∷ 8 ∷ 8 ∷ 8 ∷ 8 ∷ 4 ∷ 4 ∷ 8 ∷ 8 ∷ []

abbrev pub sym_layout : ElfTypes → List ℕ
sym_layout elf32 = 4 ∷ 4 ∷ 4 ∷ 1 ∷ 1 ∷ 2 ∷ []
sym_layout elf64 = 4 ∷ 1 ∷ 1 ∷ 2 ∷ 8 ∷ 8 ∷ []

abbrev pub dynamic_layout : ElfTypes → List ℕ
dynamic_layout c = addr_width c ∷ addr_width c ∷ []

abbrev pub rel_layout : ElfTypes → List ℕ
rel_layout c = addr_width c ∷ addr_width c ∷ []

abbrev pub rela_layout : ElfTypes → List ℕ
rela_layout c = addr_width c ∷ addr_width c ∷ addr_width c ∷ []

pub record Ehdr : Type 0 where
  pub machine : ℕ
  pub entry : ℕ
  pub phoff : ℕ
  pub shoff : ℕ
  pub phentsize : ℕ
  pub phnum : ℕ
  pub shentsize : ℕ
  pub shnum : ℕ

pub record Phdr : Type 0 where
  pub type : ℕ
  pub offset : ℕ
  pub vaddr : ℕ
  pub filesz : ℕ
  pub memsz : ℕ

pub record Shdr : Type 0 where
  pub type : ℕ
  pub offset : ℕ
  pub size : ℕ
  pub link : ℕ
  pub entsize : ℕ

pub record Sym : Type 0 where
  pub name : ℕ
  pub info : ℕ
  pub value : ℕ

pub record Dynamic : Type 0 where
  pub tag : ℕ
  pub value : ℕ

pub record Rel : Type 0 where
  pub offset : ℕ
  pub info : ℕ

unfoldable pub read_ehdr : ElfTypes → Image → ℕ → Outcome Ehdr
unfolding read_field
read_ehdr c i p = do
  machine ← read_field i (ehdr_layout c) 2 p
  entry ← read_field i (ehdr_layout c) 4 p
  phoff ← read_field i (ehdr_layout c) 5 p
  shoff ← read_field i (ehdr_layout c) 6 p
  phentsize ← read_field i (ehdr_layout c) 9 p
  phnum ← read_field i (ehdr_layout c) 10 p
  shentsize ← read_field i (ehdr_layout c) 11 p
  shnum ← read_field i (ehdr_layout c) 12 p
  ok (record {
    machine = machine;
    entry = entry;
    phoff = phoff;
    shoff = shoff;
    phentsize = phentsize;
    phnum = phnum;
    shentsize = shentsize;
    shnum = shnum;
  })

-- the numbers of the fields type, offset, vaddr, filesz and memsz
abbrev pub phdr_fields : ElfTypes → ℕ × ℕ × ℕ × ℕ × ℕ
phdr_fields elf32 = (0, 1, 2, 4, 5)
phdr_fields elf64 = (0, 2, 3, 5, 6)

unfoldable pub read_phdr : ElfTypes → Image → ℕ → Outcome Phdr
unfolding read_field
read_phdr c i p = do
  let (k0, k1, k2, k3, k4) = phdr_fields c
  type ← read_field i (phdr_layout c) k0 p
  offset ← read_field i (phdr_layout c) k1 p
  vaddr ← read_field i (phdr_layout c) k2 p
  filesz ← read_field i (phdr_layout c) k3 p
  memsz ← read_field i (phdr_layout c) k4 p
  ok (record { type = type; offset = offset; vaddr = vaddr; filesz = filesz; memsz = memsz })

unfoldable pub read_shdr : ElfTypes → Image → ℕ → Outcome Shdr
unfolding read_field
read_shdr c i p = do
  type ← read_field i (shdr_layout c) 1 p
  offset ← read_field i (shdr_layout c) 4 p
  size ← read_field i (shdr_layout c) 5 p
  link ← read_field i (shdr_layout c) 6 p
  entsize ← read_field i (shdr_layout c) 9 p
  ok (record { type = type; offset = offset; size = size; link = link; entsize = entsize })

-- the numbers of the fields name, info and value
abbrev pub sym_fields : ElfTypes → ℕ × ℕ × ℕ
sym_fields elf32 = (0, 3, 1)
sym_fields elf64 = (0, 1, 4)

unfoldable pub read_sym : ElfTypes → Image → ℕ → Outcome Sym
unfolding read_field
read_sym c i p = do
  let (k0, k1, k2) = sym_fields c
  name ← read_field i (sym_layout c) k0 p
  info ← read_field i (sym_layout c) k1 p
  value ← read_field i (sym_layout c) k2 p
  ok (record { name = name; info = info; value = value })

unfoldable pub read_dynamic : ElfTypes → Image → ℕ → Outcome Dynamic
unfolding read_field
read_dynamic c i p = do
  tag ← read_field i (dynamic_layout c) 0 p
  value ← read_field i (dynamic_layout c) 1 p
  ok (record { tag = tag; value = value })

unfoldable pub read_rel : ElfTypes → Image → ℕ → Outcome Rel
unfolding read_field
read_rel c i p = do
  offset ← read_field i (rel_layout c) 0 p
  info ← read_field i (rel_layout c) 1 p
  ok (record { offset = offset; info = info })

-- `Elf_Rel::symbol`
unfoldable pub rel_symbol : ElfTypes → Rel → ℕ
rel_symbol elf32 r = r.info / 2 ^ 8
rel_symbol elf64 r = r.info / 2 ^ 32 % 2 ^ 32

-- ===== src/Executables/Factory.antt =====
-- The whole of `ElfExecutable::parse`, the factories of fcd/executables/elf_executable.cpp,
-- executable.cpp and flat_binary.cpp, and the errors of executable_errors.h and executable_errors.cpp.
use Prim.Native.String.{String}
use fcd.Base.{
  ℕ, ◌+◌, ◌-◌, ◌%◌, ◌^◌, Bool, true, false, ◌&&◌, List, [], ◌∷◌, length, get_elem?, Option, some,
  ltb, leb, ◌==◌, if◌then◌else◌,
}
use fcd.Executables.Symbols.{Executable, get_visible_entry_points, same_bytes}
use fcd.Executables.Memory.{
  Outcome, ok, failed, ◌>>=◌, Image, image_end, bounded_cast, read_byte, read_bytes, size_of,
}
use fcd.Executables.Layout.{
  ElfTypes, ehdr_layout, elf32, elf64, ei_class, ei_data, elfdata_2lsb, elfdata_2msb,
}
use fcd.Executables.Elf.{ElfExecutable, Walk, walk_header}
use fcd.Executables.Parse.{Entries, walk_dynamics, entry_array, init_fini}
use fcd.Executables.Tables.{relocations, walk_symtabs, erase_unmapped}

-- "preinit_", "init_", "fini_", "init" and "fini"
abbrev pub preinit_prefix : List ℕ
preinit_prefix = 112 ∷ 114 ∷ 101 ∷ 105 ∷ 110 ∷ 105 ∷ 116 ∷ 95 ∷ []

abbrev pub init_name : List ℕ
init_name = 105 ∷ 110 ∷ 105 ∷ 116 ∷ []

abbrev pub init_prefix : List ℕ
init_prefix = 105 ∷ 110 ∷ 105 ∷ 116 ∷ 95 ∷ []

abbrev pub fini_name : List ℕ
fini_name = 102 ∷ 105 ∷ 110 ∷ 105 ∷ []

abbrev pub fini_prefix : List ℕ
fini_prefix = 102 ∷ 105 ∷ 110 ∷ 105 ∷ 95 ∷ []

unfoldable pub parse_dynamics :
    (show : ℕ → List ℕ) → ElfTypes → Image → Entries → ElfExecutable → Outcome ElfExecutable
unfolding entry_array init_fini
parse_dynamics show c i es e = do
  e1 ← entry_array show c i es (32, 33, preinit_prefix) e
  e2 ← entry_array show c i es (25, 27, init_prefix) e1
  e3 ← entry_array show c i es (26, 28, fini_prefix) e2
  ok (init_fini es (13, fini_name) (init_fini es (12, init_name) e3))

unfoldable pub parse_tables :
    (show : ℕ → List ℕ) (rounds : ℕ) → ElfTypes → Image → Walk → Outcome ElfExecutable
unfolding walk_dynamics parse_dynamics relocations walk_symtabs
parse_tables show rounds c i w = do
  es ← walk_dynamics c i w.dynamics []
  e1 ← parse_dynamics show c i es w.executable
  e2 ← relocations rounds c i es e1
  walk_symtabs c i w.sections w.symtabs e2

-- the part that the class inherits
abbrev pub base_of : ElfExecutable → Executable
base_of e = record { symbols = e.symbols; stub_targets = []; libraries = [] }

-- what the constructor asserts, of `sizeof(Elf_Ehdr)`
abbrev pub has_header : ElfTypes → Image → Bool
has_header c i = leb (size_of (ehdr_layout c)) (length i.bytes)

-- `parse` after the construction
unfoldable pub parse_file :
    (show : ℕ → List ℕ) (rounds : ℕ) → ElfTypes → Image → Outcome ElfExecutable
unfolding walk_header parse_tables erase_unmapped get_visible_entry_points
parse_file show rounds c i = do
  w ← walk_header c i
  e ← parse_tables show rounds c i w
  ok (erase_unmapped (get_visible_entry_points (base_of e)) e)

unfoldable pub parse : (show : ℕ → List ℕ) (rounds : ℕ) → ElfTypes → Image → Outcome ElfExecutable
unfolding parse_file
parse show rounds c i = if has_header c i then parse_file show rounds c i else failed

pub data ExecutableParsingError : Type 0 where
  generic_no_error : ExecutableParsingError
  generic_unknown_format : ExecutableParsingError
  elf_corrupted : ExecutableParsingError
  elf_endian_mismatch : ExecutableParsingError
  flat_bin_entry_point_out_of_range : ExecutableParsingError

pub data ErrorOr (A : Type 0) : Type 0 where
  value : A → ErrorOr A
  error : ExecutableParsingError → ErrorOr A

abbrev pub as_value : {A : Type 0} → Outcome A → Outcome (ErrorOr A)
as_value o = do a ← o; ok (value a)

abbrev pub host_endian : Image → ℕ
host_endian i = if i.host_is_big_endian then elfdata_2msb else elfdata_2lsb

-- the switch on the class
unfoldable pub parse_class :
    (show : ℕ → List ℕ) (rounds : ℕ) → Image → (class : ℕ) → Outcome (ErrorOr ElfExecutable)
unfolding parse
parse_class show rounds i class = elim (class == 1) [
  | true ↦ as_value (parse show rounds elf32 i)
  | false ↦ elim (class == 2) [
    | true ↦ as_value (parse show rounds elf64 i)
    | false ↦ ok (error elf_corrupted)
  ]
]

-- the checks after the byte of the endianness
unfoldable pub parse_endian :
    (show : ℕ → List ℕ) (rounds : ℕ) → Image → (endian : ℕ) → Outcome (ErrorOr ElfExecutable)
unfolding bounded_cast read_byte parse_class
parse_endian show rounds i endian =
    let class_byte = bounded_cast 1 i.begin (image_end i) ei_class in
    elim (endian == host_endian i) [
      | false ↦ ok (error elf_endian_mismatch)
      | true ↦
          if class_byte == 0
          then ok (error elf_corrupted)
          else read_byte i class_byte >>= parse_class show rounds i
    ]

-- `ElfExecutableFactory::parse`
unfoldable pub elf_parse :
    (show : ℕ → List ℕ) (rounds : ℕ) → Image → Outcome (ErrorOr ElfExecutable)
unfolding bounded_cast read_byte parse_endian
elf_parse show rounds i =
    let endian_byte = bounded_cast 1 i.begin (image_end i) ei_data in
    if endian_byte == 0
    then ok (error elf_corrupted)
    else read_byte i endian_byte >>= parse_endian show rounds i

abbrev pub elf_magic : List ℕ
elf_magic = 127 ∷ 69 ∷ 76 ∷ 70 ∷ []

unfoldable pub parse_magic :
    (show : ℕ → List ℕ) (rounds : ℕ) → Image → (magic : List ℕ) → Outcome (ErrorOr ElfExecutable)
unfolding elf_parse
parse_magic show rounds i magic = elim (same_bytes magic elf_magic) [
  | true ↦ elf_parse show rounds i
  | false ↦ ok (error generic_unknown_format)
]

-- `AutoExecutableFactory::parse`
unfoldable pub auto_parse :
    (show : ℕ → List ℕ) (rounds : ℕ) → Image → Outcome (ErrorOr ElfExecutable)
unfolding read_bytes parse_magic
auto_parse show rounds i =
    if leb 4 (length i.bytes)
    then read_bytes i 4 i.begin >>= parse_magic show rounds i
    else ok (error generic_unknown_format)

-- `FlatBinary::map`
unfoldable pub flat_map : Image → (base_address a : ℕ) → ℕ
flat_map i base_address a =
    if leb base_address a && ltb a ((base_address + length i.bytes) % 2 ^ 64)
    then i.begin + (a - base_address)
    else 0

abbrev pub condition : ExecutableParsingError → ℕ
condition generic_no_error = 0
condition generic_unknown_format = 1
condition elf_corrupted = 2
condition elf_endian_mismatch = 3
condition flat_bin_entry_point_out_of_range = 4

abbrev pub message_table : List String
message_table =
    "no error" ∷ "unknown executable format (see --help for supported formats)"
    ∷ "ELF file fatally corrupted" ∷ "fixme: ELF parser requires executable to use host endianness"
    ∷ "entry address points outside of program memory" ∷ []

-- `ExecutableParsingErrorCategory::message`
unfoldable pub message : ℕ → Option String
message condition =
    if leb 5 condition then some "unknown error" else get_elem? message_table condition

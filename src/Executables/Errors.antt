-- ===== src/Executables/Errors.antt =====
-- Which files the factories accept, and the errors for the others.
use fcd.Base.{
  ℕ, ◌+◌, ◌-◌, ◌<◌, ◌≡◌, refl, ap, ◌∙◌, Bool, true, false, ◌&&◌, inl, inr, ◌⊎◌, List, [], ◌∷◌,
  length, get_elem?, ltb, leb, ◌==◌, if◌then◌else◌, arith, Bool-cases,
}
use fcd.Executables.Memory.{
  Outcome, ok, failed, Image, image_end, bounded_cast, read_byte, read_bytes, present,
}
use fcd.Executables.Ranges.{bounded_cast-fits}
use fcd.Executables.Layout.{ElfTypes, elf32, elf64}
use fcd.Executables.Elf.{ElfExecutable}
use fcd.Executables.Factory.{
  ErrorOr, error, ExecutableParsingError, elf_corrupted, elf_endian_mismatch,
  generic_unknown_format, host_endian, as_value, parse_file, parse, parse_class, parse_endian,
  parse_magic, elf_parse, auto_parse,
}

-- What a file is by its first bytes: an ELF file of a class, or an error
abbrev pub classify : (host_endian : ℕ) → List ℕ → ExecutableParsingError ⊎ ElfTypes
classify host (_ ∷ _ ∷ _ ∷ _ ∷ class ∷ endian ∷ _) =
    if endian == host
    then (if class == 1 then inr elf32 else if class == 2 then inr elf64 else inl elf_corrupted)
    else inl elf_endian_mismatch
classify host _ = inl elf_corrupted

-- the bytes of the header
abbrev pub header_size : ElfTypes → ℕ
header_size elf32 = 52
header_size elf64 = 64

abbrev pub parse_as :
    (show : ℕ → List ℕ) (rounds : ℕ)
    → Image
    → ExecutableParsingError ⊎ ElfTypes
    → Outcome (ErrorOr ElfExecutable)
parse_as show rounds i (inl e) = ok (error e)
parse_as show rounds i (inr c) =
    if ltb (length i.bytes) (header_size c) then failed else as_value (parse_file show rounds c i)

read_byte-present : (i : Image) (k : ℕ) → read_byte i (i.begin + k) ≡ present (get_elem? i.bytes k)
unfolding read_byte
read_byte-present i k =
    let over : ltb (i.begin + k) i.begin ≡ false = ground arith in
    let offset : i.begin + k - i.begin ≡ k = omega arith in rw (over, offset) refl

cast_byte :
    (i : Image) (k : ℕ)
    → k < 6
    → bounded_cast 1 i.begin (image_end i) k ≡ (if ltb k (length i.bytes) then i.begin + k else 0)
cast_byte i k small =
    bounded_cast-fits 1 i.begin (image_end i) k (omega arith) (omega arith) ∙ ground arith

module _ (show : ℕ → List ℕ) (rounds begin : ℕ) (big : Bool) where
  abbrev file : List ℕ → Image
  file bytes = record { begin = begin; bytes = bytes; host_is_big_endian = big }

  as_value-parse :
      (i : Image) (c : ElfTypes) → as_value (parse show rounds c i) ≡ parse_as show rounds i (inr c)
  unfolding parse
  as_value-parse i elf32 = elim (Bool-cases (leb 52 (length i.bytes))) [
    | inl q ↦ let long : ltb (length i.bytes) 52 ≡ false = ground arith in rw (q, long) refl
    | inr q ↦ let short : ltb (length i.bytes) 52 ≡ true = ground arith in rw (q, short) refl
  ]
  as_value-parse i elf64 = elim (Bool-cases (leb 64 (length i.bytes))) [
    | inl q ↦ let long : ltb (length i.bytes) 64 ≡ false = ground arith in rw (q, long) refl
    | inr q ↦ let short : ltb (length i.bytes) 64 ≡ true = ground arith in rw (q, short) refl
  ]

  parse_class-classify :
      (i : Image) (class : ℕ)
      → parse_class show rounds i class
        ≡ parse_as show rounds i
            (if class == 1 then inr elf32 else if class == 2 then inr elf64 else inl elf_corrupted)
  unfolding parse_class
  parse_class-classify i class = elim (Bool-cases (class == 1)) [
    | inl x ↦ rw (x, parse_class) (as_value-parse i elf32)
    | inr x ↦ elim (Bool-cases (class == 2)) [
      | inl y ↦ rw (x, y, parse_class) (as_value-parse i elf64)
      | inr y ↦ rw (x, y, parse_class) refl
    ]
  ]

  elf_parse-long :
      (a b c d class endian : ℕ) (rest : List ℕ)
      → 0 < begin
      → elf_parse show rounds (file (a ∷ b ∷ c ∷ d ∷ class ∷ endian ∷ rest))
        ≡ parse_as show rounds
            (file (a ∷ b ∷ c ∷ d ∷ class ∷ endian ∷ rest))
            (classify (host_endian (file [])) (a ∷ b ∷ c ∷ d ∷ class ∷ endian ∷ rest))
  unfolding elf_parse parse_endian
  elf_parse-long a b c d class endian rest pos =
      let i = file (a ∷ b ∷ c ∷ d ∷ class ∷ endian ∷ rest) in
      let five : bounded_cast 1 begin (image_end i) 5 ≡ begin + 5 =
        cast_byte i 5 (omega arith) ∙ ground arith in
      let four : bounded_cast 1 begin (image_end i) 4 ≡ begin + 4 =
        cast_byte i 4 (omega arith) ∙ ground arith in
      let endian_byte : read_byte i (begin + 5) ≡ ok endian = read_byte-present i 5 in
      let class_byte : read_byte i (begin + 4) ≡ ok class = read_byte-present i 4 in
      let some_five : (begin + 5 == 0) ≡ false = ground arith in
      let some_four : (begin + 4 == 0) ≡ false = ground arith in
      rw (five, some_five, endian_byte, elf_parse)
        (elim (Bool-cases (endian == host_endian i)) [
          | inr q ↦ rw (q, parse_endian) refl
          | inl q ↦ rw (q, four, some_four, class_byte, parse_endian) (parse_class-classify i class)
        ])

  elf_parse-short :
      (bytes : List ℕ)
      → length bytes < 6
      → elf_parse show rounds (file bytes) ≡ ok (error elf_corrupted)
  unfolding elf_parse
  elf_parse-short bytes short =
      let none_there : bounded_cast 1 begin (image_end (file bytes)) 5 ≡ 0 =
        cast_byte (file bytes) 5 (omega arith) ∙ ground arith in
      rw (none_there, elf_parse) refl

  elf_parse-classify :
      (bytes : List ℕ)
      → 0 < begin
      → elf_parse show rounds (file bytes)
        ≡ parse_as show rounds (file bytes) (classify (host_endian (file [])) bytes)
  elf_parse-classify [] pos = elf_parse-short [] (omega arith)
  elf_parse-classify (a ∷ []) pos = elf_parse-short (a ∷ []) (omega arith)
  elf_parse-classify (a ∷ b ∷ []) pos = elf_parse-short (a ∷ b ∷ []) (omega arith)
  elf_parse-classify (a ∷ b ∷ c ∷ []) pos = elf_parse-short (a ∷ b ∷ c ∷ []) (omega arith)
  elf_parse-classify (a ∷ b ∷ c ∷ d ∷ []) pos = elf_parse-short (a ∷ b ∷ c ∷ d ∷ []) (omega arith)
  elf_parse-classify (a ∷ b ∷ c ∷ d ∷ e ∷ []) pos =
      elf_parse-short (a ∷ b ∷ c ∷ d ∷ e ∷ []) (omega arith)
  elf_parse-classify (a ∷ b ∷ c ∷ d ∷ class ∷ endian ∷ rest) pos =
      elf_parse-long a b c d class endian rest pos

  read_bytes-four :
      (a b c d : ℕ) (rest : List ℕ)
      → read_bytes (file (a ∷ b ∷ c ∷ d ∷ rest)) 4 begin ≡ ok (a ∷ b ∷ c ∷ d ∷ [])
  unfolding read_bytes
  read_bytes-four a b c d rest =
      let i = file (a ∷ b ∷ c ∷ d ∷ rest) in
      let zeroth : read_byte i begin ≡ ok a =
        ap (read_byte i) (omega arith) ∙ read_byte-present i 0 in
      let first : read_byte i (begin + 1) ≡ ok b = read_byte-present i 1 in
      let second : read_byte i (begin + 1 + 1) ≡ ok c =
        ap (read_byte i) (omega arith) ∙ read_byte-present i 2 in
      let third : read_byte i (begin + 1 + 1 + 1) ≡ ok d =
        ap (read_byte i) (omega arith) ∙ read_byte-present i 3 in
      rw (zeroth, first, second, third) refl

  -- what the first four bytes must be: 0x7f and the letters ELF
  abbrev pub has_magic : List ℕ → Bool
  has_magic (a ∷ b ∷ c ∷ d ∷ _) = a == 127 && (b == 69 && (c == 76 && (d == 70 && true)))
  has_magic _ = false

  -- `AutoExecutableFactory::parse` says that a file without the four bytes of ELF is of an unknown
  -- format. Of the others it says that a file of less than six bytes is corrupted; that it has the
  -- wrong endianness if its sixth byte does not name the host's; that it is corrupted if its fifth byte
  -- is neither 1 nor 2; that the assertion of the constructor fails if the file is shorter than the
  -- header of that class, 52 or 64 bytes; and otherwise it walks the file at that class. The file must
  -- stand at an address that is not null.
  pub auto_parse-classify :
      (bytes : List ℕ)
      → 0 < begin
      → auto_parse show rounds (file bytes) ≡ (
          if has_magic bytes
          then parse_as show rounds (file bytes) (classify (host_endian (file [])) bytes)
          else ok (error generic_unknown_format))
  unfolding auto_parse parse_magic
  auto_parse-classify [] pos = refl
  auto_parse-classify (a ∷ []) pos = refl
  auto_parse-classify (a ∷ b ∷ []) pos = refl
  auto_parse-classify (a ∷ b ∷ c ∷ []) pos = refl
  auto_parse-classify (a ∷ b ∷ c ∷ d ∷ rest) pos =
      let long : leb 4 (length (a ∷ b ∷ c ∷ d ∷ rest)) ≡ true = ground arith in
      rw (long, read_bytes-four a b c d rest, auto_parse)
        (elim (Bool-cases (has_magic (a ∷ b ∷ c ∷ d ∷ rest))) [
          | inl q ↦ rw (q, parse_magic) (elf_parse-classify (a ∷ b ∷ c ∷ d ∷ rest) pos)
          | inr q ↦ rw (q, parse_magic) refl
        ])

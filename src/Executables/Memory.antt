-- ===== src/Executables/Memory.antt =====
-- The bytes of an executable in memory, and `bounded_cast` of fcd/executables/elf_executable.cpp.
-- Pointers are 64-bit addresses and null is 0; the file stands from `begin` on. A read outside of
-- the file is `wild`, a failed assertion is `failed`, a loop that runs out of rounds is `unfinished`.
use fcd.Base.{
  ℕ, zero, suc, ◌+◌, ◌-◌, ◌*◌, ◌/◌, ◌^◌, Bool, ◌||◌, List, [], ◌∷◌, ◌++◌, length, get_elem?, Option,
  none, some, ltb, leb, if◌then◌else◌,
}

pub data Outcome {ℓ} (A : Type ℓ) : Type ℓ where
  ok : A → Outcome A
  wild : Outcome A
  failed : Outcome A
  unfinished : Outcome A

infixl 5 ◌>>=◌
abbrev pub ◌>>=◌ {ℓ κ} : {A : Type ℓ} {B : Type κ} → Outcome A → (A → Outcome B) → Outcome B
ok a >>= f = f a
wild >>= f = wild
failed >>= f = failed
unfinished >>= f = unfinished

pub record Image : Type 0 where
  pub begin : ℕ
  pub bytes : List ℕ
  pub host_is_big_endian : Bool

abbrev pub image_end : Image → ℕ
image_end i = i.begin + length i.bytes

abbrev pub present : Option ℕ → Outcome ℕ
present (some b) = ok b
present none = wild

unfoldable pub read_byte : Image → ℕ → Outcome ℕ
read_byte i p = if ltb p i.begin then wild else present (get_elem? i.bytes (p - i.begin))

unfoldable pub read_bytes : Image → (count : ℕ) → ℕ → Outcome (List ℕ)
unfolding read_byte
read_bytes i zero p = ok []
read_bytes i (suc n) p = do b ← read_byte i p; bs ← read_bytes i n (p + 1); ok (b ∷ bs)

abbrev pub little_endian : List ℕ → ℕ
little_endian [] = 0
little_endian (b ∷ bs) = b + 256 * little_endian bs

abbrev pub reversed : List ℕ → List ℕ
reversed [] = []
reversed (b ∷ bs) = reversed bs ++ b ∷ []

-- A number of some bytes, in the order of the host
unfoldable pub read_number : Image → (width : ℕ) → ℕ → Outcome ℕ
unfolding read_bytes
read_number i width p = do
  bs ← read_bytes i width p
  ok (little_endian (if i.host_is_big_endian then reversed bs else bs))

-- `bounded_cast<T>(begin, end, offset)`, where `size` is `sizeof(T)`
unfoldable pub bounded_cast : (size begin end offset : ℕ) → ℕ
bounded_cast size begin end offset =
    if leb (2 ^ 64) (offset + size) || ltb end begin || ltb (end - begin) (offset + size)
    then 0
    else begin + offset

pub record PtrRange : Type 0 where
  pub a : ℕ
  pub z : ℕ

abbrev pub ptr_range : ℕ → ℕ → PtrRange
ptr_range p q = record { a = p; z = q }

-- `bounded_cast<T>(begin, end, offset, count)`
unfoldable pub bounded_range : (size begin end offset count : ℕ) → PtrRange
bounded_range size begin end offset count =
    if leb (2 ^ 64) (count * size)
      || leb (2 ^ 64) (offset + count * size)
      || ltb end begin
      || ltb (end - begin) (offset + count * size)
    then ptr_range 0 0
    else ptr_range (begin + offset) (begin + (offset + count * size))

abbrev pub addresses : (count size p : ℕ) → List ℕ
addresses zero size p = []
addresses (suc n) size p = p ∷ addresses n size (p + size)

-- the pointers that a loop over the range visits
unfoldable pub elements : (size : ℕ) → PtrRange → List ℕ
elements size r = addresses ((r.z - r.a) / size) size r.a

unfoldable pub each {ℓ} : {A : Type ℓ} → (ℕ → Outcome A) → List ℕ → Outcome (List A)
each f [] = ok []
each f (p ∷ ps) = do x ← f p; xs ← each f ps; ok (x ∷ xs)

-- A structure is the list of the widths of its fields; none of them has padding.
abbrev pub size_of : List ℕ → ℕ
size_of [] = 0
size_of (w ∷ ws) = w + size_of ws

abbrev pub width_of : List ℕ → ℕ → ℕ
width_of [] k = 0
width_of (w ∷ ws) zero = w
width_of (w ∷ ws) (suc k) = width_of ws k

abbrev pub offset_of : List ℕ → ℕ → ℕ
offset_of [] k = 0
offset_of (w ∷ ws) zero = 0
offset_of (w ∷ ws) (suc k) = w + offset_of ws k

unfoldable pub read_field : Image → (layout : List ℕ) → (field p : ℕ) → Outcome ℕ
unfolding read_number
read_field i layout field p = read_number i (width_of layout field) (p + offset_of layout field)

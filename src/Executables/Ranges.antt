-- ===== src/Executables/Ranges.antt =====
-- What `bounded_cast` gives lies in the file.
use fcd.Base.{
  ℕ, zero, suc, ◌+◌, ◌-◌, ◌*◌, ◌/◌, ◌^◌, ◌≤◌, ◌<◌, ◌≡◌, refl, ap, ◌∙◌, Bool, false, not, ◌&&◌, inl,
  inr, List, [], ◌∷◌, length, get_elem?, some, ltb, leb, if◌then◌else◌, All, All-map, arith,
  Bool-cases,
}
use native.Mathlib.Nat.{mul-div_cancel, zero-div}
use fcd.Executables.Memory.{
  ok, Image, image_end, read_byte, read_bytes, little_endian, reversed, read_number, bounded_cast,
  ptr_range, bounded_range, addresses, elements, size_of, width_of, offset_of, read_field,
}

-- `bounded_cast` is null, or points to an object that ends in the range; it is null only if the
-- object does not fit, and then the address would wrap around or lie past the end.
pub bounded_cast-fits :
    (size begin end offset : ℕ)
    → begin ≤ end
    → offset + size < 2 ^ 64
    → bounded_cast size begin end offset
      ≡ (if leb (begin + offset + size) end then begin + offset else 0)
unfolding bounded_cast
bounded_cast-fits size begin end offset h fits = ground arith

get_elem?-inside :
    {A : Type 0} (xs : List A) (k : ℕ) → k < length xs → (x : A) × (get_elem? xs k ≡ some x)
get_elem?-inside [] k h = absurd (omega arith)
get_elem?-inside (x ∷ xs) zero h = (x, refl)
get_elem?-inside (x ∷ xs) (suc k) h = get_elem?-inside xs k (omega arith)

read_byte-inside :
    (i : Image) (p : ℕ) → i.begin ≤ p → p < image_end i → (b : ℕ) × (read_byte i p ≡ ok b)
unfolding read_byte
read_byte-inside i p lo hi =
    let (b, e) = get_elem?-inside i.bytes (p - i.begin) (omega arith) in
    let no : ltb p i.begin ≡ false = ground arith in (b, rw no (rw e refl))

read_bytes-inside :
    (i : Image) (n p : ℕ)
    → i.begin ≤ p
    → p + n ≤ image_end i
    → (bs : List ℕ) × (read_bytes i n p ≡ ok bs)
unfolding read_bytes
read_bytes-inside i zero p lo hi = ([], refl)
read_bytes-inside i (suc n) p lo hi =
    let (b, e) = read_byte-inside i p lo (omega arith) in
    let (bs, es) = read_bytes-inside i n (p + 1) (omega arith) (omega arith) in
    (b ∷ bs, rw e (rw es refl))

pub read_number-inside :
    (i : Image) (n p : ℕ) → i.begin ≤ p → p + n ≤ image_end i → (v : ℕ) × (read_number i n p ≡ ok v)
unfolding read_number
read_number-inside i n p lo hi =
    let (bs, e) = read_bytes-inside i n p lo hi in
    (little_endian (if i.host_is_big_endian then reversed bs else bs), rw e refl)

field-fits : (l : List ℕ) (k : ℕ) → k < length l → offset_of l k + width_of l k ≤ size_of l
field-fits [] k h = absurd (omega arith)
field-fits (w ∷ ws) zero h = omega arith
field-fits (w ∷ ws) (suc k) h = omega (arith, field-fits ws k (omega arith))

pub read_field-inside :
    (i : Image) (l : List ℕ) (k p : ℕ)
    → k < length l
    → i.begin ≤ p
    → p + size_of l ≤ image_end i
    → (v : ℕ) × (read_field i l k p ≡ ok v)
unfolding read_field
read_field-inside i l k p h lo hi =
    read_number-inside i (width_of l k) (p + offset_of l k) (omega arith)
      (omega (arith, field-fits l k h))

-- the addresses at which an object of the size lies between `lo` and `hi`
abbrev pub Inside : (size lo hi p : ℕ) → Type 0
Inside size lo hi p = (lo ≤ p) × (p + size ≤ hi)

addresses-Inside :
    (n size p lo hi : ℕ) → lo ≤ p → p + n * size ≤ hi → All (Inside size lo hi) (addresses n size p)
addresses-Inside zero size p lo hi a b = tt
addresses-Inside (suc n) size p lo hi a b =
    let step : suc n * size ≡ size + n * size = omega arith in
    (
      (a, omega (arith, step)),
      addresses-Inside n size (p + size) lo hi (omega arith) (omega (arith, step)),
    )

addresses-length : (n size p : ℕ) → length (addresses n size p) ≡ n
addresses-length zero size p = refl
addresses-length (suc n) size p = ap suc (addresses-length n size (p + size))

-- A range of so many objects fits when it ends in the file, and nothing wraps around.
abbrev pub fits : Image → (size offset count : ℕ) → Bool
fits i size offset count =
    not (leb (2 ^ 64) (offset + count * size)) && leb (offset + count * size) (length i.bytes)

pub range-fits :
    (i : Image) (size offset count : ℕ)
    → bounded_range size i.begin (image_end i) offset count ≡ (
        if fits i size offset count
        then ptr_range (i.begin + offset) (i.begin + (offset + count * size))
        else ptr_range 0 0)
unfolding bounded_range
range-fits i size offset count = ground arith

-- The addresses of the range are `count` many, and an object at each lies in the file.
range-visited :
    (i : Image) (size offset count : ℕ)
    → 0 < size
    → (elements size (bounded_range size i.begin (image_end i) offset count)
        ≡ (if fits i size offset count then addresses count size (i.begin + offset) else []))
unfolding elements
range-visited i size offset count pos = elim (Bool-cases (fits i size offset count)) [
  | inl q ↦
      let times : (i.begin + (offset + count * size) - (i.begin + offset)) / size ≡ count =
        ap (λ n. n / size) (omega arith) ∙ mul-div_cancel count pos in
      rw (range-fits i size offset count)
        (rw q (ap (λ n. addresses n size (i.begin + offset)) times))
  | inr q ↦
      rw (range-fits i size offset count) (rw q (ap (λ n. addresses n size 0) (zero-div size)))
]

pub elements-readable :
    (i : Image) (l : List ℕ) (offset count : ℕ)
    → 0 < size_of l
    → (length (elements (size_of l) (bounded_range (size_of l) i.begin (image_end i) offset count))
        ≡ (if fits i (size_of l) offset count then count else 0))
      × All
          (λ p. (k : ℕ) → k < length l → (v : ℕ) × (read_field i l k p ≡ ok v))
          (elements (size_of l) (bounded_range (size_of l) i.begin (image_end i) offset count))
elements-readable i l offset count pos = elim (Bool-cases (fits i (size_of l) offset count)) [
  | inl q ↦
      let room : offset + count * size_of l ≤ length i.bytes = ground arith in
      rw (range-visited i (size_of l) offset count pos) (
        rw q (
          addresses-length count (size_of l) (i.begin + offset),
          All-map (Inside (size_of l) i.begin (image_end i))
              (λ p. (k : ℕ) → k < length l → (v : ℕ) × (read_field i l k p ≡ ok v))
              (addresses count (size_of l) (i.begin + offset))
              (λ p h k below. read_field-inside i l k p below h.0 h.1)
              (addresses-Inside count (size_of l) (i.begin + offset) i.begin (image_end i)
                (omega arith) (omega arith)),
        ))
  | inr q ↦ rw (range-visited i (size_of l) offset count pos) (rw q (refl, tt))
]

-- A range of `count` objects that `bounded_cast` gives is visited in `count` steps, and each field
-- of every object can be read: no loop over such a range reads outside of the file. A range that
-- does not fit is empty.
pub bounded_range-elements :
    (i : Image) (l : List ℕ) (offset count k : ℕ)
    → 0 < size_of l
    → k < length l
    → (length (elements (size_of l) (bounded_range (size_of l) i.begin (image_end i) offset count))
        ≡ (if fits i (size_of l) offset count then count else 0))
      × All
          (λ p. (v : ℕ) × (read_field i l k p ≡ ok v))
          (elements (size_of l) (bounded_range (size_of l) i.begin (image_end i) offset count))
bounded_range-elements i l offset count k pos below =
    let (counted, readable) = elements-readable i l offset count pos in
    (counted, All-map _ _ _ (λ p h. h k below) readable)

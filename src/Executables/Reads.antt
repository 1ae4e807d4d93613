-- ===== src/Executables/Reads.antt =====
-- What reading gives: numbers that fit in their bytes, or a read outside of the file.
use native.Mathlib.Nat.{pow-suc}
use fcd.Base.{
  ℕ, zero, suc, ◌+◌, ◌-◌, ◌^◌, ◌<◌, ◌≡◌, refl, subst, ap, Bool, true, ◌&&◌, inl, inr, List, [], ◌∷◌,
  length, get_elem?, length-append, ltb, ◌==◌, if◌then◌else◌, All, All-append, arith, Bool-cases,
}
use fcd.Executables.Memory.{
  Outcome, ok, wild, failed, ◌>>=◌, Image, present, read_byte, read_bytes, little_endian, reversed,
  read_number, width_of, offset_of, read_field,
}
use fcd.Executables.Gives.{if-both}
use fcd.Executables.Layout.{
  ElfTypes, elf32, elf64, Dynamic, dynamic_layout, rel_layout, sym_layout, read_dynamic, read_rel,
  read_sym,
}
use fcd.Executables.Parse.{read_name}

-- The computation does not run out of rounds, and what it gives has the property.
pub data Ends {ℓ κ} {A : Type ℓ} (P : A → Type κ) : Outcome A → Type (ℓ ⊔ κ) where
  ends : (a : A) → P a → Ends P (ok a)
  at_wild : Ends P wild
  at_failed : Ends P failed

pub Ends-bind {ℓ κ μ ν} :
    {A : Type ℓ} {B : Type κ} {P : A → Type μ} {Q : B → Type ν} {o : Outcome A} {f : A → Outcome B}
    → Ends P o
    → ((a : A) → P a → Ends Q (f a))
    → Ends Q (o >>= f)
Ends-bind (ends a h) g = g a h
Ends-bind at_wild g = at_wild
Ends-bind at_failed g = at_failed

abbrev pub Any {ℓ} : {A : Type ℓ} → A → Type 0
Any a = Unit

abbrev pub are_bytes : List ℕ → Bool
are_bytes [] = true
are_bytes (b ∷ bs) = ltb b 256 && are_bytes bs

byte_present :
    (bs : List ℕ) (k : ℕ) → are_bytes bs ≡ true → Ends (λ b. b < 256) (present (get_elem? bs k))
byte_present [] k h = at_wild
byte_present (b ∷ bs) zero h = ends b (ground arith)
byte_present (b ∷ bs) (suc k) h = byte_present bs k (ground arith)

pub read_byte-Ends :
    (i : Image) (p : ℕ) → are_bytes i.bytes ≡ true → Ends (λ b. b < 256) (read_byte i p)
unfolding read_byte
read_byte-Ends i p h =
    if-both (Ends (λ b. b < 256)) (ltb p i.begin) at_wild (byte_present i.bytes (p - i.begin) h)

abbrev AreBytes : ℕ → List ℕ → Type 0
AreBytes n bs = (length bs ≡ n) × All (λ b. b < 256) bs

read_bytes-Ends :
    (i : Image) (n p : ℕ) → are_bytes i.bytes ≡ true → Ends (AreBytes n) (read_bytes i n p)
unfolding read_bytes
read_bytes-Ends i zero p h = ends [] (refl, tt)
read_bytes-Ends i (suc n) p h = Ends-bind (read_byte-Ends i p h) (λ b small.
    Ends-bind (read_bytes-Ends i n (p + 1) h) (λ bs q. ends (b ∷ bs) (ap suc q.0, (small, q.1))))

little_endian-bound : (bs : List ℕ) → All (λ b. b < 256) bs → little_endian bs < 256 ^ length bs
little_endian-bound [] h = omega arith
little_endian-bound (b ∷ bs) h =
    let rest = little_endian-bound bs h.1 in
    let small = h.0 in omega (arith, pow-suc 256 (length bs))

reversed-AreBytes : (bs : List ℕ) (n : ℕ) → AreBytes n bs → AreBytes n (reversed bs)
reversed-AreBytes [] n h = h
reversed-AreBytes (b ∷ bs) n (counted, small) =
    let (rest, others) = reversed-AreBytes bs (length bs) (refl, small.1) in
    (
      omega (arith, length-append (reversed bs) (b ∷ [])),
      All-append (λ c. c < 256) (reversed bs) (b ∷ []) others (small.0, tt),
    )

pub read_number-Ends :
    (i : Image) (n p : ℕ) → are_bytes i.bytes ≡ true → Ends (λ v. v < 256 ^ n) (read_number i n p)
unfolding read_number
read_number-Ends i n p h = Ends-bind (read_bytes-Ends i n p h) (λ bs q.
    let (counted, small) = if-both (AreBytes n) i.host_is_big_endian (reversed-AreBytes bs n q) q in
    let bound = little_endian-bound (if i.host_is_big_endian then reversed bs else bs) small in
    ends (little_endian (if i.host_is_big_endian then reversed bs else bs)) (
      subst (λ k. little_endian (if i.host_is_big_endian then reversed bs else bs) < 256 ^ k)
        counted bound))

read_field-Ends :
    (i : Image) (l : List ℕ) (k p : ℕ)
    → are_bytes i.bytes ≡ true
    → Ends (λ v. v < 256 ^ width_of l k) (read_field i l k p)
unfolding read_field
read_field-Ends i l k p h = read_number-Ends i (width_of l k) (p + offset_of l k) h

pub read_dynamic-Ends :
    (i : Image) (p : ℕ)
    → are_bytes i.bytes ≡ true
    → Ends (λ (d : Dynamic). d.value < 2 ^ 32) (read_dynamic elf32 i p)
unfolding read_dynamic
read_dynamic-Ends i p h = Ends-bind (read_field-Ends i (dynamic_layout elf32) 0 p h) (λ tag _.
    Ends-bind (read_field-Ends i (dynamic_layout elf32) 1 p h)
      (λ v small. ends (record { tag = tag; value = v }) small))

pub read_rel-Ends :
    (c : ElfTypes) (i : Image) (p : ℕ) → are_bytes i.bytes ≡ true → Ends Any (read_rel c i p)
unfolding read_rel
read_rel-Ends c i p h = Ends-bind (read_field-Ends i (rel_layout c) 0 p h) (λ offset _.
    Ends-bind (read_field-Ends i (rel_layout c) 1 p h)
      (λ info _. ends (record { offset = offset; info = info }) tt))

pub read_sym-Ends :
    (c : ElfTypes) (i : Image) (p : ℕ) → are_bytes i.bytes ≡ true → Ends Any (read_sym c i p)
unfolding read_sym
read_sym-Ends elf32 i p h = Ends-bind (read_field-Ends i (sym_layout elf32) 0 p h) (λ name _.
    Ends-bind (read_field-Ends i (sym_layout elf32) 3 p h) (λ info _.
      Ends-bind (read_field-Ends i (sym_layout elf32) 1 p h)
        (λ v _. ends (record { name = name; info = info; value = v }) tt)))
read_sym-Ends elf64 i p h = Ends-bind (read_field-Ends i (sym_layout elf64) 0 p h) (λ name _.
    Ends-bind (read_field-Ends i (sym_layout elf64) 1 p h) (λ info _.
      Ends-bind (read_field-Ends i (sym_layout elf64) 4 p h)
        (λ v _. ends (record { name = name; info = info; value = v }) tt)))

pub read_name-Ends : (i : Image) (n p : ℕ) → are_bytes i.bytes ≡ true → Ends Any (read_name i n p)
unfolding read_name
read_name-Ends i zero p h = ends [] tt
read_name-Ends i (suc n) p h = Ends-bind (read_byte-Ends i p h) (λ b _. elim (Bool-cases (b == 0)) [
  | inl q ↦ rw q (ends [] tt)
  | inr q ↦ rw q (Ends-bind (read_name-Ends i n (p + 1) h) (λ bs _. ends (b ∷ bs) tt))
])

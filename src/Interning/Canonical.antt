-- ===== src/Interning/Canonical.antt =====
-- The functions of the type index keep it interned, so that equal types are equal pointers.
use fcd.Base.{ℕ, ◌+◌, ◌^◌, ◌≡◌, ◌<◌, ap, inl, inr, bit_and, Bool, none, subst, Option-cases}
use fcd.Interning.Defs.{
  integer_node, pointer_node, array_node, TypeIndex, lookup, lookup_pair, sign_bit, integer_key,
  get_integer_type, get_pointer_to, get_array_of, IsInterned, Holds,
}
use fcd.Interning.Maps.{
  put-cases, put-there, put-old, lookup-new, lookup-old, lookup_pair-new, lookup_pair-old,
  lookup-here, lookup_pair-here, put-same, sign_bit-inj, bits-small,
}

-- For an index whose maps hold exactly its objects, `getPointerTo` returns the address of the pointer
-- type asked for, keeps every object, and leaves the maps exact, when `new` returns an unused address.
pub get_pointer_to-Holds :
    (i : TypeIndex) (p fresh : ℕ)
    → IsInterned i
    → i.heap fresh ≡ none
    → Holds i (pointer_node p) (get_pointer_to i p fresh)
unfolding get_pointer_to
get_pointer_to-Holds i p fresh v free = elim (Option-cases (lookup p i.pointer_types)) [
  | inr (a, q) ↦ rw (q, get_pointer_to) (v, v.pointer_made a p q, λ b m h. h)
  | inl q ↦
      rw (q, get_pointer_to)
        (
          record {
            int_bits = λ a s b h. elim (put-cases i.heap fresh _ a _ h) [
              | inl x ↦ cc
              | inr x ↦ v.int_bits a s b x
            ];
            int_listed = λ a s b h. elim (put-cases i.heap fresh _ a _ h) [
              | inl x ↦ cc
              | inr x ↦ v.int_listed a s b x
            ];
            int_made = λ a s b l h. put-old i.heap fresh _ free a _ (v.int_made a s b l h);
            pointer_listed = λ a k h. elim (put-cases i.heap fresh _ a _ h) [
              | inl x ↦ rw x.0 (lookup-here k p fresh i.pointer_types cc)
              | inr x ↦ lookup-old k p fresh i.pointer_types a q (v.pointer_listed a k x)
            ];
            pointer_made = λ a k h. elim (lookup-new k p fresh i.pointer_types a h) [
              | inl x ↦ put-same i.heap fresh a _ _ x.1 (ap pointer_node x.0)
              | inr x ↦ put-old i.heap fresh _ free a _ (v.pointer_made a k x)
            ];
            array_listed = λ a e n h. elim (put-cases i.heap fresh _ a _ h) [
              | inl x ↦ cc
              | inr x ↦ v.array_listed a e n x
            ];
            array_made = λ a e n h. put-old i.heap fresh _ free a _ (v.array_made a e n h);
          },
          put-there i.heap fresh _,
          put-old i.heap fresh _ free,
        )
]

-- For an index whose maps hold exactly its objects `getArrayOf` returns the address of the array type
-- asked for, keeps every object, and leaves the maps exact, when `new` returns an unused address.
pub get_array_of-Holds :
    (i : TypeIndex) (t m fresh : ℕ)
    → IsInterned i
    → i.heap fresh ≡ none
    → Holds i (array_node t m) (get_array_of i t m fresh)
unfolding get_array_of
get_array_of-Holds i t m fresh v free = elim (Option-cases (lookup_pair (t, m) i.array_types)) [
  | inr (a, q) ↦ rw (q, get_array_of) (v, v.array_made a t m q, λ b m h. h)
  | inl q ↦
      rw (q, get_array_of)
        (
          record {
            int_bits = λ a s b h. elim (put-cases i.heap fresh _ a _ h) [
              | inl x ↦ cc
              | inr x ↦ v.int_bits a s b x
            ];
            int_listed = λ a s b h. elim (put-cases i.heap fresh _ a _ h) [
              | inl x ↦ cc
              | inr x ↦ v.int_listed a s b x
            ];
            int_made = λ a s b l h. put-old i.heap fresh _ free a _ (v.int_made a s b l h);
            pointer_listed = λ a k h. elim (put-cases i.heap fresh _ a _ h) [
              | inl x ↦ cc
              | inr x ↦ v.pointer_listed a k x
            ];
            pointer_made = λ a k h. put-old i.heap fresh _ free a _ (v.pointer_made a k h);
            array_listed = λ a e n h. elim (put-cases i.heap fresh _ a _ h) [
              | inl x ↦
                  let one : t ≡ e = cc in
                  let two : m ≡ n = cc in
                  rw x.0 (lookup_pair-here (e, n) (t, m) fresh i.array_types one two)
              | inr x ↦
                  lookup_pair-old (e, n) (t, m) fresh i.array_types a q (v.array_listed a e n x)
            ];
            array_made = λ a e n h. elim (lookup_pair-new (e, n) (t, m) fresh i.array_types a h) [
              | inl x ↦ put-same i.heap fresh a _ _ x.2 cc
              | inr x ↦ put-old i.heap fresh _ free a _ (v.array_made a e n x)
            ];
          },
          put-there i.heap fresh _,
          put-old i.heap fresh _ free,
        )
]

-- For an index whose maps hold exactly its objects `getIntegerType` returns the address of the
-- integer type with the sign and the low 15 bits asked for, keeps every object, and leaves the maps
-- exact, when `new` returns an unused address.
pub get_integer_type-Holds :
    (i : TypeIndex) (g : Bool) (n fresh : ℕ)
    → IsInterned i
    → i.heap fresh ≡ none
    → Holds i (integer_node g (bit_and n 0x7fff)) (get_integer_type i g n fresh)
unfolding get_integer_type
get_integer_type-Holds i g n fresh v free =
    elim (Option-cases (lookup (integer_key g n) i.int_types)) [
      | inr (a, q) ↦ rw (q, get_integer_type) (v, v.int_made a g _ (bits-small n) q, λ b m h. h)
      | inl q ↦
          rw (q, get_integer_type)
            (
              record {
                int_bits = λ a s b h. elim (put-cases i.heap fresh _ a _ h) [
                  | inl x ↦
                      let same : bit_and n 0x7fff ≡ b = cc in
                      subst (λ z. z < 2 ^ 15) same (bits-small n)
                  | inr x ↦ v.int_bits a s b x
                ];
                int_listed = λ a s b h. elim (put-cases i.heap fresh _ a _ h) [
                  | inl x ↦ rw x.0 (lookup-here _ _ fresh i.int_types cc)
                  | inr x ↦ lookup-old _ _ fresh i.int_types a q (v.int_listed a s b x)
                ];
                int_made = λ a s b l h.
                    elim (lookup-new (sign_bit s + b) (integer_key g n) fresh i.int_types a h) [
                      | inl x ↦
                          let same = sign_bit-inj g s _ b (bits-small n) l x.0 in
                          put-same i.heap fresh a _ _ x.1 cc
                      | inr x ↦ put-old i.heap fresh _ free a _ (v.int_made a s b l x)
                    ];
                pointer_listed = λ a k h. elim (put-cases i.heap fresh _ a _ h) [
                  | inl x ↦ cc
                  | inr x ↦ v.pointer_listed a k x
                ];
                pointer_made = λ a k h. put-old i.heap fresh _ free a _ (v.pointer_made a k h);
                array_listed = λ a e n h. elim (put-cases i.heap fresh _ a _ h) [
                  | inl x ↦ cc
                  | inr x ↦ v.array_listed a e n x
                ];
                array_made = λ a e n h. put-old i.heap fresh _ free a _ (v.array_made a e n h);
              },
              put-there i.heap fresh _,
              put-old i.heap fresh _ free,
            )
    ]

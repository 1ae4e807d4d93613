-- ===== src/Interning/Maps.antt =====
-- Lookups in the type index's maps and heap after an insertion.
use fcd.Base.{
  ℕ, ◌+◌, ◌^◌, ◌≡◌, ◌<◌, refl, ◌⊎◌, inl, inr, bit_and, Bool, true, false, ◌&&◌, Option, none, some,
  List, ◌∷◌, arith, bit_and-mask, ◌==◌, Bool-cases,
}
use fcd.Interning.Defs.{TypeNode, lookup, lookup_pair, put, sign_bit}

pub put-cases :
    (heap : ℕ → Option TypeNode) (a : ℕ) (n : TypeNode) (x : ℕ) (m : TypeNode)
    → put heap a n x ≡ some m
    → ((x ≡ a) × (n ≡ m)) ⊎ (heap x ≡ some m)
put-cases heap a n x m h = ground arith

pub put-there : (heap : ℕ → Option TypeNode) (a : ℕ) (n : TypeNode) → put heap a n a ≡ some n
put-there heap a n = ground arith

pub put-old :
    (heap : ℕ → Option TypeNode) (a : ℕ) (n : TypeNode)
    → heap a ≡ none
    → (x : ℕ) (m : TypeNode) → heap x ≡ some m
    → put heap a n x ≡ some m
put-old heap a n free x m h = elim (Bool-cases (x == a)) [
  | inl q ↦ let same : x ≡ a = ground arith in cc
  | inr q ↦ rw q h
]

pub lookup-new :
    (k l a : ℕ) (es : List (ℕ × ℕ)) (b : ℕ)
    → lookup k ((l, a) ∷ es) ≡ some b
    → ((l ≡ k) × (a ≡ b)) ⊎ (lookup k es ≡ some b)
lookup-new k l a es b h = ground arith

pub lookup-old :
    (k l a : ℕ) (es : List (ℕ × ℕ)) (b : ℕ)
    → lookup l es ≡ none
    → lookup k es ≡ some b
    → lookup k ((l, a) ∷ es) ≡ some b
lookup-old k l a es b free h = elim (Bool-cases (l == k)) [
  | inl q ↦ let same : l ≡ k = ground arith in cc
  | inr q ↦ rw q h
]

pub lookup_pair-new :
    (k l : ℕ × ℕ) (a : ℕ) (es : List ((ℕ × ℕ) × ℕ)) (b : ℕ)
    → lookup_pair k ((l, a) ∷ es) ≡ some b
    → ((l.0 ≡ k.0) × (l.1 ≡ k.1) × (a ≡ b)) ⊎ (lookup_pair k es ≡ some b)
lookup_pair-new k l a es b h = ground arith

pub lookup_pair-old :
    (k l : ℕ × ℕ) (a : ℕ) (es : List ((ℕ × ℕ) × ℕ)) (b : ℕ)
    → lookup_pair l es ≡ none
    → lookup_pair k es ≡ some b
    → lookup_pair k ((l, a) ∷ es) ≡ some b
lookup_pair-old (k, k') (l, l') a es b free h = elim (Bool-cases (l == k && l' == k')) [
  | inl q ↦ let one : l ≡ k = ground arith in let two : l' ≡ k' = ground arith in cc
  | inr q ↦ rw q h
]

pub lookup-here : (k l a : ℕ) (es : List (ℕ × ℕ)) → l ≡ k → lookup k ((l, a) ∷ es) ≡ some a
lookup-here k l a es h = ground arith

pub lookup_pair-here :
    (k l : ℕ × ℕ) (a : ℕ) (es : List ((ℕ × ℕ) × ℕ))
    → l.0 ≡ k.0
    → l.1 ≡ k.1
    → lookup_pair k ((l, a) ∷ es) ≡ some a
lookup_pair-here k l a es h g = ground arith

pub put-same :
    (heap : ℕ → Option TypeNode) (a x : ℕ) (n m : TypeNode)
    → a ≡ x
    → n ≡ m
    → put heap a n x ≡ some m
put-same heap a x n m h g = rw (h, g) (put-there heap x m)

pub sign_bit-inj :
    (s t : Bool) (b d : ℕ)
    → b < 2 ^ 15
    → d < 2 ^ 15
    → sign_bit s + b ≡ sign_bit t + d
    → (s ≡ t) × (b ≡ d)
sign_bit-inj true true b d hb hd h = (refl, omega arith)
sign_bit-inj false false b d hb hd h = (refl, omega arith)
sign_bit-inj true false b d hb hd h = absurd (omega arith)
sign_bit-inj false true b d hb hd h = absurd (omega arith)

pub bits-small : (n : ℕ) → bit_and n 0x7fff < 2 ^ 15
bits-small n = rw (bit_and-mask 15 n) (omega arith)

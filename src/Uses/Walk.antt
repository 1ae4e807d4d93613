-- ===== src/Uses/Walk.antt =====
-- From every use of a prepared array the walk arrives at its end.
use native.Mathlib.Nat.{pow-suc}
use fcd.Base.{
  ℕ, zero, suc, ◌+◌, ◌*◌, ◌/◌, ◌%◌, ◌^◌, ◌<◌, ◌≡◌, refl, ap, false, ◌∙◌, inl, inr, Option, some,
  List, [], ◌∷◌, length, arith, Bool-cases, ◌==◌,
}
use fcd.Uses.Waymarks.{
  PrevTag, stop, full_stop, next_tag, next_bits, fill, prepare_uses, walk_way, advance, bind_way,
  from_stop, walk_to_end_of_array,
}

abbrev Arrives : List PrevTag → Type 0
Arrives tags = walk_to_end_of_array tags ≡ some []

-- every use of the array arrives
abbrev AllArrive : List PrevTag → Type 0
AllArrive [] = Unit
AllArrive (t ∷ tags) = Arrives (t ∷ tags) × AllArrive tags

-- Inside the loop: the walk from the front reaches the last stop written, at distance `goal`, and
-- spells the low digits of `goal`; `bits` are its other digits.
record Encoding (bits distance : ℕ) (tags : List PrevTag) : Type 0 where
  goal : ℕ
  at : List PrevTag
  digits : ℕ
  low : ℕ
  spells : (total : ℕ) → walk_way tags total ≡ some (at, total * 2 ^ digits + low)
  splits : bits * 2 ^ digits + low ≡ goal
  long : length at ≡ goal
  ends : from_stop at ≡ some []
  size : length tags ≡ distance
  positive : 0 < distance

advance-length : (n : ℕ) (tags : List PrevTag) → length tags ≡ n → advance n tags ≡ some []
unfolding advance
advance-length zero [] h = refl
advance-length zero (t ∷ tags) h = absurd (omega arith)
advance-length (suc n) [] h = absurd (omega arith)
advance-length (suc n) (t ∷ tags) h = advance-length n tags (omega arith)

half_odd : (b p low goal : ℕ) → b % 2 ≡ 1 → b * p + low ≡ goal → b / 2 * (p * 2) + (p + low) ≡ goal
half_odd b p low goal odd h =
    let e : b ≡ b / 2 * 2 + 1 = omega arith in omega (arith, ap (λ (t : ℕ). t * p) e)

half_even : (b p low goal : ℕ) → b % 2 ≡ 0 → b * p + low ≡ goal → b / 2 * (p * 2) + low ≡ goal
half_even b p low goal even h =
    let e : b ≡ b / 2 * 2 = omega arith in omega (arith, ap (λ (t : ℕ). t * p) e)

-- a digit, when bits are left
Encoding-digit :
    (bits distance : ℕ) (tags : List PrevTag)
    → (bits == 0) ≡ false
    → Encoding bits distance tags
    → Encoding (bits / 2) (distance + 1) (next_tag bits distance ∷ tags)
unfolding next_tag walk_way
Encoding-digit bits distance tags more e = rw more (elim (Bool-cases (bits % 2 == 1)) [
  | inl one ↦ rw one (record {
    goal = e.goal;
    at = e.at;
    digits = suc e.digits;
    low = 2 ^ e.digits + e.low;
    spells = λ total.
        e.spells (total * 2 + 1) ∙ rw pow-suc (ap (λ (t : ℕ). some (e.at, t)) (omega arith));
    splits = rw pow-suc (half_odd bits (2 ^ e.digits) e.low e.goal (ground arith) e.splits);
    long = e.long;
    ends = e.ends;
    size = omega (arith, e.size);
    positive = omega arith;
  })
  | inr zero' ↦ rw zero' (record {
    goal = e.goal;
    at = e.at;
    digits = suc e.digits;
    low = e.low;
    spells =
        λ total. e.spells (total * 2) ∙ rw pow-suc (ap (λ (t : ℕ). some (e.at, t)) (omega arith));
    splits = rw pow-suc (half_even bits (2 ^ e.digits) e.low e.goal (ground arith) e.splits);
    long = e.long;
    ends = e.ends;
    size = omega (arith, e.size);
    positive = omega arith;
  })
])

-- a stop, when none are
Encoding-stop :
    (distance : ℕ) (tags : List PrevTag)
    → Encoding 0 distance tags
    → Encoding (distance + 1) (distance + 1) (stop ∷ tags)
unfolding walk_way from_stop
Encoding-stop distance tags e = record {
  goal = distance + 1;
  at = stop ∷ tags;
  digits = 0;
  low = 0;
  spells = λ total. ap (λ (t : ℕ). some (stop ∷ tags, t)) (omega arith);
  splits = omega arith;
  long = omega (arith, e.size);
  ends =
      ap (λ (o : Option (List PrevTag × ℕ)). bind_way o (λ t skip. advance skip t)) (e.spells 0)
      ∙ advance-length _ e.at (omega (arith, e.long, e.splits));
  size = omega (arith, e.size);
  positive = omega arith;
}

next_tag-stop : (distance : ℕ) → 0 < distance → next_tag 0 distance ≡ stop
unfolding next_tag
next_tag-stop distance h = ground arith

Encoding-next :
    (bits distance : ℕ) (tags : List PrevTag)
    → Encoding bits distance tags
    → Encoding (next_bits bits distance) (distance + 1) (next_tag bits distance ∷ tags)
unfolding next_bits
Encoding-next zero distance tags e =
    rw (next_tag-stop distance e.positive) (Encoding-stop distance tags e)
Encoding-next (suc b) distance tags e =
    let more : (suc b == 0) ≡ false = ground arith in
    rw more (Encoding-digit (suc b) distance tags more e)

Encoding-Arrives :
    {bits distance : ℕ} {tags : List PrevTag} → Encoding bits distance tags → Arrives tags
unfolding walk_to_end_of_array
Encoding-Arrives e =
    ap (λ (o : Option (List PrevTag × ℕ)). bind_way o (λ t skip. from_stop t)) (e.spells 0) ∙ e.ends

fill-AllArrive :
    (remaining bits distance : ℕ) (tags : List PrevTag)
    → Encoding bits distance tags
    → AllArrive tags
    → AllArrive (fill remaining bits distance tags)
      × (length (fill remaining bits distance tags) ≡ remaining + distance)
unfolding fill
fill-AllArrive zero bits distance tags e all = (all, omega (arith, e.size))
fill-AllArrive (suc r) bits distance tags e all =
    let e' = Encoding-next bits distance tags e in
    let (arrive, size) =
      fill-AllArrive r (next_bits bits distance) (distance + 1) _ e' (Encoding-Arrives e', all) in
    (arrive, omega (arith, size))

-- the last use of the array, which the loop writes first
Encoding-first : Encoding 1 1 (full_stop ∷ [])
unfolding walk_way from_stop
Encoding-first = record {
  goal = 1;
  at = full_stop ∷ [];
  digits = 0;
  low = 0;
  spells = λ total. ap (λ (t : ℕ). some (full_stop ∷ [], t)) (omega arith);
  splits = omega arith;
  long = refl;
  ends = refl;
  size = refl;
  positive = omega arith;
}

prepare_uses-AllArrive : (n : ℕ) → AllArrive (prepare_uses n) × (length (prepare_uses n) ≡ n)
unfolding prepare_uses next_tag next_bits
prepare_uses-AllArrive zero = (tt, refl)
prepare_uses-AllArrive (suc n) =
    let (arrive, size) =
      fill-AllArrive n 1 1 _ Encoding-first (Encoding-Arrives Encoding-first, tt) in
    (arrive, omega (arith, size))

AllArrive-advance :
    (i : ℕ) (tags : List PrevTag)
    → AllArrive tags
    → i < length tags
    → (at : List PrevTag) × (advance i tags ≡ some at) × Arrives at
unfolding advance
AllArrive-advance i [] all h = absurd (omega arith)
AllArrive-advance zero (t ∷ tags) all h = (t ∷ tags, refl, all.0)
AllArrive-advance (suc i) (t ∷ tags) all h = AllArrive-advance i tags all.1 (omega arith)

-- The tags that `prepareStorageAndUses` writes for `n` uses are `n`, and from each of the `n` uses
-- the walk of `getUser` reads no tag past the array and arrives exactly at its end, where the user
-- stands.
pub walk_to_end_of_array-prepare_uses :
    (n i : ℕ)
    → i < n
    → (length (prepare_uses n) ≡ n)
      × ((at : List PrevTag) × (advance i (prepare_uses n) ≡ some at)
          × (walk_to_end_of_array at ≡ some []))
walk_to_end_of_array-prepare_uses n i h =
    let (arrive, size) = prepare_uses-AllArrive n in
    (size, AllArrive-advance i (prepare_uses n) arrive (omega (arith, size)))

-- ===== src/Uses/Waymarks.antt =====
-- The tags of a use array: `prepareStorageAndUses` of fcd/ast/ast_context.cpp writes them, and
-- `walkWay` and `walkToEndOfArray` of fcd/ast/expression_use.cpp read them. A pointer into the
-- array is the list of the tags from there to the end, where the user stands; a read past the end
-- is `none`. The sums stay far below 2^64, since an array has at most 2^32 uses.
use fcd.Base.{
  ℕ, zero, suc, ◌+◌, ◌*◌, ◌/◌, ◌%◌, Option, none, some, List, [], ◌∷◌, ◌==◌, if◌then◌else◌,
}

pub data PrevTag : Type 0 where
  zero_tag one_tag stop full_stop : PrevTag

-- One round of the loop, at the use that `distance + 1` uses separate from the end: its tag, and
-- the bits that are left to encode.
unfoldable pub next_tag : (bits distance : ℕ) → PrevTag
next_tag bits distance =
    if bits == 0
    then (if distance == 0 then full_stop else stop)
    else (if bits % 2 == 1 then one_tag else zero_tag)

unfoldable pub next_bits : (bits distance : ℕ) → ℕ
next_bits bits distance = if bits == 0 then distance + 1 else bits / 2

-- The loop runs from the end of the array to its beginning.
unfoldable pub fill : (remaining bits distance : ℕ) → List PrevTag → List PrevTag
unfolding next_tag next_bits
fill zero bits distance tags = tags
fill (suc r) bits distance tags =
    fill r (next_bits bits distance) (distance + 1) (next_tag bits distance ∷ tags)

unfoldable pub prepare_uses : (use_count : ℕ) → List PrevTag
unfolding fill
prepare_uses use_count = fill use_count 0 0 []

-- where the walk stops, and the number that the tags on the way spell
unfoldable pub walk_way : List PrevTag → (total : ℕ) → Option (List PrevTag × ℕ)
walk_way [] total = none
walk_way (zero_tag ∷ r) total = walk_way r (total * 2)
walk_way (one_tag ∷ r) total = walk_way r (total * 2 + 1)
walk_way (stop ∷ r) total = some (stop ∷ r, total)
walk_way (full_stop ∷ r) total = some (full_stop ∷ r, total)

-- `&stop[skip]`
unfoldable pub advance : (skip : ℕ) → List PrevTag → Option (List PrevTag)
advance zero tags = some tags
advance (suc k) [] = none
advance (suc k) (t ∷ tags) = advance k tags

abbrev pub bind_way :
    Option (List PrevTag × ℕ) → (List PrevTag → ℕ → Option (List PrevTag)) → Option (List PrevTag)
bind_way none f = none
bind_way (some (tags, n)) f = f tags n

-- Past a stop the next tags spell the way to the end; past the full stop there is one step.
unfoldable pub from_stop : List PrevTag → Option (List PrevTag)
unfolding walk_way advance
from_stop (full_stop ∷ r) = advance 1 (full_stop ∷ r)
from_stop (stop ∷ r) = bind_way (walk_way r 0) (λ tags skip. advance skip tags)
from_stop other = none

unfoldable pub walk_to_end_of_array : List PrevTag → Option (List PrevTag)
unfolding walk_way from_stop
walk_to_end_of_array tags = bind_way (walk_way tags 0) (λ at total. from_stop at)

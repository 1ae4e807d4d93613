-- ===== src/Interning/Tests.antt =====
-- An index with `void` and one pointer.
use fcd.Base.{ℕ, ◌≡◌, refl, bit_and, true, some, arith}
use fcd.Interning.Defs.{
  TypeNode, integer_node, pointer_node, array_node, TypeIndex, new_index, get_integer_type,
  get_pointer_to, get_array_of, IsInterned, Holds,
}
use fcd.Interning.Canonical.{get_integer_type-Holds, get_pointer_to-Holds, get_array_of-Holds}

not_there : (n : TypeNode) (a : ℕ) → (new_index 1).heap a ≡ some n → n ≡ TypeNode.void_node
not_there n a h = ground arith

new_index-IsInterned : IsInterned (new_index 1)
new_index-IsInterned = record {
  int_bits = λ a s b h. let x = not_there _ a h in cc;
  int_listed = λ a s b h. let x = not_there _ a h in cc;
  int_made = λ a s b l h. cc;
  pointer_listed = λ a p h. let x = not_there _ a h in cc;
  pointer_made = λ a p h. cc;
  array_listed = λ a e n h. let x = not_there _ a h in cc;
  array_made = λ a e n h. cc;
}

get_integer_type-Holds_example :
    Holds
      (new_index 1)
      (integer_node true (bit_and 32 0x7fff))
      (get_integer_type (new_index 1) true 32 2)
get_integer_type-Holds_example =
    get_integer_type-Holds (new_index 1) true 32 2 new_index-IsInterned refl

abbrev with_pointer : TypeIndex
with_pointer = (get_pointer_to (new_index 1) 1 2).index

with_pointer-IsInterned : IsInterned with_pointer
with_pointer-IsInterned = (get_pointer_to-Holds (new_index 1) 1 2 new_index-IsInterned refl).0

get_array_of-Holds_example : Holds with_pointer (array_node 2 8) (get_array_of with_pointer 2 8 3)
unfolding get_pointer_to
get_array_of-Holds_example = get_array_of-Holds with_pointer 2 8 3 with_pointer-IsInterned refl

-- the same pointer type, asked for twice
get_pointer_to-Holds_example : Holds with_pointer (pointer_node 1) (get_pointer_to with_pointer 1 9)
unfolding get_pointer_to
get_pointer_to-Holds_example = get_pointer_to-Holds with_pointer 1 9 with_pointer-IsInterned refl

again_the_same : (get_pointer_to with_pointer 1 9).type ≡ 2
unfolding get_pointer_to
again_the_same = refl

-- ===== src/Interning/Defs.antt =====
-- `AstContext::TypeIndex` of fcd/ast/ast_context.cpp. A type object is known by its address, and the
-- heap says what stands there; `fresh` is the address that `new` returns. The hash maps are
-- association lists.
use Prim.Native.String.{String}
use fcd.Base.{
  ℕ, ◌+◌, ◌^◌, ◌≡◌, ◌<◌, bit_and, Bool, true, false, ◌&&◌, Option, none, some, List, [], ◌∷◌,
  length, ◌==◌, if◌then◌else◌,
}

-- What an object of each subclass of `ExpressionType` holds.
pub data TypeNode : Type 0 where
  void_node : TypeNode
  integer_node : (has_sign : Bool) (num_bits : ℕ) → TypeNode
  pointer_node : (nested : ℕ) → TypeNode
  array_node : (nested num_element : ℕ) → TypeNode
  structure_node : (name : String) → TypeNode
  function_node : (return_type : ℕ) → TypeNode

pub record TypeIndex : Type 0 where
  pub int_types : List (ℕ × ℕ)
  pub pointer_types : List (ℕ × ℕ)
  pub array_types : List ((ℕ × ℕ) × ℕ)
  pub unindexed_types : List ℕ
  pub heap : ℕ → Option TypeNode

-- the index that holds a type, and the type's address
pub record Found : Type 0 where
  pub type : ℕ
  pub index : TypeIndex

abbrev pub found : ℕ → TypeIndex → Found
found a i = record { type = a; index = i }

abbrev pub lookup : ℕ → List (ℕ × ℕ) → Option ℕ
lookup k [] = none
lookup k ((l, a) ∷ entries) = if l == k then some a else lookup k entries

abbrev pub lookup_pair : ℕ × ℕ → List ((ℕ × ℕ) × ℕ) → Option ℕ
lookup_pair k [] = none
lookup_pair k ((l, a) ∷ entries) =
    if l.0 == k.0 && l.1 == k.1 then some a else lookup_pair k entries

abbrev pub put : (ℕ → Option TypeNode) → ℕ → TypeNode → ℕ → Option TypeNode
put heap a n x = if x == a then some n else heap x

abbrev pub sign_bit : Bool → ℕ
sign_bit true = 2 ^ 15
sign_bit false = 0

-- The sign's bit is above the others, so `|` is a sum.
abbrev pub integer_key : Bool → ℕ → ℕ
integer_key is_signed num_bits = sign_bit is_signed + bit_and num_bits 0x7fff

-- The constructor keeps 15 bits of the number.
unfoldable pub get_integer_type : TypeIndex → (is_signed : Bool) (num_bits fresh : ℕ) → Found
get_integer_type i is_signed num_bits fresh =
    let key = integer_key is_signed num_bits in
    elim (lookup key i.int_types) [
      | some a ↦ found a i
      | none ↦ found fresh (record i {
        int_types = (key, fresh) ∷ i.int_types;
        heap = put i.heap fresh (integer_node is_signed (bit_and num_bits 0x7fff));
      })
    ]

unfoldable pub get_pointer_to : TypeIndex → (pointee fresh : ℕ) → Found
get_pointer_to i pointee fresh = elim (lookup pointee i.pointer_types) [
  | some a ↦ found a i
  | none ↦ found fresh (record i {
    pointer_types = (pointee, fresh) ∷ i.pointer_types;
    heap = put i.heap fresh (pointer_node pointee);
  })
]

unfoldable pub get_array_of : TypeIndex → (element_type num_elements fresh : ℕ) → Found
get_array_of i element_type num_elements fresh =
    elim (lookup_pair (element_type, num_elements) i.array_types) [
      | some a ↦ found a i
      | none ↦ found fresh (record i {
        array_types = ((element_type, num_elements), fresh) ∷ i.array_types;
        heap = put i.heap fresh (array_node element_type num_elements);
      })
    ]

unfoldable pub get_structure : TypeIndex → String → (fresh : ℕ) → Found
get_structure i name fresh = found fresh (record i {
  unindexed_types = fresh ∷ i.unindexed_types;
  heap = put i.heap fresh (structure_node name);
})

unfoldable pub get_function : TypeIndex → (return_type fresh : ℕ) → Found
get_function i return_type fresh = found fresh (record i {
  unindexed_types = fresh ∷ i.unindexed_types;
  heap = put i.heap fresh (function_node return_type);
})

abbrev pub size : TypeIndex → ℕ
size i =
    1
    + length i.int_types
    + length i.pointer_types
    + length i.array_types
    + length i.unindexed_types

-- A new index holds the type `void` alone, which is a member of it.
abbrev pub new_index : (void_type : ℕ) → TypeIndex
new_index void_type = record {
  int_types = [];
  pointer_types = [];
  array_types = [];
  unindexed_types = [];
  heap = λ x. if x == void_type then some void_node else none;
}

-- The maps hold exactly the objects of their kinds, each under its key.
pub record IsInterned (i : TypeIndex) : Type 0 where
  pub int_bits : (a : ℕ) (s : Bool) (b : ℕ) → i.heap a ≡ some (integer_node s b) → b < 2 ^ 15
  pub int_listed :
      (a : ℕ) (s : Bool) (b : ℕ)
      → i.heap a ≡ some (integer_node s b)
      → lookup (sign_bit s + b) i.int_types ≡ some a
  pub int_made :
      (a : ℕ) (s : Bool) (b : ℕ)
      → b < 2 ^ 15
      → lookup (sign_bit s + b) i.int_types ≡ some a
      → i.heap a ≡ some (integer_node s b)
  pub pointer_listed :
      (a p : ℕ) → i.heap a ≡ some (pointer_node p) → lookup p i.pointer_types ≡ some a
  pub pointer_made :
      (a p : ℕ) → lookup p i.pointer_types ≡ some a → i.heap a ≡ some (pointer_node p)
  pub array_listed :
      (a e n : ℕ) → i.heap a ≡ some (array_node e n) → lookup_pair (e, n) i.array_types ≡ some a
  pub array_made :
      (a e n : ℕ) → lookup_pair (e, n) i.array_types ≡ some a → i.heap a ≡ some (array_node e n)

-- The index found holds the asked object at the returned address, and every object that was there.
abbrev pub Holds : TypeIndex → TypeNode → Found → Type 0
Holds i n f =
    IsInterned f.index
    × (f.index.heap f.type ≡ some n)
    × ((a : ℕ) (m : TypeNode) → i.heap a ≡ some m → f.index.heap a ≡ some m)

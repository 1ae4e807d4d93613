-- ===== src/Pool/Defs.antt =====
-- fcd/dumb_allocator.h: the stack-like allocator of the AST. Addresses are 64-bit numbers, and
-- `fresh` is what `new char[n]` returns. A failed `assert` and `back()` of an empty list are
-- `none`.
use fcd.Base.{
  ℕ, ◌+◌, ◌-◌, ◌*◌, ◌/◌, ◌%◌, ◌^◌, ◌||◌, Option, none, some, List, [], ◌∷◌, ◌++◌, bit_and, ltb, leb,
  ◌==◌, if◌then◌else◌,
}

abbrev pub default_chunk_size : ℕ
default_chunk_size = 0x4000 - 0x20

abbrev pub half_page_size : ℕ
half_page_size = default_chunk_size / 2

-- a `size_t`, and a difference of two
abbrev pub word : ℕ → ℕ
word n = n % 2 ^ 64

abbrev pub sub_word : ℕ → ℕ → ℕ
sub_word a b = (a + 2 ^ 64 - b) % 2 ^ 64

-- What one `new char[size]` owns.
pub record Chunk : Type 0 where
  pub begin : ℕ
  pub size : ℕ

abbrev pub chunk : ℕ → ℕ → Chunk
chunk a n = record { begin = a; size = n }

pub record DumbAllocator : Type 0 where
  pub pool : List Chunk
  pub offset : ℕ

-- The constructor pushes a null chunk.
abbrev pub new_allocator : DumbAllocator
new_allocator = record { pool = chunk 0 0 ∷ []; offset = 0 }

unfoldable pub clear : DumbAllocator → DumbAllocator
clear p = record { pool = []; offset = 0 }

abbrev pub back : List Chunk → Option Chunk
back [] = none
back (c ∷ []) = some c
back (c ∷ d ∷ cs) = back (d ∷ cs)

infixl 5 ◌>>=◌
abbrev pub ◌>>=◌ {ℓ κ} : {A : Type ℓ} {B : Type κ} → Option A → (A → Option B) → Option B
none >>= f = none
some a >>= f = f a

-- The size with the padding that aligns the block, for a block that ends at `end_offset`.
abbrev pub real_size : (end_offset size alignment : ℕ) → ℕ
real_size end_offset size alignment =
    word (size + bit_and (sub_word end_offset size) (sub_word alignment 1))

-- `offset -= realSize`, the address there, and the assertion that it is aligned.
abbrev pub carve : List Chunk → Chunk → (offset real alignment : ℕ) → Option (ℕ × DumbAllocator)
carve pool last offset real alignment =
    let result = word (last.begin + (offset - real)) in
    if bit_and result (sub_word alignment 1) == 0
    then some (result, record { pool = pool; offset = offset - real })
    else none

-- Where the last page has no room, the block is carved from the end of a new one.
unfoldable pub new_page : (size alignment fresh : ℕ) → List Chunk → Option (ℕ × DumbAllocator)
new_page size alignment fresh pool =
    let page = chunk fresh default_chunk_size in
    let real = real_size (word (fresh + default_chunk_size)) size alignment in
    if leb real default_chunk_size
    then carve (pool ++ page ∷ []) page default_chunk_size real alignment
    else none

unfoldable pub last_page :
    (size alignment fresh : ℕ) → DumbAllocator → Chunk → Option (ℕ × DumbAllocator)
unfolding new_page
last_page size alignment fresh p last =
    let real = real_size (word (last.begin + p.offset)) size alignment in
    if ltb p.offset real
    then new_page size alignment fresh p.pool
    else carve p.pool last p.offset real alignment

unfoldable pub allocate_small :
    (size alignment fresh : ℕ) → DumbAllocator → Option (ℕ × DumbAllocator)
unfolding last_page
allocate_small size alignment fresh p = back p.pool >>= last_page size alignment fresh p

-- `std::align`: the next multiple of `alignment`, where `size` bytes still fit into the space.
-- Otherwise the pointer stays.
unfoldable pub align : (alignment size ptr space : ℕ) → ℕ
align alignment size ptr space =
    let aligned = (ptr + alignment - 1) / alignment * alignment in
    if leb (size + (aligned - ptr)) space then aligned else ptr

unfoldable pub allocate_large : (size alignment fresh : ℕ) → DumbAllocator → ℕ × DumbAllocator
unfolding align
allocate_large size alignment fresh p =
    let required_size = size + (alignment - 1) in
    if size == 0 || alignment == 0 then (0, p) else if leb (2 ^ 64) required_size then (0, p) else (
      align alignment required_size fresh size,
      record p { pool = chunk fresh required_size ∷ p.pool },
    )

-- The two overloads of `allocate`, chosen by the size of the type.
unfoldable pub allocate : (size alignment fresh : ℕ) → DumbAllocator → Option (ℕ × DumbAllocator)
allocate size alignment fresh p =
    if ltb size half_page_size
    then allocate_small size alignment fresh p
    else some (allocate_large size alignment fresh p)

unfoldable pub allocate_dynamic :
    (element count alignment fresh : ℕ) → DumbAllocator → Option (ℕ × DumbAllocator)
unfolding allocate
allocate_dynamic element count alignment fresh p =
    if leb (2 ^ 64) (count * element) then none else allocate (count * element) alignment fresh p

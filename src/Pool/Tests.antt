-- ===== src/Pool/Tests.antt =====
-- The allocator at concrete requests.
use fcd.Base.{◌+◌, ◌-◌, ◌^◌, ◌≡◌, refl, inr, some, [], ◌∷◌, arith}
use fcd.Pool.Defs.{chunk, default_chunk_size, new_allocator, allocate_small, allocate_large}
use fcd.Pool.Blocks.{IsValid}
use fcd.Pool.Small.{Served, allocate_small-IsValid}
use fcd.Pool.Large.{allocate_large-IsValid}

new_allocator-IsValid : IsValid [] new_allocator
new_allocator-IsValid = record {
  last = chunk 0 0;
  is_last = refl;
  fits = omega arith;
  addressable = omega arith;
  free = tt;
  inside = tt;
  apart = tt;
}

-- 24 bytes at 8 from a page at 0x10000
first_block :
    allocate_small 24 8 0x10000 new_allocator
    ≡ some (
      0x10000 + (default_chunk_size - 24),
      record {
        pool = chunk 0 0 ∷ chunk 0x10000 default_chunk_size ∷ [];
        offset = default_chunk_size - 24;
      },
    )
unfolding allocate_small
first_block = refl

allocate_small-IsValid_example : Served 3 24 [] (allocate_small 24 (2 ^ 3) 0x10000 new_allocator)
allocate_small-IsValid_example =
    allocate_small-IsValid 3 24 0x10000 [] new_allocator (omega arith) (omega arith)
      new_allocator-IsValid (inr (omega arith), tt) (omega arith)

allocate_large-IsValid_example :
    ((allocate_large 10000 32 0x10010 new_allocator).0 ≡ 0x10010)
    × IsValid (chunk 0x10010 10000 ∷ []) (allocate_large 10000 32 0x10010 new_allocator).1
allocate_large-IsValid_example =
    allocate_large-IsValid 10000 32 0x10010 [] new_allocator (omega arith) (omega arith)
      (omega arith) new_allocator-IsValid (inr (omega arith), tt)

-- ===== src/Pool/Large.antt =====
-- `allocateLarge`, and the choice that `allocate` makes between the two paths.
use fcd.Base.{
  ℕ, zero, suc, ◌+◌, ◌-◌, ◌^◌, ◌≤◌, ◌<◌, ◌≡◌, refl, inl, inr, none, some, List, [], ◌∷◌, All-map,
  arith, lt→ltb,
}
use fcd.Pool.Defs.{
  Chunk, chunk, DumbAllocator, back, half_page_size, clear, align, allocate_large, allocate_small,
  allocate,
}
use fcd.Pool.Blocks.{
  Apart, WithinSome, IsValid, IsFresh, back-WithinSome, Apart-WithinSome, Apart-sym,
}

-- With the required size in the place of the size, and the size in the place of the space, the
-- block never fits, so the pointer stays.
align_stays :
    (alignment size ptr : ℕ)
    → 0 < alignment
    → align alignment (size + (alignment - 1)) ptr size ≡ ptr
unfolding align
align_stays zero size ptr h = absurd (omega arith)
align_stays (suc zero) size ptr h = ground arith
align_stays (suc (suc n)) size ptr h = ground arith

back-cons : (c : Chunk) (cs : List Chunk) {d : Chunk} → back cs ≡ some d → back (c ∷ cs) ≡ some d
back-cons c [] h = cc
back-cons c (e ∷ cs) h = h

shrink : (a n m : ℕ) (b : Chunk) → n ≤ m → Apart (chunk a m) b → Apart (chunk a n) b
shrink a n m b h (inl k) = inl (omega arith)
shrink a n m b h (inr k) = inr k

-- A large request of a valid allocator whose size and alignment are positive and do not overflow
-- gives the memory of `new` itself, whatever alignment is asked for, and keeps the allocator valid
-- with the block added.
pub allocate_large-IsValid :
    (size alignment fresh : ℕ) (blocks : List Chunk) (p : DumbAllocator)
    → 0 < size
    → 0 < alignment
    → size + (alignment - 1) < 2 ^ 64
    → IsValid blocks p
    → IsFresh fresh (size + (alignment - 1)) p.pool
    → ((allocate_large size alignment fresh p).0 ≡ fresh)
      × IsValid (chunk fresh size ∷ blocks) (allocate_large size alignment fresh p).1
unfolding allocate_large
allocate_large-IsValid size alignment fresh blocks p hs ha no_overflow v new =
    let required : ℕ = size + (alignment - 1) in
    let e : allocate_large size alignment fresh p
        ≡ (fresh, record p { pool = chunk fresh required ∷ p.pool }) =
      ground (arith, align_stays alignment size fresh) in
    let off : (b : Chunk) → WithinSome p.pool b → Apart (chunk fresh size) b =
      λ b w. shrink fresh size required b (omega arith) (Apart-WithinSome _ p.pool b new w) in
    rw e (
      refl,
      record {
        last = v.last;
        is_last = back-cons _ p.pool v.is_last;
        fits = v.fits;
        addressable = v.addressable;
        free = (
          Apart-sym _ _ (off _ (back-WithinSome p.pool _ v.is_last (omega (arith, v.fits)))),
          v.free,
        );
        inside = (inl (omega arith), All-map _ _ blocks (λ b w. inr w) v.inside);
        apart = (All-map _ _ blocks off v.inside, v.apart);
      },
    )

-- After `clear` the pool has no page, not even the null one of the constructor, and every request
-- below half a page reads the last page of an empty list.
pub allocate-clear :
    (size alignment fresh : ℕ) (p : DumbAllocator)
    → size < half_page_size
    → allocate size alignment fresh (clear p) ≡ none
unfolding allocate allocate_small clear
allocate-clear size alignment fresh p hs = rw (lt→ltb _ _ hs)

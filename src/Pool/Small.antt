-- ===== src/Pool/Small.antt =====
-- `allocateSmall`: blocks carved from the end of a page.
use native.Mathlib.Nat.{mod-lt, mod-add-div, mul-mod_right}
use fcd.Base.{
  ℕ, ◌+◌, ◌-◌, ◌*◌, ◌/◌, ◌%◌, ◌^◌, ◌≤◌, ◌<◌, ◌≡◌, inl, inr, ◌∙◌, ap, some, Option, List, [], ◌∷◌,
  ◌++◌, All-map, arith, bit_and-mask, two_pow_pos, Bool-cases, ltb, le→leb, ltb→le, leb, true,
}
use fcd.Pool.Defs.{
  Chunk, chunk, DumbAllocator, default_chunk_size, half_page_size, word, sub_word, real_size, carve,
  new_page, last_page, allocate_small,
}
use fcd.Pool.Blocks.{
  Apart-sym, Within, IsValid, IsFresh, Apart-Within, Apart-WithinSome, WithinSome-append,
  back-append, back-WithinSome,
}

-- rounding down gives a multiple
mod_round : (m x : ℕ) → 0 < m → (x - x % m) % m ≡ 0
mod_round m x h =
    let e : x - x % m ≡ m * (x / m) = omega (arith, mod-add-div x m) in
    ap (λ (t : ℕ). t % m) e ∙ mul-mod_right m (x / m)

module _ (k : ℕ) (small : 2 ^ k ≤ half_page_size) where
  mask : sub_word (2 ^ k) 1 ≡ 2 ^ k - 1
  mask = omega (arith, two_pow_pos k)

  -- the padding is what is left of the end over a multiple of the alignment
  real_size_lem :
      (e size : ℕ)
      → size < half_page_size
      → size ≤ e
      → e < 2 ^ 64
      → real_size e size (2 ^ k) ≡ size + (e - size) % 2 ^ k
  real_size_lem e size hs he h =
      rw (mask, bit_and-mask)
        (let d : sub_word e size ≡ e - size = omega arith in
          rw d (omega (arith, mod-lt (e - size) (two_pow_pos k))))

  size-le-real_size : (e size : ℕ) → size < half_page_size → size ≤ real_size e size (2 ^ k)
  size-le-real_size e size hs =
      rw (mask, bit_and-mask) (omega (arith, mod-lt (sub_word e size) (two_pow_pos k)))

-- The request succeeds: no assertion fails, the block is aligned, and the allocator is valid with
-- the block added to those that it handed out.
abbrev pub Served : (k size : ℕ) → List Chunk → Option (ℕ × DumbAllocator) → Type 0
Served k size blocks o =
    (r : ℕ) × (p : DumbAllocator) × (o ≡ some (r, p))
    × (r % 2 ^ k ≡ 0)
    × IsValid (chunk r size ∷ blocks) p

-- the block at the end of the free part, `real` bytes with its padding
carved-IsValid :
    (size offset real : ℕ) (blocks pool : List Chunk)
    (v : IsValid blocks (record { pool = pool; offset = offset }))
    → size ≤ real
    → real ≤ offset
    → IsValid
        (chunk (v.last.begin + (offset - real)) size ∷ blocks)
        (record { pool = pool; offset = offset - real })
carved-IsValid size offset real blocks pool v hs hr =
    let free : Chunk = chunk v.last.begin offset in
    let block : Chunk = chunk (v.last.begin + (offset - real)) size in
    let within : Within block free = omega arith in
    let rest : Within (chunk v.last.begin (offset - real)) free = omega arith in
    record {
      last = v.last;
      is_last = v.is_last;
      fits = omega (arith, v.fits);
      addressable = v.addressable;
      free = (
        inl (omega arith),
        All-map _ _ blocks (λ b h. Apart-sym b _ (Apart-Within b free _ (Apart-sym free b h) rest))
            v.free,
      );
      inside = (back-WithinSome pool block v.is_last (omega (arith, v.fits)), v.inside);
      apart = (
        All-map _ _ blocks
            (λ b h. Apart-sym b block (Apart-Within b free block (Apart-sym free b h) within))
            v.free,
        v.apart,
      );
    }

module _ (k : ℕ) (small : 2 ^ k ≤ half_page_size) where
  carve_lem :
      (pool : List Chunk) (last : Chunk) (offset real : ℕ)
      → last.begin + offset < 2 ^ 64
      → (last.begin + (offset - real)) % 2 ^ k ≡ 0
      → carve pool last offset real (2 ^ k)
        ≡ some (last.begin + (offset - real), record { pool = pool; offset = offset - real })
  carve_lem pool last offset real ha al =
      let w : word (last.begin + (offset - real)) ≡ last.begin + (offset - real) = omega arith in
      rw (w, mask k small, bit_and-mask, al)

  carve-Served :
      (size offset : ℕ) (blocks pool : List Chunk)
      (v : IsValid blocks (record { pool = pool; offset = offset }))
      → size < half_page_size
      → real_size (word (v.last.begin + offset)) size (2 ^ k) ≤ offset
      → Served k size blocks
          (carve pool v.last offset (real_size (word (v.last.begin + offset)) size (2 ^ k)) (2 ^ k))
  carve-Served size offset blocks pool v hs room =
      let e : ℕ = v.last.begin + offset in
      let real : ℕ = real_size (word e) size (2 ^ k) in
      let big : e < 2 ^ 64 = omega (arith, v.fits, v.addressable) in
      let ew : word e ≡ e = omega arith in
      let le : size ≤ real = size-le-real_size k small (word e) size hs in
      let re : real ≡ size + (e - size) % 2 ^ k =
        ap (λ (t : ℕ). real_size t size (2 ^ k)) ew
        ∙ real_size_lem k small e size hs (omega arith) big in
      let at : v.last.begin + (offset - real) ≡ e - size - (e - size) % 2 ^ k = omega arith in
      let al : (v.last.begin + (offset - real)) % 2 ^ k ≡ 0 =
        ap (λ (t : ℕ). t % 2 ^ k) at ∙ mod_round (2 ^ k) (e - size) (two_pow_pos k) in
      (
        v.last.begin + (offset - real),
        record { pool = pool; offset = offset - real },
        carve_lem pool v.last offset real big al,
        al,
        carved-IsValid size offset real blocks pool v le room,
      )

  -- a fresh page at the end of the pool, all of it free
  page-IsValid :
      (fresh : ℕ) (blocks : List Chunk) (p : DumbAllocator)
      → IsValid blocks p
      → IsFresh fresh default_chunk_size p.pool
      → fresh + default_chunk_size < 2 ^ 64
      → IsValid blocks (record {
        pool = p.pool ++ chunk fresh default_chunk_size ∷ [];
        offset = default_chunk_size;
      })
  page-IsValid fresh blocks p v new ha = record {
    last = chunk fresh default_chunk_size;
    is_last = back-append p.pool _;
    fits = omega arith;
    addressable = ha;
    free = All-map _ _ blocks (λ b w. Apart-WithinSome _ p.pool b new w) v.inside;
    inside = All-map _ _ blocks (λ b w. WithinSome-append p.pool _ b w) v.inside;
    apart = v.apart;
  }

  new_page-Served :
      (size fresh : ℕ) (blocks : List Chunk) (p : DumbAllocator)
      → IsValid blocks p
      → IsFresh fresh default_chunk_size p.pool
      → fresh + default_chunk_size < 2 ^ 64
      → size < half_page_size
      → Served k size blocks (new_page size (2 ^ k) fresh p.pool)
  unfolding new_page page-IsValid
  new_page-Served size fresh blocks p v new ha hs =
      let e : ℕ = fresh + default_chunk_size in
      let room : real_size (word e) size (2 ^ k) ≤ default_chunk_size =
        rw (mask k small, bit_and-mask)
          (omega (arith, mod-lt (sub_word (word e) size) (two_pow_pos k))) in
      let fit : leb (real_size (word e) size (2 ^ k)) default_chunk_size ≡ true = le→leb _ _ room in
      rw fit (
        carve-Served size default_chunk_size blocks _ (page-IsValid fresh blocks p v new ha) hs
          room)

-- A small request of a valid allocator, at an alignment that is a power of two of at most half a
-- page, always succeeds when `new` returns unused memory: the block is aligned, and it lies in the
-- allocator's chunks, apart from every block handed out before.
pub allocate_small-IsValid :
    (k size fresh : ℕ) (blocks : List Chunk) (p : DumbAllocator)
    → 2 ^ k ≤ half_page_size
    → size < half_page_size
    → IsValid blocks p
    → IsFresh fresh default_chunk_size p.pool
    → fresh + default_chunk_size < 2 ^ 64
    → Served k size blocks (allocate_small size (2 ^ k) fresh p)
unfolding allocate_small last_page
allocate_small-IsValid k size fresh blocks p small hs v new ha =
    let real : ℕ = real_size (word (v.last.begin + p.offset)) size (2 ^ k) in
    rw v.is_last (elim (Bool-cases (ltb p.offset real)) [
      | inl full ↦ rw full (new_page-Served k small size fresh blocks p v new ha hs)
      | inr room ↦ rw room (carve-Served k small size p.offset blocks p.pool v hs (ltb→le _ _ room))
    ])

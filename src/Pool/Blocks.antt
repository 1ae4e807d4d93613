-- ===== src/Pool/Blocks.antt =====
-- Blocks of memory: when two lie apart, and what the allocator knows of those that it handed out.
use fcd.Base.{
  ℕ, ◌+◌, ◌≤◌, ◌<◌, ◌^◌, ◌≡◌, refl, ◌⊎◌, inl, inr, some, List, [], ◌∷◌, ◌++◌, All, arith,
}
use fcd.Pool.Defs.{Chunk, chunk, DumbAllocator, back}

-- No byte belongs to both.
abbrev pub Apart : Chunk → Chunk → Type 0
Apart a b = (a.begin + a.size ≤ b.begin) ⊎ (b.begin + b.size ≤ a.begin)

abbrev pub Within : Chunk → Chunk → Type 0
Within a b = (b.begin ≤ a.begin) × (a.begin + a.size ≤ b.begin + b.size)

abbrev pub WithinSome : List Chunk → Chunk → Type 0
WithinSome [] a = ⊥
WithinSome (c ∷ cs) a = Within a c ⊎ WithinSome cs a

abbrev pub PairwiseApart : List Chunk → Type 0
PairwiseApart [] = Unit
PairwiseApart (a ∷ as') = All (Apart a) as' × PairwiseApart as'

-- `blocks` are what the allocator handed out: they lie in its chunks and apart from one another,
-- and none reaches into the free front part of the last chunk.
pub record IsValid (blocks : List Chunk) (p : DumbAllocator) : Type 0 where
  pub last : Chunk
  pub is_last : back p.pool ≡ some last
  pub fits : p.offset ≤ last.size
  pub addressable : last.begin + last.size < 2 ^ 64
  pub free : All (Apart (chunk last.begin p.offset)) blocks
  pub inside : All (WithinSome p.pool) blocks
  pub apart : PairwiseApart blocks

-- `new` returns memory that belongs to no chunk yet.
abbrev pub IsFresh : (fresh size : ℕ) → List Chunk → Type 0
IsFresh fresh size pool = All (Apart (chunk fresh size)) pool

pub Apart-sym : (a b : Chunk) → Apart a b → Apart b a
Apart-sym a b (inl h) = inr h
Apart-sym a b (inr h) = inl h

pub Apart-Within : (f c b : Chunk) → Apart f c → Within b c → Apart f b
Apart-Within f c b (inl h) w = inl (omega arith)
Apart-Within f c b (inr h) w = inr (omega arith)

-- What is apart from every chunk is apart from what lies in one.
pub Apart-WithinSome :
    (f : Chunk) (cs : List Chunk) (b : Chunk) → All (Apart f) cs → WithinSome cs b → Apart f b
Apart-WithinSome f [] b h w = absurd w
Apart-WithinSome f (c ∷ cs) b h (inl w) = Apart-Within f c b h.0 w
Apart-WithinSome f (c ∷ cs) b h (inr w) = Apart-WithinSome f cs b h.1 w

pub WithinSome-append : (cs ds : List Chunk) (b : Chunk) → WithinSome cs b → WithinSome (cs ++ ds) b
WithinSome-append [] ds b w = absurd w
WithinSome-append (c ∷ cs) ds b (inl w) = inl w
WithinSome-append (c ∷ cs) ds b (inr w) = inr (WithinSome-append cs ds b w)

pub WithinSome-last : (cs : List Chunk) (c b : Chunk) → Within b c → WithinSome (cs ++ c ∷ []) b
WithinSome-last [] c b w = inl w
WithinSome-last (d ∷ cs) c b w = inr (WithinSome-last cs c b w)

pub back-append : (cs : List Chunk) (c : Chunk) → back (cs ++ c ∷ []) ≡ some c
back-append [] c = refl
back-append (d ∷ []) c = refl
back-append (d ∷ e ∷ cs) c = back-append (e ∷ cs) c

pub back-WithinSome :
    (cs : List Chunk) {c : Chunk} (b : Chunk) → back cs ≡ some c → Within b c → WithinSome cs b
back-WithinSome [] b h w = cc
back-WithinSome (d ∷ []) b h w = inl (ground arith)
back-WithinSome (d ∷ e ∷ cs) b h w = inr (back-WithinSome (e ∷ cs) b h w)

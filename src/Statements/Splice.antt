-- ===== src/Statements/Splice.antt =====
-- `insert` of a list moves its statements into another list, and `pop_front` erases the first one.
use mathlib.Core.List.{append_assoc}
use fcd.Base.{
  ℕ, zero, suc, ◌≤◌, ◌≡◌, ◌≢◌, refl, sym, subst, ap, none, some, List, [], ◌∷◌, ◌++◌, length, arith,
}
use fcd.Statements.Defs.{
  Statement, StatementList, Store, erase_at, erase, insert_list, pop_front, erase_between,
}
use fcd.Statements.Chain.{head_or, IsList}
use fcd.Statements.Insert.{insert-IsList}
use fcd.Statements.Erase.{erase_at-IsList}

-- the result of one round
erase-first :
    (h : Store) (l s : ℕ) (xs : List ℕ) → IsList h l (s ∷ xs) → erase s h ≡ (erase_at l s h).1
unfolding erase
erase-first h l s xs is_list =
    let listed : (h.statement_at s).list ≡ some l = ap (λ (v : Statement). v.list) is_list.1.0 in
    rw (listed, erase) refl

-- `insert` of a list at an iterator of another list moves all of its statements, in their order, to the
-- place before the iterator's statement; it ends with the first list empty after as many rounds as
-- that list has statements, fails no assertion, and leaves the lists besides the two as they are.
pub insert_list-IsList :
    (h : Store) (rounds l from : ℕ) (xs ys zs : List ℕ)
    → l ≢ from
    → length zs ≤ rounds
    → IsList h l (xs ++ ys)
    → IsList h from zs
    → (g : Store) × (insert_list rounds l (head_or ys none) from h ≡ some g)
      × IsList g l (xs ++ (zs ++ ys))
      × IsList g from []
      × ((m : ℕ) (us : List ℕ) → m ≢ l → m ≢ from → IsList h m us → IsList g m us)
unfolding insert_list
insert_list-IsList h zero l from xs ys [] apart enough into moved =
    let empty : (h.list_at from).first ≡ none = ap (λ (v : StatementList). v.first) moved.0 in
    (h, rw (empty, insert_list) refl, into, moved, λ m us p q k. k)
insert_list-IsList h (suc n) l from xs ys [] apart enough into moved =
    let empty : (h.list_at from).first ≡ none = ap (λ (v : StatementList). v.first) moved.0 in
    (h, rw (empty, insert_list) refl, into, moved, λ m us p q k. k)
insert_list-IsList h zero l from xs ys (z ∷ zs) apart enough into moved = absurd (omega arith)
insert_list-IsList h (suc n) l from xs ys (z ∷ zs) apart enough into moved =
    let first : (h.list_at from).first ≡ some z = ap (λ (v : StatementList). v.first) moved.0 in
    let erased = erase-first h from z zs moved in
    let h1 = (erase_at from z h).1 in
    let (_, left, free, kept) = erase_at-IsList h from z [] zs moved in
    let (h2, put, joined, kept2) = insert-IsList h1 l z xs ys (kept l (xs ++ ys) apart into) free in
    let still = kept2 from zs (λ e. apart (sym e)) left in
    let one = append_assoc xs (z ∷ []) ys in
    let (g, rest, all, none_left, others) =
      insert_list-IsList h2 n l from (xs ++ z ∷ []) ys zs apart (omega arith) (rw one joined)
        still in
    (
      g,
      rw (first, erased, put, insert_list) rest,
      subst (IsList g l) (append_assoc xs (z ∷ []) (zs ++ ys)) all,
      none_left,
      λ m us p q k. others m us p q (kept2 m us p (kept m us q k)),
    )

-- `pop_front` of a list that is not empty gives its first statement and erases it.
pub pop_front-erase_at :
    (h : Store) (l s : ℕ) (xs : List ℕ)
    → IsList h l (s ∷ xs)
    → pop_front l h ≡ some (s, (erase_at l s h).1)
unfolding pop_front erase_at
pop_front-erase_at h l s xs is_list =
    let first : (h.list_at l).first ≡ some s = ap (λ (v : StatementList). v.first) is_list.0 in
    let start : (h.statement_at s).previous ≡ none =
      ap (λ (v : Statement). v.previous) is_list.1.0 in
    rw (first, pop_front)
      (ap (λ p. some (s, erase_between l s p (h.statement_at s).next h)) (sym start))

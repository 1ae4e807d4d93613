-- ===== src/Statements/Prepend.antt =====
-- `push_front` of a list moves its statements to the start of another one, from the last to the first.
use mathlib.Core.List.{append_assoc, append-nil}
use fcd.Base.{
  ℕ, zero, suc, ◌≤◌, ◌≡◌, ◌≢◌, refl, sym, subst, ap, ◌∙◌, ◌⊎◌, inl, inr, true, Option, none, some,
  List, [], ◌∷◌, ◌++◌, length, arith, ==_refl, ◌==◌,
}
use fcd.Statements.Defs.{
  Statement, StatementList, Store, set_first_or_next, set_last, set_last_or_previous, erase_at,
  pop_back, new_statement, write_statement, pushed_front, push_front_list, set_first,
}
use fcd.Statements.Chain.{last_or-append, Chain-split, IsList}
use fcd.Statements.Erase.{erase_at-IsList}
use fcd.Statements.Push.{push_front-IsList}

-- The list has two fields, which may be written in either order.
set_last-set_first :
    (l : ℕ) (p : Option ℕ) (h : Store)
    → set_first_or_next l p none (set_last l p h) ≡ set_last l p (set_first_or_next l p none h)
set_last-set_first l none h =
    let here : (l == l) ≡ true = ==_refl l in
    let same : (m : ℕ)
        → (set_first l none (set_last l none h)).list_at m
          ≡ (set_last l none (set_first l none h)).list_at m =
      λ m. ground arith in
    λ i. record h { list_at = λ m. same m i }
set_last-set_first l (some p) h = refl

-- `pop_back` of a list that is not empty gives its last statement and erases it.
pub pop_back-erase_at :
    (h : Store) (l s : ℕ) (xs : List ℕ)
    → IsList h l (xs ++ s ∷ [])
    → pop_back l h ≡ some (s, (erase_at l s h).1)
unfolding pop_back erase_at
pop_back-erase_at h l s xs is_list =
    let last : (h.list_at l).last ≡ some s =
      ap (λ (v : StatementList). v.last) is_list.0 ∙ last_or-append none xs (s ∷ []) in
    let (_, rest) = Chain-split h l none xs (s ∷ []) none is_list.1 in
    let end : (h.statement_at s).next ≡ none = ap (λ (v : Statement). v.next) rest.0 in
    let before = (h.statement_at s).previous in
    rw (last, pop_back)
      (ap (λ g. some (s, write_statement s new_statement g)) (set_last-set_first l before h)
        ∙ ap
            (λ n. some (
              s,
              write_statement s new_statement
                  (set_last_or_previous l n before (set_first_or_next l before n h)),
            ))
            (sym end))

-- A sequence is empty or has a last element.
snoc_cases :
    (zs : List ℕ)
    → (zs ≡ []) ⊎ ((ys : List ℕ) × (z : ℕ) × (zs ≡ ys ++ z ∷ []) × (length zs ≡ suc (length ys)))
snoc_cases [] = inl refl
snoc_cases (x ∷ zs) = elim (snoc_cases zs) [
  | inl q ↦ inr ([], x, ap (λ us. x ∷ us) q, ap (λ (us : List ℕ). suc (length us)) q)
  | inr (ys, z, q, n) ↦ inr (x ∷ ys, z, ap (λ us. x ∷ us) q, ap suc n)
]

first-some :
    (h : Store) (l z : ℕ) (ys : List ℕ)
    → IsList h l (ys ++ z ∷ [])
    → (s : ℕ) × ((h.list_at l).first ≡ some s)
first-some h l z [] is_list = (z, ap (λ (v : StatementList). v.first) is_list.0)
first-some h l z (y ∷ ys) is_list = (y, ap (λ (v : StatementList). v.first) is_list.0)

-- What a call that moves the sequence `zs` of the list `from` to the start of `xs` leaves.
abbrev pub MovesToFront : Store → Option Store → (l from : ℕ) → (xs zs : List ℕ) → Type 0
MovesToFront h r l from xs zs =
    (g : Store) × (r ≡ some g)
    × IsList g l (zs ++ xs)
    × IsList g from []
    × ((m : ℕ) (us : List ℕ) → m ≢ l → m ≢ from → IsList h m us → IsList g m us)

none_to_move :
    (h : Store) (rounds l from : ℕ) (xs : List ℕ)
    → IsList h l xs
    → IsList h from []
    → MovesToFront h (push_front_list rounds l from h) l from xs []
unfolding push_front_list
none_to_move h zero l from xs into moved =
    let empty : (h.list_at from).first ≡ none = ap (λ (v : StatementList). v.first) moved.0 in
    (h, rw (empty, push_front_list) refl, into, moved, λ m us p q k. k)
none_to_move h (suc n) l from xs into moved =
    let empty : (h.list_at from).first ≡ none = ap (λ (v : StatementList). v.first) moved.0 in
    (h, rw (empty, push_front_list) refl, into, moved, λ m us p q k. k)

-- `push_front` of a list moves all of its statements, in their order, to the start of another list;
-- it ends with the first list empty after as many rounds as that list has statements, fails no
-- assertion, and leaves the lists besides the two as they are.
pub push_front_list-IsList :
    (h : Store) (rounds l from : ℕ) (xs zs : List ℕ)
    → l ≢ from
    → length zs ≤ rounds
    → IsList h l xs
    → IsList h from zs
    → MovesToFront h (push_front_list rounds l from h) l from xs zs
unfolding push_front_list
push_front_list-IsList h zero l from xs zs apart enough into moved = elim (snoc_cases zs) [
  | inr (ys, z, q, n) ↦ absurd (omega arith)
  | inl q ↦
      subst (λ us. MovesToFront h (push_front_list zero l from h) l from xs us) (sym q)
        (none_to_move h zero l from xs into (subst (IsList h from) q moved))
]
push_front_list-IsList h (suc n) l from xs zs apart enough into moved = elim (snoc_cases zs) [
  | inl q ↦
      subst (λ us. MovesToFront h (push_front_list (suc n) l from h) l from xs us) (sym q)
        (none_to_move h (suc n) l from xs into (subst (IsList h from) q moved))
  | inr (ys, z, q, count) ↦
      let all_moved = subst (IsList h from) q moved in
      let (_, first) = first-some h from z ys all_moved in
      let popped = pop_back-erase_at h from z ys all_moved in
      let h1 = (erase_at from z h).1 in
      let (_, left, free, kept) = erase_at-IsList h from z ys [] all_moved in
      let (h2, put, joined, kept2) = push_front-IsList h1 l z xs (kept l xs apart into) free in
      let rest_left = subst (IsList h1 from) (append-nil ys) left in
      let still = kept2 from ys (λ e. apart (sym e)) rest_left in
      let (g, rest, all, none_left, others) =
        push_front_list-IsList h2 n l from (z ∷ xs) ys apart (omega (arith, count, enough)) joined
          still in
      (
        g,
        rw (first, ap (pushed_front l) popped ∙ put, push_front_list) rest,
        subst (IsList g l) (sym (append_assoc ys (z ∷ []) xs) ∙ ap (λ us. us ++ xs) (sym q)) all,
        none_left,
        λ m us p r k. others m us p r (kept2 m us p (kept m us r k)),
      )
]

-- ===== src/Statements/Concat.antt =====
-- `push_back` of a list moves its statements to the end of another one.
use mathlib.Core.List.{append_assoc, append-nil}
use fcd.Base.{
  ℕ, zero, suc, ◌≤◌, ◌≡◌, ◌≢◌, refl, sym, subst, ap, ◌∙◌, none, some, List, [], ◌∷◌, ◌++◌, length,
  arith,
}
use fcd.Statements.Defs.{StatementList, Store, erase_at, pushed, push_back_list}
use fcd.Statements.Chain.{IsList}
use fcd.Statements.Erase.{erase_at-IsList}
use fcd.Statements.Push.{push_back-IsList}
use fcd.Statements.Splice.{pop_front-erase_at}

-- `push_back` of a list moves all of its statements, in their order, to the end of another list; it ends
-- with the first list empty after as many rounds as that list has statements, fails no assertion, and
-- leaves the lists besides the two as they are.
pub push_back_list-IsList :
    (h : Store) (rounds l from : ℕ) (xs zs : List ℕ)
    → l ≢ from
    → length zs ≤ rounds
    → IsList h l xs
    → IsList h from zs
    → (g : Store) × (push_back_list rounds l from h ≡ some g)
      × IsList g l (xs ++ zs)
      × IsList g from []
      × ((m : ℕ) (us : List ℕ) → m ≢ l → m ≢ from → IsList h m us → IsList g m us)
unfolding push_back_list
push_back_list-IsList h zero l from xs [] apart enough into moved =
    let empty : (h.list_at from).first ≡ none = ap (λ (v : StatementList). v.first) moved.0 in
    (
      h,
      rw (empty, push_back_list) refl,
      subst (IsList h l) (sym (append-nil xs)) into,
      moved,
      λ m us p q k. k,
    )
push_back_list-IsList h (suc n) l from xs [] apart enough into moved =
    let empty : (h.list_at from).first ≡ none = ap (λ (v : StatementList). v.first) moved.0 in
    (
      h,
      rw (empty, push_back_list) refl,
      subst (IsList h l) (sym (append-nil xs)) into,
      moved,
      λ m us p q k. k,
    )
push_back_list-IsList h zero l from xs (z ∷ zs) apart enough into moved = absurd (omega arith)
push_back_list-IsList h (suc n) l from xs (z ∷ zs) apart enough into moved =
    let first : (h.list_at from).first ≡ some z = ap (λ (v : StatementList). v.first) moved.0 in
    let popped = pop_front-erase_at h from z zs moved in
    let h1 = (erase_at from z h).1 in
    let (_, left, free, kept) = erase_at-IsList h from z [] zs moved in
    let (h2, put, joined, kept2) = push_back-IsList h1 l z xs (kept l xs apart into) free in
    let still = kept2 from zs (λ e. apart (sym e)) left in
    let (g, rest, all, none_left, others) =
      push_back_list-IsList h2 n l from (xs ++ z ∷ []) zs apart (omega arith) joined still in
    (
      g,
      rw (first, ap (pushed l) popped ∙ put, push_back_list) rest,
      subst (IsList g l) (append_assoc xs (z ∷ []) zs) all,
      none_left,
      λ m us p q k. others m us p q (kept2 m us p (kept m us q k)),
    )

-- ===== src/Statements/Push.antt =====
-- `push_back` and `push_front` put a statement at the ends of a sequence.
use fcd.Base.{ℕ, ◌≡◌, ◌≢◌, sym, subst, ap, ◌∙◌, true, none, some, List, [], ◌∷◌, ◌++◌, arith}
use mathlib.Core.List.{append-nil}
use fcd.Statements.Defs.{
  Statement, StatementList, Store, new_statement, is_free, push_after, push_before, push_back,
  push_front,
}
use fcd.Statements.Chain.{head_or, last_or, Absent, IsList, last-some}
use fcd.Statements.Relink.{Keeps, Chain-Absent}
use fcd.Statements.Put.{IsPut, IsPut-IsList}

is_free-new : (v : Statement) → v ≡ new_statement → is_free v ≡ true
is_free-new v q = ap is_free q

push_after-IsPut :
    (h : Store) (l s : ℕ) (xs : List ℕ)
    → h.statement_at s ≡ new_statement
    → h.list_at l ≡ record { first = head_or xs none; last = last_or none xs }
    → Absent s xs
    → IsPut h l s xs [] (push_after (last_or none xs) l s h)
push_after-IsPut h l s [] free ends absent = (λ x. ground arith, λ m. ground arith)
push_after-IsPut h l s (x ∷ xs) free ends absent =
    let (p, at_last, apart) = last-some (λ y. y ≢ s) x xs absent.0 absent.1 in
    let new_ends : h.list_at l ≡ record { first = some x; last = some p } =
      ends ∙ ap (λ o. record { first = some x; last = o }) at_last in
    rw at_last (λ y. ground arith, λ m. ground arith)

push_before-IsPut :
    (h : Store) (l s : ℕ) (xs : List ℕ)
    → h.statement_at s ≡ new_statement
    → h.list_at l ≡ record { first = head_or xs none; last = last_or none xs }
    → Absent s xs
    → IsPut h l s [] xs (push_before (head_or xs none) l s h)
push_before-IsPut h l s [] free ends absent = (λ x. ground arith, λ m. ground arith)
push_before-IsPut h l s (x ∷ xs) free ends absent =
    let apart = absent.0 in (λ y. ground arith, λ m. ground arith)

Absent-free :
    (h : Store) (l s : ℕ) (xs : List ℕ)
    → h.statement_at s ≡ new_statement
    → IsList h l xs
    → Absent s xs
Absent-free h l s xs free is_list =
    let none_list : (h.statement_at s).list ≡ none = ap (λ (v : Statement). v.list) free in
    Chain-Absent h l none xs none s (λ q. ground arith) is_list.1

-- `push_back` of a statement as constructed puts it at the end of the sequence.
pub push_back-IsList :
    (h : Store) (l s : ℕ) (xs : List ℕ)
    → IsList h l xs
    → h.statement_at s ≡ new_statement
    → (g : Store) × (push_back l s h ≡ some g) × IsList g l (xs ++ s ∷ []) × Keeps h g l
unfolding push_back
push_back-IsList h l s xs is_list free =
    let last : (h.list_at l).last ≡ last_or none xs =
      ap (λ (v : StatementList). v.last) is_list.0 in
    let put = push_after-IsPut h l s xs free is_list.0 (Absent-free h l s xs free is_list) in
    let g = push_after (last_or none xs) l s h in
    let (new_list, kept) =
      IsPut-IsList h g l s xs [] (subst (IsList h l) (sym (append-nil xs)) is_list) free put in
    (
      g,
      rw (is_free-new (h.statement_at s) free, push_back)
          (ap (λ o. some (push_after o l s h)) last),
      new_list,
      kept,
    )

-- `push_front` of a statement as constructed puts it at the start of the sequence.
pub push_front-IsList :
    (h : Store) (l s : ℕ) (xs : List ℕ)
    → IsList h l xs
    → h.statement_at s ≡ new_statement
    → (g : Store) × (push_front l s h ≡ some g) × IsList g l (s ∷ xs) × Keeps h g l
unfolding push_front
push_front-IsList h l s xs is_list free =
    let first : (h.list_at l).first ≡ head_or xs none =
      ap (λ (v : StatementList). v.first) is_list.0 in
    let put = push_before-IsPut h l s xs free is_list.0 (Absent-free h l s xs free is_list) in
    let g = push_before (head_or xs none) l s h in
    let (new_list, kept) = IsPut-IsList h g l s [] xs is_list free put in
    (
      g,
      rw (is_free-new (h.statement_at s) free, push_front)
          (ap (λ o. some (push_before o l s h)) first),
      new_list,
      kept,
    )

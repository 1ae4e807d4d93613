-- ===== src/Statements/Insert.antt =====
-- `insert` of a statement puts it into the sequence before the iterator.
use fcd.Base.{
  ℕ, ◌≡◌, ◌≢◌, sym, ap, ◌∙◌, true, Option, none, some, List, [], ◌∷◌, ◌++◌, if◌then◌else◌, arith,
}
use fcd.Statements.Defs.{
  Store, new_statement, is_null, insert, insert_after, insert_before, joined, put_at, set_list,
  set_last, set_first, set_next, set_previous,
}
use fcd.Statements.Chain.{head_or, last_or, Chain-split, Absent, IsList, last_or-append, last-some}
use fcd.Statements.Put.{between, IsPut, IsPut-IsList}
use fcd.Statements.Relink.{Keeps, Chain-Absent}
use fcd.Statements.Parts.{Distinct-split, both, All-split}

-- the insertion succeeds, and writes what puts the statement between the two parts
abbrev Inserted : Store → (l s : ℕ) → (xs ys : List ℕ) → Store → Type 0
Inserted h l s xs ys g = (insert l (head_or ys none) s h ≡ some g) × IsPut h l s xs ys g

insert_empty :
    (h : Store) (l s : ℕ)
    → h.statement_at s ≡ new_statement
    → h.list_at l ≡ record { first = none; last = none }
    → (g : Store) × Inserted h l s [] [] g
unfolding insert
insert_empty h l s free ends =
    let null : is_null (h.statement_at s).list ≡ true = ap (λ v. is_null v.list) free in
    let no_last : (h.list_at l).last ≡ none = ap (λ v. v.last) ends in
    (
      set_list s (some l) (set_last l (some s) (set_first l (some s) h)),
      (
        ap (λ b. if b then joined l s (put_at l (none) s h) else none) null
            ∙ ap (λ o. some (set_list s (some l) (insert_after o l s h))) no_last,
        (λ x. ground arith, λ m. ground arith),
      ),
    )

insert_last :
    (h : Store) (l s x p : ℕ) (xs : List ℕ)
    → h.statement_at s ≡ new_statement
    → h.list_at l ≡ record { first = some x; last = some p }
    → last_or (some x) xs ≡ some p
    → p ≢ s
    → (g : Store) × Inserted h l s (x ∷ xs) [] g
unfolding insert
insert_last h l s x p xs free ends at_last apart =
    let null : is_null (h.statement_at s).list ≡ true = ap (λ v. is_null v.list) free in
    let old : (h.list_at l).last ≡ some p = ap (λ v. v.last) ends in
    (
      set_list s (some l) (set_last l (some s) (set_next p (some s) (set_previous s (some p) h))),
      (
        ap (λ b. if b then joined l s (put_at l (none) s h) else none) null
            ∙ ap (λ o. some (set_list s (some l) (insert_after o l s h))) old,
        (λ x. rw at_last (ground arith), λ m. ground arith),
      ),
    )

insert_first :
    (h : Store) (l s n : ℕ) (ys : List ℕ) (b : Option ℕ)
    → h.statement_at s ≡ new_statement
    → h.list_at l ≡ record { first = some n; last = last_or (some n) ys }
    → h.statement_at n ≡ between l none b
    → n ≢ s
    → (g : Store) × Inserted h l s [] (n ∷ ys) g
unfolding insert
insert_first h l s n ys b free ends at_next apart =
    let null : is_null (h.statement_at s).list ≡ true = ap (λ v. is_null v.list) free in
    let old : (h.list_at l).first ≡ some n = ap (λ v. v.first) ends in
    let no_previous : (h.statement_at n).previous ≡ none = ap (λ v. v.previous) at_next in
    (
      set_list s (some l) (set_first l (some s) (set_next s (some n) (set_previous n (some s) h))),
      (
        ap (λ b. if b then joined l s (put_at l (some n) s h) else none) null
            ∙ ap (λ o. joined l s (insert_before o (h.list_at l).first l n s h)) no_previous
            ∙ ap (λ o. joined l s (insert_before none o l n s h)) old,
        (λ x. ground arith, λ m. ground arith),
      ),
    )

insert_middle :
    (h : Store) (l s x p n : ℕ) (xs ys : List ℕ) (b : Option ℕ)
    → h.statement_at s ≡ new_statement
    → h.list_at l ≡ record { first = some x; last = last_or (some n) ys }
    → last_or (some x) xs ≡ some p
    → h.statement_at n ≡ between l (some p) b
    → n ≢ s
    → p ≢ s
    → p ≢ n
    → (g : Store) × Inserted h l s (x ∷ xs) (n ∷ ys) g
unfolding insert
insert_middle h l s x p n xs ys b free ends at_last at_next apart_next apart apart_both =
    let null : is_null (h.statement_at s).list ≡ true = ap (λ v. is_null v.list) free in
    let old : (h.statement_at n).previous ≡ some p = ap (λ v. v.previous) at_next in
    (
      set_list s (some l) (
          set_next s (some n)
            (set_previous s (some p) (set_previous n (some s) (set_next p (some s) h)))),
      (
        ap (λ b. if b then joined l s (put_at l (some n) s h) else none) null
            ∙ ap (λ o. joined l s (insert_before o (h.list_at l).first l n s h)) old,
        (λ x. rw at_last (ground arith), λ m. ground arith),
      ),
    )

inserted :
    (h : Store) (l s : ℕ) (xs ys : List ℕ)
    → IsList h l (xs ++ ys)
    → h.statement_at s ≡ new_statement
    → Absent s xs × Absent s ys
    → (g : Store) × Inserted h l s xs ys g
inserted h l s [] [] (ends, chain, distinct) free absent = insert_empty h l s free ends
inserted h l s [] (n ∷ ys) (ends, chain, distinct) free absent =
    insert_first h l s n ys (head_or ys none) free ends chain.0 absent.1.0
inserted h l s (x ∷ xs) [] (ends, chain, distinct) free absent =
    let (p, at_last, apart) = last-some (λ y. y ≢ s) x xs absent.0.0 absent.0.1 in
    insert_last h l s x p xs free
      (ends
        ∙ ap (λ o. record { first = some x; last = o }) (last_or-append (some x) xs [] ∙ at_last))
      at_last apart
inserted h l s (x ∷ xs) (n ∷ ys) (ends, chain, distinct) free absent =
    let (_, _, parts) = Distinct-split (x ∷ xs) (n ∷ ys) distinct in
    let facts = both (λ y. y ≢ s) (λ y. Absent y (n ∷ ys)) (x ∷ xs) absent.0 parts in
    let (p, at_last, (apart, others)) =
      last-some (λ y. (y ≢ s) × Absent y (n ∷ ys)) x xs facts.0 facts.1 in
    let (_, second) = Chain-split h l none (x ∷ xs) (n ∷ ys) none chain in
    insert_middle h l s x p n xs ys (head_or ys none) free
      (ends ∙ ap (λ o. record { first = some x; last = o }) (last_or-append (some x) xs (n ∷ ys)))
      at_last (second.0 ∙ ap (λ o. between l o (head_or ys none)) at_last) absent.1.0 apart
      (λ e. others.0 (sym e))

-- `insert` of a statement that is in no list, at an iterator into a list or at its end, puts it into
-- the sequence of that list before the iterator's statement, and leaves all other lists as they are.
pub insert-IsList :
    (h : Store) (l s : ℕ) (xs ys : List ℕ)
    → IsList h l (xs ++ ys)
    → h.statement_at s ≡ new_statement
    → (g : Store) × (insert l (head_or ys none) s h ≡ some g)
      × IsList g l (xs ++ s ∷ ys)
      × Keeps h g l
insert-IsList h l s xs ys is_list free =
    let none_list : (h.statement_at s).list ≡ none = ap (λ v. v.list) free in
    let absent =
      All-split (λ y. y ≢ s) xs ys
        (Chain-Absent h l none (xs ++ ys) none s (λ q. ground arith) is_list.1) in
    let (g, written) = inserted h l s xs ys is_list free absent in
    let (new_list, kept) = IsPut-IsList h g l s xs ys is_list free written.1 in
    (g, written.0, new_list, kept)

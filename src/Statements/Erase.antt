-- ===== src/Statements/Erase.antt =====
-- `erase` takes a statement out of its sequence.
use fcd.Base.{
  ℕ, ◌≡◌, ◌≢◌, refl, sym, subst, ap, ◌∙◌, true, false, Option, none, some, List, [], ◌∷◌, ◌++◌,
  ◌==◌, if◌then◌else◌, All-map, arith, ==_refl,
}
use fcd.Statements.Defs.{Statement, StatementList, Store, new_statement, erase_between, erase_at}
use fcd.Statements.Chain.{
  head_or, last_or, Chain-append, Chain-split, Absent, IsList, last_or-append, last-some,
  last-defined,
}
use fcd.Statements.Relink.{is, relinked, Keeps, Keeps-others, last-Absent}
use fcd.Statements.Parts.{
  Distinct-split, Distinct-append, Apart, head-Absent, first-Chain, second-Chain, others-kept,
}

abbrev new_ends : (before after : Option ℕ) → StatementList → StatementList
new_ends none none v = record { first = none; last = none }
new_ends none (some a) v = record { first = some a; last = v.last }
new_ends (some b) none v = record { first = v.first; last = some b }
new_ends (some b) (some a) v = v

abbrev Differ : Option ℕ → Option ℕ → Type 0
Differ (some b) (some a) = b ≢ a
Differ _ _ = Unit

erase_between-relinked :
    (h : Store) (l s : ℕ) (before after : Option ℕ)
    → is s before ≡ false
    → is s after ≡ false
    → Differ before after
    → ((x : ℕ)
        → (erase_between l s before after h).statement_at x
          ≡ relinked h s new_statement before after before after x)
      × ((m : ℕ)
          → (erase_between l s before after h).list_at m
            ≡ (if m == l then new_ends before after (h.list_at l) else h.list_at m))
erase_between-relinked h l s none none p q d = (λ x. ground arith, λ m. ground arith)
erase_between-relinked h l s none (some a) p q d = (λ x. ground arith, λ m. ground arith)
erase_between-relinked h l s (some b) none p q d = (λ x. ground arith, λ m. ground arith)
erase_between-relinked h l s (some b) (some a) p q d = (λ x. ground arith, λ m. ground arith)

erased_ends :
    (v : StatementList) (s : ℕ) (xs ys : List ℕ)
    → v ≡ record { first = head_or (xs ++ s ∷ ys) none; last = last_or none (xs ++ s ∷ ys) }
    → new_ends (last_or none xs) (head_or ys none) v
      ≡ record { first = head_or (xs ++ ys) none; last = last_or none (xs ++ ys) }
erased_ends v s [] [] q = refl
erased_ends v s [] (n ∷ ys) q = ap (λ w. record { first = some n; last = w.last }) q
erased_ends v s (x ∷ xs) [] q =
    let (p, at_last) = last-defined x xs in
    rw (last_or-append (some x) xs [], at_last)
      (ap (λ w. record { first = w.first; last = some p }) q)
erased_ends v s (x ∷ xs) (n ∷ ys) q =
    let (p, at_last) = last-defined x xs in
    let same =
      last_or-append (some x) xs (s ∷ n ∷ ys) ∙ sym (last_or-append (some x) xs (n ∷ ys)) in
    ap (λ o. new_ends o (some n) v) at_last ∙ q ∙ ap (λ o. record { first = some x; last = o }) same

Differ-parts : (xs ys : List ℕ) → Apart xs ys → Differ (last_or none xs) (head_or ys none)
Differ-parts [] ys a = tt
Differ-parts (x ∷ xs) [] a =
    let (p, at_last) = last-defined x xs in subst (λ o. Differ o none) (sym at_last) tt
Differ-parts (x ∷ xs) (n ∷ ys) a =
    let (p, at_last, apart) = last-some (λ y. Absent y (n ∷ ys)) x xs a.0 a.1 in
    subst (λ o. Differ o (some n)) (sym at_last) (λ e. apart.0 (sym e))

-- the statement's own place, from the chain of the whole sequence
abbrev Placed : Store → (l s : ℕ) → (before after : Option ℕ) → Type 0
Placed h l s before after =
    h.statement_at s ≡ record { list = some l; previous = before; next = after }

-- `erase` of a statement of a list takes it out of the sequence of that list and leaves it without
-- list and neighbours; the iterator that it returns is at the statement after the erased one, or at
-- the end, and all other lists stay as they are.
pub erase_at-IsList :
    (h : Store) (l s : ℕ) (xs ys : List ℕ)
    → IsList h l (xs ++ s ∷ ys)
    → ((erase_at l s h).0 ≡ head_or ys none)
      × IsList (erase_at l s h).1 l (xs ++ ys)
      × ((erase_at l s h).1.statement_at s ≡ new_statement)
      × Keeps h (erase_at l s h).1 l
unfolding erase_at
erase_at-IsList h l s xs ys (ends, chain, distinct) =
    let before = last_or none xs in
    let after = head_or ys none in
    let (first, rest) = Chain-split h l none xs (s ∷ ys) none chain in
    let place = rest.0 in
    let second = rest.1 in
    let (dx, ds, apart_s) = Distinct-split xs (s ∷ ys) distinct in
    let sy = ds.0 in
    let dy = ds.1 in
    let sx : Absent s xs =
      All-map (λ x. Absent x (s ∷ ys)) (λ x. x ≢ s) xs (λ x q e. q.0 (sym e)) apart_s in
    let apart : Apart xs ys =
      All-map (λ x. Absent x (s ∷ ys)) (λ x. Absent x ys) xs (λ x q. q.1) apart_s in
    let (written, lists) =
      erase_between-relinked h l s before after (last-Absent s none xs refl sx)
        (head-Absent s ys sy) (Differ-parts xs ys apart) in
    let g = erase_between l s before after h in
    let here : (s == s) ≡ true = ==_refl s in
    let this : (l == l) ≡ true = ==_refl l in
    let left =
      first-Chain h g s l new_statement before after xs ys written sx sy dx dy apart none (some s)
        first in
    let right =
      second-Chain h g s l new_statement before after xs ys written sx sy dx dy apart (some s) none
        second in
    let not_here : (x m : ℕ) → m ≢ l → (h.statement_at x).list ≡ some m → x ≢ s =
      λ x m other listed e.
        let moved : (h.statement_at s).list ≡ some m =
          subst (λ y. (h.statement_at y).list ≡ some m) e listed in
        let own : (h.statement_at s).list ≡ some l = ap (λ (v : Statement). v.list) place in
        ground arith in
    let result : erase_at l s h ≡ (after, g) =
      ap (λ (v : Statement). (v.next, erase_between l s v.previous v.next h)) place in
    let whole : (after ≡ head_or ys none)
        × IsList g l (xs ++ ys)
        × (g.statement_at s ≡ new_statement)
        × Keeps h g l =
      (
        refl,
        (
          lists l ∙ rw this (erased_ends (h.list_at l) s xs ys ends),
          Chain-append g l none xs ys none left right,
          Distinct-append xs ys dx dy apart,
        ),
        written s ∙ rw here refl,
        Keeps-others h g l
            (λ x m other listed.
              others-kept h g s l new_statement before after xs ys written sx sy dx dy apart none
                (some s) (some s) x m first second other listed (λ e. not_here x m other listed e))
            (λ m other. let no : (m == l) ≡ false = ground arith in lists m ∙ rw no refl),
      ) in
    subst
      (λ (r : Option ℕ × Store).
        (r.0 ≡ head_or ys none)
        × IsList r.1 l (xs ++ ys)
        × (r.1.statement_at s ≡ new_statement)
        × Keeps h r.1 l)
      (sym result) whole

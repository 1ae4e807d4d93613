-- ===== src/Statements/Put.antt =====
-- What a statement put between two parts of a sequence leaves.
use fcd.Base.{
  ℕ, ◌≡◌, ◌≢◌, refl, sym, subst, ap, ◌∙◌, true, false, Option, none, some, List, ◌∷◌, ◌++◌, ◌==◌,
  if◌then◌else◌, All-map, arith, ==_refl,
}
use fcd.Statements.Defs.{Statement, Store, new_statement}
use fcd.Statements.Chain.{
  head_or, last_or, Chain-append, Chain-split, Absent, IsList, head_or-append, last_or-append,
}
use fcd.Statements.Relink.{relinked, Keeps, Keeps-others, Chain-Absent}
use fcd.Statements.Parts.{
  Distinct-split, Distinct-append, both, first-Chain, second-Chain, others-kept,
}

abbrev pub between : (l : ℕ) → (before after : Option ℕ) → Statement
between l before after = record { list = some l; previous = before; next = after }

-- the statements and the lists after the statement is put between the two parts
abbrev pub IsPut : Store → (l s : ℕ) → (xs ys : List ℕ) → Store → Type 0
IsPut h l s xs ys g =
    ((x : ℕ)
      → g.statement_at x
        ≡ relinked h s (between l (last_or none xs) (head_or ys none)) (last_or none xs)
            (head_or ys none) (some s) (some s) x)
    × ((m : ℕ)
        → g.list_at m ≡ (
            if m == l
            then record { first = head_or xs (some s); last = last_or (some s) ys }
            else h.list_at m))

-- from the pointers to the sequence
pub IsPut-IsList :
    (h g : Store) (l s : ℕ) (xs ys : List ℕ)
    → IsList h l (xs ++ ys)
    → h.statement_at s ≡ new_statement
    → IsPut h l s xs ys g
    → IsList g l (xs ++ s ∷ ys) × Keeps h g l
IsPut-IsList h g l s xs ys (ends, chain, distinct) free (written, lists) =
    let before = last_or none xs in
    let after = head_or ys none in
    let (first, second) = Chain-split h l none xs ys none chain in
    let (dx, dy, apart) = Distinct-split xs ys distinct in
    let none_list : (h.statement_at s).list ≡ none = ap (λ v. v.list) free in
    let no_list : (h.statement_at s).list ≢ some l = λ q. ground arith in
    let sx = Chain-Absent h l none xs after s no_list first in
    let sy = Chain-Absent h l before ys none s no_list second in
    let here : (s == s) ≡ true = ==_refl s in
    let itself : g.statement_at s ≡ between l before after = written s ∙ rw here refl in
    let left =
      first-Chain h g s l (between l before after) (some s) (some s) xs ys written sx sy dx dy apart
        none after first in
    let right =
      second-Chain h g s l (between l before after) (some s) (some s) xs ys written sx sy dx dy
        apart before none second in
    let this : (l == l) ≡ true = ==_refl l in
    let new_ends : g.list_at l
        ≡ record { first = head_or (xs ++ s ∷ ys) none; last = last_or none (xs ++ s ∷ ys) } =
      lists l ∙ rw (this, head_or-append xs (s ∷ ys) none, last_or-append none xs (s ∷ ys)) refl in
    (
      (
        new_ends,
        Chain-append g l none xs (s ∷ ys) none left (itself, right),
        Distinct-append xs (s ∷ ys) dx (sy, dy)
            (All-map (λ x. (x ≢ s) × Absent x ys) _ xs (λ x q. (λ e. q.0 (sym e), q.1))
              (both (λ x. x ≢ s) _ xs sx apart)),
      ),
      Keeps-others h g l
          (λ x m other listed.
            others-kept h g s l (between l before after) (some s) (some s) xs ys written sx sy dx dy
              apart none after before x m first second other listed
              (λ e.
                let moved : (h.statement_at s).list ≡ some m =
                  subst (λ y. (h.statement_at y).list ≡ some m) e listed in
                ground arith))
          (λ m other. let no : (m == l) ≡ false = ground arith in lists m ∙ rw no refl),
    )

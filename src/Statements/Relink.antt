-- ===== src/Statements/Relink.antt =====
-- Chains after a change of the last successor, or of the first predecessor.
use fcd.Base.{
  ℕ, ◌≡◌, ◌≢◌, refl, subst, ap, ◌∙◌, Bool, true, false, Option, none, some, List, [], ◌∷◌, ◌==◌,
  if◌then◌else◌, All, All-map, arith, ==_refl,
}
use fcd.Statements.Defs.{Statement, Store}
use fcd.Statements.Chain.{head_or, last_or, Chain, Chain-frame, Absent, Distinct, IsList}

abbrev pub is : ℕ → Option ℕ → Bool
is x none = false
is x (some y) = x == y

abbrev pub with_next : Option ℕ → Statement → Statement
with_next n v = record v { next = n }

abbrev pub with_previous : Option ℕ → Statement → Statement
with_previous p v = record v { previous = p }

pub last-Absent :
    (x : ℕ) (o : Option ℕ) (xs : List ℕ)
    → is x o ≡ false
    → Absent x xs
    → is x (last_or o xs) ≡ false
last-Absent x o [] h a = h
last-Absent x o (y ∷ xs) h a = let apart = a.0 in last-Absent x (some y) xs (ground arith) a.1

pub Chain-with_next :
    (h g : Store) (l : ℕ) (before : Option ℕ) (xs : List ℕ) (after n : Option ℕ)
    → Distinct xs
    → All
        (λ x.
          g.statement_at x
          ≡ (if is x (last_or none xs) then with_next n (h.statement_at x) else h.statement_at x))
        xs
    → Chain h l before xs after
    → Chain g l before xs n
Chain-with_next h g l before [] after n d same p = tt
Chain-with_next h g l before (x ∷ []) after n d same p =
    let here : (x == x) ≡ true = ==_refl x in (same.0 ∙ rw here (ap (with_next n) p.0), tt)
Chain-with_next h g l before (x ∷ y ∷ xs) after n d same p =
    let apart = d.0.0 in
    let other : is x (last_or (some y) xs) ≡ false =
      last-Absent x (some y) xs (ground arith) d.0.1 in
    (same.0 ∙ rw other p.0, Chain-with_next h g l (some x) (y ∷ xs) after n d.1 same.1 p.1)

others-unchanged :
    (h g : Store) (x : ℕ) (p : Option ℕ) (ys : List ℕ)
    → Absent x ys
    → All
        (λ y.
          g.statement_at y
          ≡ (if y == x then with_previous p (h.statement_at y) else h.statement_at y))
        ys
    → All (λ y. g.statement_at y ≡ h.statement_at y) ys
others-unchanged h g x p [] a same = tt
others-unchanged h g x p (y ∷ ys) a same =
    let apart = a.0 in
    let other : (y == x) ≡ false = ground arith in
    (same.0 ∙ rw other refl, others-unchanged h g x p ys a.1 same.1)

pub Chain-with_previous :
    (h g : Store) (l : ℕ) (before : Option ℕ) (xs : List ℕ) (after p : Option ℕ)
    → Distinct xs
    → All
        (λ x. g.statement_at x ≡ (
          if is x (head_or xs none) then with_previous p (h.statement_at x) else h.statement_at x))
        xs
    → Chain h l before xs after
    → Chain g l p xs after
Chain-with_previous h g l before [] after p d same c = tt
Chain-with_previous h g l before (x ∷ xs) after p d same c =
    let here : (x == x) ≡ true = ==_refl x in
    (
      same.0 ∙ rw here (ap (with_previous p) c.0),
      Chain-frame h g l (some x) xs after (others-unchanged h g x p xs d.0 same.1) c.1,
    )

-- a statement of one of the two parts
abbrev pub relinked :
    Store → (s : ℕ) → (v : Statement) → (before after : Option ℕ) → (p n : Option ℕ) → ℕ → Statement
relinked h s v before after p n x =
    if x == s
    then v
    else if is x before
    then with_next n (h.statement_at x)
    else if is x after
    then with_previous p (h.statement_at x)
    else h.statement_at x

-- What the list operations leave of all other lists
abbrev pub Keeps : Store → Store → (l : ℕ) → Type 0
Keeps h g l = (m : ℕ) (xs : List ℕ) → m ≢ l → IsList h m xs → IsList g m xs

pub Chain-lists :
    (h : Store) (l : ℕ) (before : Option ℕ) (xs : List ℕ) (after : Option ℕ)
    → Chain h l before xs after
    → All (λ x. (h.statement_at x).list ≡ some l) xs
Chain-lists h l before [] after c = tt
Chain-lists h l before (x ∷ xs) after c =
    (ap (λ v. v.list) c.0, Chain-lists h l (some x) xs after c.1)

pub Keeps-others :
    (h g : Store) (l : ℕ)
    → ((x m : ℕ) → m ≢ l → (h.statement_at x).list ≡ some m → g.statement_at x ≡ h.statement_at x)
    → ((m : ℕ) → m ≢ l → g.list_at m ≡ h.list_at m)
    → Keeps h g l
Keeps-others h g l statements lists m xs apart (ends, chain, distinct) = (
  lists m apart ∙ ends,
  Chain-frame h g m none xs none
      (All-map _ _ xs (λ x q. statements x m apart q) (Chain-lists h m none xs none chain)) chain,
  distinct,
)

-- A statement of another list is not in the chain.
pub Chain-Absent :
    (h : Store) (l : ℕ) (before : Option ℕ) (xs : List ℕ) (after : Option ℕ) (s : ℕ)
    → (h.statement_at s).list ≢ some l
    → Chain h l before xs after
    → Absent s xs
Chain-Absent h l before xs after s free chain =
    All-map _ _ xs (λ x q e. free (subst (λ y. (h.statement_at y).list ≡ some l) e q))
      (Chain-lists h l before xs after chain)

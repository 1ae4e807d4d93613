-- ===== src/Statements/Chain.antt =====
-- When the pointers of a list and its statements are those of a sequence of statements.
use fcd.Base.{ℕ, ◌≡◌, ◌≢◌, refl, ap, ◌∙◌, Option, none, some, List, [], ◌∷◌, ◌++◌, All}
use fcd.Statements.Defs.{Store}

abbrev pub head_or : List ℕ → Option ℕ → Option ℕ
head_or [] o = o
head_or (x ∷ xs) o = some x

abbrev pub last_or : Option ℕ → List ℕ → Option ℕ
last_or o [] = o
last_or o (x ∷ xs) = last_or (some x) xs

-- The statements stand in the list `l` between two others.
abbrev pub Chain : Store → (l : ℕ) → (before : Option ℕ) → List ℕ → (after : Option ℕ) → Type 0
Chain h l before [] after = Unit
Chain h l before (x ∷ xs) after =
    (h.statement_at x ≡ record { list = some l; previous = before; next = head_or xs after })
    × Chain h l (some x) xs after

abbrev pub Absent : ℕ → List ℕ → Type 0
Absent x xs = All (λ y. y ≢ x) xs

abbrev pub Distinct : List ℕ → Type 0
Distinct [] = Unit
Distinct (x ∷ xs) = Absent x xs × Distinct xs

abbrev pub IsList : Store → (l : ℕ) → List ℕ → Type 0
IsList h l xs =
    (h.list_at l ≡ record { first = head_or xs none; last = last_or none xs })
    × Chain h l none xs none
    × Distinct xs

pub head_or-append :
    (xs ys : List ℕ) (o : Option ℕ) → head_or (xs ++ ys) o ≡ head_or xs (head_or ys o)
head_or-append [] ys o = refl
head_or-append (x ∷ xs) ys o = refl

pub last_or-append :
    (o : Option ℕ) (xs ys : List ℕ) → last_or o (xs ++ ys) ≡ last_or (last_or o xs) ys
last_or-append o [] ys = refl
last_or-append o (x ∷ xs) ys = last_or-append (some x) xs ys

pub Chain-append :
    (h : Store) (l : ℕ) (before : Option ℕ) (xs ys : List ℕ) (after : Option ℕ)
    → Chain h l before xs (head_or ys after)
    → Chain h l (last_or before xs) ys after
    → Chain h l before (xs ++ ys) after
Chain-append h l before [] ys after p q = q
Chain-append h l before (x ∷ xs) ys after p q =
    (rw (head_or-append xs ys after) p.0, Chain-append h l (some x) xs ys after p.1 q)

pub Chain-split :
    (h : Store) (l : ℕ) (before : Option ℕ) (xs ys : List ℕ) (after : Option ℕ)
    → Chain h l before (xs ++ ys) after
    → Chain h l before xs (head_or ys after) × Chain h l (last_or before xs) ys after
Chain-split h l before [] ys after p = (tt, p)
Chain-split h l before (x ∷ xs) ys after p =
    let (a, b) = Chain-split h l (some x) xs ys after p.1 in
    (
      (
        p.0
            ∙ ap (λ n. record { list = some l; previous = before; next = n })
                (head_or-append xs ys after),
        a,
      ),
      b,
    )

-- Statements that are not changed keep their chain.
pub Chain-frame :
    (h g : Store) (l : ℕ) (before : Option ℕ) (xs : List ℕ) (after : Option ℕ)
    → All (λ x. g.statement_at x ≡ h.statement_at x) xs
    → Chain h l before xs after
    → Chain g l before xs after
Chain-frame h g l before [] after same p = tt
Chain-frame h g l before (x ∷ xs) after same p =
    (same.0 ∙ p.0, Chain-frame h g l (some x) xs after same.1 p.1)

-- the last statement, with what holds of all of them
pub last-some :
    (P : ℕ → Type 0) (x : ℕ) (xs : List ℕ)
    → P x
    → All P xs
    → (p : ℕ) × (last_or (some x) xs ≡ some p) × P p
last-some P x [] a b = (x, refl, a)
last-some P x (y ∷ xs) a b = last-some P y xs b.0 b.1

pub last-defined : (x : ℕ) (xs : List ℕ) → (p : ℕ) × (last_or (some x) xs ≡ some p)
last-defined x [] = (x, refl)
last-defined x (y ∷ xs) = last-defined y xs

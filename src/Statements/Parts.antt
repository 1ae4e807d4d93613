-- ===== src/Statements/Parts.antt =====
-- A sequence of statements in two parts, and the statements at which they meet.
use fcd.Base.{
  ℕ, ◌≡◌, ◌≢◌, refl, sym, ◌∙◌, false, Option, none, some, List, [], ◌∷◌, ◌++◌, ◌==◌, All, All-map,
  All-append, arith,
}
use fcd.Statements.Defs.{Statement, Store}
use fcd.Statements.Chain.{head_or, last_or, Chain, Absent, Distinct}
use fcd.Statements.Relink.{
  is, relinked, last-Absent, Chain-Absent, Chain-with_next, Chain-with_previous,
}

pub both :
    {A : Type 0} (P Q : A → Type 0) (xs : List A) → All P xs → All Q xs → All (λ x. P x × Q x) xs
both P Q [] p q = tt
both P Q (x ∷ xs) p q = ((p.0, q.0), both P Q xs p.1 q.1)

pub All-split :
    {A : Type 0} (P : A → Type 0) (xs ys : List A) → All P (xs ++ ys) → All P xs × All P ys
All-split P [] ys h = (tt, h)
All-split P (x ∷ xs) ys h = let (a, b) = All-split P xs ys h.1 in ((h.0, a), b)

-- no statement of the first list is in the second
abbrev pub Apart : List ℕ → List ℕ → Type 0
Apart xs ys = All (λ x. Absent x ys) xs

pub Distinct-split :
    (xs ys : List ℕ) → Distinct (xs ++ ys) → Distinct xs × Distinct ys × Apart xs ys
Distinct-split [] ys d = (tt, d, tt)
Distinct-split (x ∷ xs) ys d =
    let (a, b, c) = Distinct-split xs ys d.1 in
    let (e, f) = All-split (λ y. y ≢ x) xs ys d.0 in ((e, a), b, (f, c))

pub Distinct-append :
    (xs ys : List ℕ) → Distinct xs → Distinct ys → Apart xs ys → Distinct (xs ++ ys)
Distinct-append [] ys p q a = q
Distinct-append (x ∷ xs) ys p q a =
    (All-append (λ y. y ≢ x) xs ys p.0 a.0, Distinct-append xs ys p.1 q a.1)

pub head-Absent : (x : ℕ) (ys : List ℕ) → Absent x ys → is x (head_or ys none) ≡ false
head-Absent x [] a = refl
head-Absent x (y ∷ ys) a = let apart = a.0 in ground arith

-- the last of the first list is not in the second
Apart-last : (xs ys : List ℕ) → Apart xs ys → All (λ y. is y (last_or none xs) ≡ false) ys
Apart-last xs [] a = tt
Apart-last xs (y ∷ ys) a = (
  last-Absent y none xs refl
      (All-map (λ x. Absent x (y ∷ ys)) (λ x. x ≢ y) xs (λ x h q. h.0 (sym q)) a),
  Apart-last xs ys (All-map (λ x. Absent x (y ∷ ys)) (λ x. Absent x ys) xs (λ x h. h.1) a),
)

module _ (h g : Store) (s l : ℕ) (v : Statement) (p n : Option ℕ) (xs ys : List ℕ)
    (written : (x : ℕ)
      → g.statement_at x ≡ relinked h s v (last_or none xs) (head_or ys none) p n x)
    (first_absent : Absent s xs) (second_absent : Absent s ys) (first_distinct : Distinct xs)
    (second_distinct : Distinct ys) (apart : Apart xs ys) where
  pub first-Chain : (before after : Option ℕ) → Chain h l before xs after → Chain g l before xs n
  first-Chain before after chain =
      Chain-with_next h g l before xs after n first_distinct
        (All-map (λ x. (x ≢ s) × Absent x ys) _ xs
          (λ x q.
            let here = q.0 in
            let no_s : (x == s) ≡ false = ground arith in
            let no_after = head-Absent x ys q.1 in written x ∙ rw (no_s, no_after) refl)
          (both (λ x. x ≢ s) (λ x. Absent x ys) xs first_absent apart))
        chain

  pub second-Chain : (before after : Option ℕ) → Chain h l before ys after → Chain g l p ys after
  second-Chain before after chain =
      Chain-with_previous h g l before ys after p second_distinct
        (All-map (λ x. (x ≢ s) × (is x (last_or none xs) ≡ false)) _ ys
          (λ x q.
            let here = q.0 in
            let no_s : (x == s) ≡ false = ground arith in
            let no_before = q.1 in written x ∙ rw (no_s, no_before) refl)
          (both (λ x. x ≢ s) _ ys second_absent (Apart-last xs ys apart)))
        chain

  -- Statements of other lists are not changed.
  pub others-kept :
      (before after middle : Option ℕ) (x m : ℕ)
      → Chain h l before xs after
      → Chain h l middle ys none
      → m ≢ l
      → (h.statement_at x).list ≡ some m
      → x ≢ s
      → g.statement_at x ≡ h.statement_at x
  others-kept before after middle x m first second other listed not_s =
      let elsewhere : (h.statement_at x).list ≢ some l = λ q. ground arith in
      let no_s : (x == s) ≡ false = ground arith in
      let no_before =
        last-Absent x none xs refl (Chain-Absent h l before xs after x elsewhere first) in
      let no_after = head-Absent x ys (Chain-Absent h l middle ys none x elsewhere second) in
      written x ∙ rw (no_s, no_before, no_after) refl

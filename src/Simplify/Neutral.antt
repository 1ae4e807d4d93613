-- ===== src/Simplify/Neutral.antt =====
-- The terms of which the loops of `removeIdenticalTerms` keep nothing.
use fcd.Base.{
  ℕ, ◌+◌, ◌≡◌, refl, inl, inr, Bool, true, false, ◌||◌, List, [], ◌∷◌, All, ◌==◌, ==_iff,
  Bool-cases, if◌then◌else◌,
}
use fcd.Expr.Defs.{NAryOperator, short_circuit_and, short_circuit_or, Expression, address}
use fcd.Expr.Negate.{Constants}
use fcd.Simplify.Terms.{
  has, Removal, returned, kept, keep, is_or, is_and, keep_false_terms, keep_true_terms,
}

-- The constant that adds nothing to a true term, and the one that adds nothing to a false term
abbrev pub neutral : Constants → NAryOperator → Expression
neutral c op = if is_and op then c.expression_for_true else c.expression_for_false

abbrev pub deciding : Constants → NAryOperator → Expression
deciding c op = if is_and op then c.expression_for_false else c.expression_for_true

abbrev pub AllAt : Expression → List Expression → Type 0
AllAt k es = All (λ e. address e ≡ address k) es

keep-not_empty : {A : Type 0} (e : Expression) (m : Removal) → keep e m ≡ kept [] → A
keep-not_empty e (returned r) h = cc
keep-not_empty e (kept es) h = cc

if-true : {A : Type 0} (b : Bool) (x y : A) {z : A} → b ≡ true → (if b then x else y) ≡ z → x ≡ z
if-true true x y q h = h
if-true false x y q h = cc

if-false : {A : Type 0} (b : Bool) (x y : A) {z : A} → b ≡ false → (if b then x else y) ≡ z → y ≡ z
if-false true x y q h = cc
if-false false x y q h = h

constant-kept :
    (b : Bool) (r : Expression) (m : Removal)
    → (if b then returned r else m) ≡ kept []
    → (b ≡ false) × (m ≡ kept [])
constant-kept true r m h = cc
constant-kept false r m h = (refl, h)

module _ (c : Constants) where
  neutral-true :
      (op : NAryOperator) (t : Expression)
      → (is_or op || is_and op) ≡ true
      → is_or op ≡ false
      → (address t == address c.expression_for_true) ≡ true
      → address t ≡ address (neutral c op)
  neutral-true short_circuit_and t ok o q = (==_iff _ _).0 q
  neutral-true _ t ok o q = cc

  neutral-false :
      (op : NAryOperator) (t : Expression)
      → (is_or op || is_and op) ≡ true
      → is_and op ≡ false
      → (address t == address c.expression_for_false) ≡ true
      → address t ≡ address (neutral c op)
  neutral-false short_circuit_or t ok o q = (==_iff _ _).0 q
  neutral-false _ t ok o q = cc

  deciding-true :
      (op : NAryOperator) (t : Expression)
      → (is_or op || is_and op) ≡ true
      → is_and op ≡ false
      → (address t == address c.expression_for_true) ≡ true
      → address t ≡ address (deciding c op)
  deciding-true short_circuit_or t ok o q = (==_iff _ _).0 q
  deciding-true _ t ok o q = cc

  deciding-false :
      (op : NAryOperator) (t : Expression)
      → (is_or op || is_and op) ≡ true
      → is_or op ≡ false
      → (address t == address c.expression_for_false) ≡ true
      → address t ≡ address (deciding c op)
  deciding-false short_circuit_and t ok o q = (==_iff _ _).0 q
  deciding-false _ t ok o q = cc

  -- A loop keeps nothing only where every term is the constant that changes nothing.
  pub keep_true_terms-AllAt :
      (op : NAryOperator) (ts : List Expression)
      → (is_or op || is_and op) ≡ true
      → keep_true_terms c op ts ≡ kept []
      → AllAt (neutral c op) ts
  unfolding keep_true_terms
  keep_true_terms-AllAt op [] ok h = tt
  keep_true_terms-AllAt op (t ∷ ts) ok h =
      let ih = keep_true_terms-AllAt op ts ok in
      elim (Bool-cases (address t == address c.expression_for_true)) [
        | inl q ↦
            let g = constant-kept (is_or op) _ _ (if-true _ _ _ q h) in
            (neutral-true op t ok g.0 q, ih g.1)
        | inr q ↦ elim (Bool-cases (address t == address c.expression_for_false)) [
          | inl r ↦
              let g = constant-kept (is_and op) _ _ (if-true _ _ _ r (if-false _ _ _ q h)) in
              (neutral-false op t ok g.0 r, ih g.1)
          | inr r ↦ keep-not_empty t _ (if-false _ _ _ r (if-false _ _ _ q h))
        ]
      ]

  pub keep_false_terms-AllAt :
      (op : NAryOperator) (ts : List Expression) (fresh : ℕ) (fs : List Expression)
      → (is_or op || is_and op) ≡ true
      → keep_false_terms c op ts fresh fs ≡ kept []
      → AllAt (deciding c op) fs
  unfolding keep_false_terms
  keep_false_terms-AllAt op ts fresh [] ok h = tt
  keep_false_terms-AllAt op ts fresh (f ∷ fs) ok h =
      let ih = keep_false_terms-AllAt op ts (fresh + 1) fs ok in
      let g = constant-kept (has (address f) ts) _ _ h in
      elim (Bool-cases (address f == address c.expression_for_true)) [
        | inl q ↦
            let k = constant-kept (is_and op) _ _ (if-true _ _ _ q g.1) in
            (deciding-true op f ok k.0 q, ih k.1)
        | inr q ↦ elim (Bool-cases (address f == address c.expression_for_false)) [
          | inl r ↦
              let k = constant-kept (is_or op) _ _ (if-true _ _ _ r (if-false _ _ _ q g.1)) in
              (deciding-false op f ok k.0 r, ih k.1)
          | inr r ↦ keep-not_empty _ _ (if-false _ _ _ r (if-false _ _ _ q g.1))
        ]
      ]

-- ===== src/Combine/Counter.antt =====
-- A machine that counts, whose conditions are names, negations and conjunctions.
use Prim.Native.String.{String}
use text.Mathlib.Text.{◌==◌ as str_eq}
use text.Mathlib.TextEquality.{eq_iff}
use fcd.Base.{
  ℕ, suc, ◌≤◌, ◌≡◌, refl, ap, Bool, true, false, not, ◌&&◌, ◌||◌, ltb, some, none, arith, inl, inr,
  Bool-cases,
}
use fcd.Expr.Defs.{
  logical_negate, short_circuit_and, token, unary, nary, Expression, node, nil, cons, address,
  numeric,
}
use fcd.Expr.Equality.{equals}
use fcd.Expr.Negate.{Constants, IsReading, negate, count_negations, count_negation_depth}
use fcd.Combine.Tree.{Statement, expr, keyword}
use fcd.Combine.Run.{Machine}
use fcd.Combine.Merge.{Conditions}
use fcd.Combine.NestedKept.{Meaning}

abbrev pub constants : Constants
constants = record {
  expression_for_true = node 1 (token 0 "true") nil;
  expression_for_false = node 2 (token 0 "false") nil;
}

-- The name `below` is true while the count is below 3, and `true` always.
abbrev pub named : ℕ → String → Bool
named st s = str_eq s "true" || (str_eq s "below" && ltb st 3)

abbrev pub worth : ℕ → Expression → Bool
worth st (node p (token t s) es) = named st s
worth st (node p (unary logical_negate) (cons e es)) = not (worth st e)
worth st (node p (nary short_circuit_and) (cons a (cons b nil))) = worth st a && worth st b
worth st e = false

abbrev pub counter : Machine
counter = record { State = ℕ; effect = λ e st. suc st; truth = worth }

pub data IsCondition : Expression → Type 0 where
  name :
      (p : ℕ) (s : String)
      → (p ≡ 1 → s ≡ "true")
      → (p ≡ 2 → s ≡ "false")
      → IsCondition (node p (token 0 s) nil)
  negated :
      (p : ℕ) (e : Expression)
      → 10 ≤ p
      → IsCondition e
      → IsCondition (node p (unary logical_negate) (cons e nil))

pub compared-worth :
    (a b : Expression)
    → IsCondition a
    → IsCondition b
    → (r : Bool) × (equals a b ≡ some r) × (r ≡ true → (st : ℕ) → worth st a ≡ worth st b)
unfolding equals
compared-worth a b (name p s _ _) (name q t _ _) =
    (str_eq s t, refl, λ h st. ap (named st) ((eq_iff s t).0 h))
compared-worth a b (name p s _ _) (negated q e _ _) = (false, refl, λ h. cc)
compared-worth a b (negated p d _ _) (name q t _ _) = (false, refl, λ h. cc)
compared-worth a b (negated p d _ hd) (negated q e _ he) =
    let (r, found, says) = compared-worth d e hd he in (r, found, λ h st. ap not (says h st))

true-IsCondition : IsCondition constants.expression_for_true
true-IsCondition = name 1 "true" (λ h. refl) (λ h. absurd (omega arith))

false-IsCondition : IsCondition constants.expression_for_false
false-IsCondition = name 2 "false" (λ h. absurd (omega arith)) (λ h. refl)

pub negate-IsCondition :
    (n : ℕ) (e : Expression) → 10 ≤ n → IsCondition e → IsCondition (negate constants n e)
unfolding negate
negate-IsCondition n e new (name p s h k) = elim (Bool-cases (str_eq s "true")) [
  | inl q ↦ rw q false-IsCondition
  | inr q ↦ rw q (elim (Bool-cases (str_eq s "false")) [
    | inl r ↦ rw r true-IsCondition
    | inr r ↦ rw r (negated n (node p (token 0 s) nil) new (name p s h k))
  ])
]
negate-IsCondition n e new (negated p d h hd) = hd

pub canonical-IsCondition :
    (b : Bool) (e : Expression) → IsCondition e → IsCondition (count_negations b e).canonical
unfolding count_negations
canonical-IsCondition b e (name p s h k) = name p s h k
canonical-IsCondition b e (negated p d h hd) = canonical-IsCondition (not b) d hd

pub true_address :
    (e : Expression) → IsCondition e → address e ≡ 1 → e ≡ constants.expression_for_true
true_address e (name p s h k) q = let t = h q in cc
true_address e (negated p d h hd) q = absurd (omega arith)

pub false_address :
    (e : Expression) → IsCondition e → address e ≡ 2 → e ≡ constants.expression_for_false
false_address e (name p s h k) q = let t = k q in cc
false_address e (negated p d h hd) q = absurd (omega arith)

pub worth-IsReading : (st : ℕ) → IsReading constants (worth st)
worth-IsReading st = record {
  negates = λ p e es. refl;
  is_true = λ p t es. refl;
  is_false = λ p t es. refl;
  for_true = refl;
  for_false = refl;
}

unfoldable pub conditions : Conditions counter constants
unfolding count_negation_depth
conditions = record {
  Tested = IsCondition;
  reading = worth-IsReading;
  compared = compared-worth;
  first_new = 10;
  tested_negate = negate-IsCondition;
  tested_canonical = canonical-IsCondition false;
  true_address = true_address;
  false_address = false_address;
}

abbrev pub flag : Expression
flag = node 3 (token 0 "flag") nil

pub flag_tested : IsCondition flag
flag_tested = name 3 "flag" (λ h. absurd (omega arith)) (λ h. absurd (omega arith))

abbrev pub not_flag : Expression
not_flag = node 14 (unary logical_negate) (cons flag nil)

abbrev pub below : Expression
below = node 5 (token 0 "below") nil

pub below_tested : IsCondition below
below_tested = name 5 "below" (λ h. absurd (omega arith)) (λ h. absurd (omega arith))

abbrev pub count : Statement
count = expr (node 6 (numeric 0 1) nil)

abbrev pub breaks : Statement
breaks = keyword "break" none

unfoldable pub meaning : Meaning counter constants
meaning = record { reading = worth-IsReading; conjoins = λ st n a b. refl }

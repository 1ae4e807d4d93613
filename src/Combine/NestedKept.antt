-- ===== src/Combine/NestedKept.antt =====
-- `AstNestedCombiner` keeps what a function does.
use Prim.Native.String.{String}
use text.Mathlib.TextEquality.{eq_iff}
use fcd.Base.{ℕ, ◌≡◌, ◌≢◌, refl, ◌⊎◌, ap, inl, inr, Bool, true, false, ◌&&◌, Option, some}
use fcd.Expr.Defs.{short_circuit_and, nary, Expression, node, nil as no_operands, cons as operand}
use fcd.Expr.Negate.{Constants, IsReading}
use fcd.Combine.Tree.{Statement, Statements, expr, keyword, if_else, loop, nil, cons}
use fcd.Combine.Run.{Machine}
use fcd.Combine.Each.{Asked, Each, EachOf, ExecutesIn, LeavesWorth, Keeps}
use fcd.Combine.Same.{Same, Same-refl, Same-trans, Same-cons, SameExec}
use fcd.Combine.Nested.{is_break, one_break}
use fcd.Combine.Breaks.{AlwaysTrue, breaking}

-- What `!` and `&&` mean in the conditions of a function.
pub record Meaning (m : Machine) (c : Constants) : Type 1 where
  pub reading : (st : m.State) → IsReading c (m.truth st)
  pub conjoins :
      (st : m.State) (n : ℕ) (a b : Expression)
      → m.truth st (node n (nary short_circuit_and) (operand a (operand b no_operands)))
        ≡ (m.truth st a && m.truth st b)

module _ {m : Machine} {c : Constants} (w : Meaning m c) where
  -- Before the pass: every loop is endless, as structuring makes it, there is no `continue`, and no
  -- body of an if-else statement changes what its condition is worth.
  abbrev pub endless : Asked
  endless = record {
    Keyword = λ n. n ≢ "continue";
    Branch = λ d. Unit;
    Guarded = Keeps m;
    Loop = AlwaysTrue m;
  }

  -- After it the loops may have conditions.
  abbrev pub nested : Asked
  nested = record {
    Keyword = λ n. n ≢ "continue";
    Branch = λ d. Unit;
    Guarded = Keeps m;
    Loop = λ d. Unit;
  }

  pub record Nested (s r : Statements) : Type 0 where
    pub asked : Each nested r
    pub does_same : Same m s r
    pub keeps : (d : Expression) → Keeps m d s → Keeps m d r

  pub Nested-refl : (s : Statements) → Each nested s → Nested s s
  Nested-refl s h = record { asked = h; does_same = Same-refl m s; keeps = λ d k. k }

  pub Nested-trans :
      (s t r : Statements)
      → Same m s t
      → ((d : Expression) → Keeps m d s → Keeps m d t)
      → Nested t r
      → Nested s r
  Nested-trans s t r h e k = record {
    asked = k.asked;
    does_same = Same-trans m h k.does_same;
    keeps = λ d i. k.keeps d (e d i);
  }

  pub one_for_one :
      (x y : Statement)
      → EachOf nested y
      → SameExec m x y
      → ((d : Expression) → ExecutesIn (LeavesWorth m d) x → ExecutesIn (LeavesWorth m d) y)
      → Nested (cons x nil) (cons y nil)
  one_for_one x y h e same_run = record {
    asked = (h, tt);
    does_same = Same-cons m e (Same-refl m nil);
    keeps = λ d k. (same_run d k.0, tt);
  }

  -- The branch with the break is the one statement `break`.
  pub is_break-breaking :
      (a : Statements) → is_break a ≡ true → (o : Option Expression) × (a ≡ breaking m o)
  is_break-breaking (cons (keyword n o) nil) h =
      (o, ap (λ (s : String). cons (keyword s o) nil) ((eq_iff n "break").0 h))
  is_break-breaking nil h = cc
  is_break-breaking (cons (keyword n o) (cons y s)) h = cc
  is_break-breaking (cons (expr e) nil) h = cc
  is_break-breaking (cons (expr e) (cons y s)) h = cc
  is_break-breaking (cons (if_else d x y) nil) h = cc
  is_break-breaking (cons (if_else d x y) (cons z s)) h = cc
  is_break-breaking (cons (loop d p b) nil) h = cc
  is_break-breaking (cons (loop d p b) (cons y s)) h = cc

  pub one_break-cases :
      (x y b : Bool)
      → one_break x y ≡ some b
      → ((b ≡ true) × (x ≡ true)) ⊎ ((b ≡ false) × (y ≡ true))
  one_break-cases true true b h = cc
  one_break-cases true false b h = inl (cc, refl)
  one_break-cases false true b h = inr (cc, refl)
  one_break-cases false false b h = cc

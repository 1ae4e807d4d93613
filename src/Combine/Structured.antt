-- ===== src/Combine/Structured.antt =====
-- `structurizeLoop` keeps what an endless loop does.
use fcd.Base.{◌≡◌, refl, ap, subst, inl, inr, Bool, true, false, not, Option, none, some, arith}
use fcd.Expr.Defs.{Expression}
use fcd.Expr.Negate.{Constants, negate, truth-negate}
use fcd.Combine.Tree.{
  ConditionPosition, pre_tested, Statement, Statements, if_else, loop, nil, cons, append,
}
use fcd.Combine.Run.{Machine}
use fcd.Combine.Each.{
  Each, EachOf, Each-append, Executes, Executes-append, Executes-split, LeavesWorth, Keeps,
  Keeps-worth,
}
use fcd.Combine.Same.{Same-refl, Same-cons, Same-append, SameExec, SameExec-refl, SameExec-loop}
use fcd.Combine.Branches.{SameExec-opposite}
use fcd.Combine.Outcome.{Ensures, gave, Ensures-pure, Ensures-bind}
use fcd.Combine.Nested.{
  is_break, one_break, back, before_back, conjunction, continue_condition, other_branch,
  structurize_front, structurize_back,
}
use fcd.Combine.Breaks.{AlwaysTrue, SameExec-endless, breaking, SameExec-front}
use fcd.Combine.LastBreak.{SameExec-last}
use fcd.Combine.NestedKept.{
  Meaning, nested, Nested, Nested-refl, one_for_one, is_break-breaking, one_break-cases,
}

SameExec-trans :
    (m : Machine) {x y z : Statement} → SameExec m x y → SameExec m y z → SameExec m x z
SameExec-trans m h k =
    (λ st st' sg d. k.0 st st' sg (h.0 st st' sg d), λ st st' sg d. h.1 st st' sg (k.1 st st' sg d))

pub append-before_back :
    (x : Statement) (s : Statements) → append (before_back x s) (cons (back x s) nil) ≡ cons x s
unfolding append before_back back
append-before_back x nil = refl
append-before_back x (cons y s) = ap (cons x) (append-before_back y s)

module _ {m : Machine} {c : Constants} (w : Meaning m c) where
  -- The if-else statement as one on the condition to go on, which else breaks.
  record GoesOnUnder (e : Expression) (a b r : Statements) (e' : Expression) : Type 0 where
    keeps_branch : Keeps m e' r
    operand_of_break : Option Expression
    same_if : SameExec m (if_else e a b) (if_else e' r (breaking m operand_of_break))

  continue_condition-GoesOnUnder :
      (e : Expression) (a b : Statements) (t : Bool)
      → Keeps m e a
      → Keeps m e b
      → one_break (is_break a) (is_break b) ≡ some t
      → Ensures 0 (GoesOnUnder e a b (other_branch t a b)) (continue_condition c t e)
  continue_condition-GoesOnUnder e a b true ha hb q n new =
      let opposite = λ (st : m.State). truth-negate (w.reading st) n e in
      elim (one_break-cases w (is_break a) (is_break b) true q) [
        | inr f ↦ absurd (cc)
        | inl f ↦
            let (o, p) = is_break-breaking w a f.1 in
            gave (omega arith) (record {
              keeps_branch = Keeps-worth m not e (negate c n e) b opposite hb;
              operand_of_break = o;
              same_if =
                  subst
                    (λ (s : Statements). SameExec m (if_else e a b) (if_else (negate c n e) b s)) p
                    (SameExec-opposite m e (negate c n e) a b opposite);
            })
      ]
  continue_condition-GoesOnUnder e a b false ha hb q n new =
      elim (one_break-cases w (is_break a) (is_break b) false q) [
        | inl f ↦ absurd (cc)
        | inr f ↦
            let (o, p) = is_break-breaking w b f.1 in
            gave (omega arith) (record {
              keeps_branch = ha;
              operand_of_break = o;
              same_if =
                  subst (λ (s : Statements). SameExec m (if_else e a b) (if_else e a s)) p
                    (SameExec-refl m (if_else e a b));
            })
      ]

  conjunction-truth :
      (d e : Expression)
      → AlwaysTrue m d
      → Ensures 0 (λ g. (st : m.State) → m.truth st g ≡ m.truth st e) (conjunction d e)
  conjunction-truth d e t n new =
      gave (omega arith) λ st. let both = w.conjoins st n d e in let always = t st in ground arith

  Executes-other_branch :
      (P : Expression → Type 0) (t : Bool) (a b : Statements)
      → Executes P a × Executes P b
      → Executes P (other_branch t a b)
  Executes-other_branch P true a b h = h.1
  Executes-other_branch P false a b h = h.0

  Each-other_branch :
      (t : Bool) (a b : Statements)
      → Each (nested w) a
      → Each (nested w) b
      → Each (nested w) (other_branch t a b)
  Each-other_branch true a b h k = k
  Each-other_branch false a b h k = h

  module _ (d : Expression) (p : ConditionPosition) (t : AlwaysTrue m d) where
    pub structurize_front-Nested :
        (e : Expression) (a b rest : Statements) (o : Option Bool)
        → Each (nested w) (cons (if_else e a b) rest)
        → one_break (is_break a) (is_break b) ≡ o
        → Ensures 0
            (Nested w (cons (loop d p (cons (if_else e a b) rest)) nil))
            (structurize_front c d p e a b rest o)
    unfolding structurize_front
    structurize_front-Nested e a b rest none h q = Ensures-pure _ (Nested-refl w _ ((tt, h), tt))
    structurize_front-Nested e a b rest (some k) h q =
        Ensures-bind _ _ (continue_condition-GoesOnUnder e a b k h.0.0.1 h.0.0.2 q) λ e' f.
          Ensures-bind _ _ (conjunction-truth d e' t) λ g worth.
            let r = other_branch k a b in
            Ensures-pure _ (
              one_for_one w _ _
                (tt, Each-append (nested w) r rest (Each-other_branch k a b h.0.1 h.0.2) h.1)
                (SameExec-trans m (SameExec-endless m d p _ t) (
                  SameExec-trans m
                    (SameExec-loop m d pre_tested (Same-cons m f.same_if (Same-refl m rest)))
                    (SameExec-front m d e' g t worth f.operand_of_break r rest)))
                (λ z i.
                  Executes-append (LeavesWorth m z) r rest
                    (Executes-other_branch (LeavesWorth m z) k a b i.0) i.1))

    pub structurize_back-Nested :
        (init : Statements) (e : Expression) (a b : Statements) (o : Option Bool)
        → Each (nested w) init
        → EachOf (nested w) (if_else e a b)
        → one_break (is_break a) (is_break b) ≡ o
        → Ensures 0
            (Nested w (cons (loop d p (append init (cons (if_else e a b) nil))) nil))
            (structurize_back c d p init e a b o)
    unfolding structurize_back
    structurize_back-Nested init e a b none hi h q =
        Ensures-pure _ (Nested-refl w _ ((tt, Each-append (nested w) init _ hi (h, tt)), tt))
    structurize_back-Nested init e a b (some k) hi h q =
        Ensures-bind _ _ (continue_condition-GoesOnUnder e a b k h.0.1 h.0.2 q) λ e' f.
          Ensures-bind _ _ (conjunction-truth d e' t) λ g worth.
            let r = other_branch k a b in
            let hr = Each-other_branch k a b h.1 h.2 in
            Ensures-pure _ (
              one_for_one w _ _
                (tt, Each-append (nested w) init _ hi (((tt, f.keeps_branch, tt), hr, tt), tt))
                (SameExec-trans m (SameExec-endless m d p _ t) (
                  SameExec-trans m
                    (SameExec-loop m d pre_tested
                      (Same-append m (Same-refl m init) (Same-cons m f.same_if (Same-refl m nil))))
                    (SameExec-last m (nested w) (λ n hn. hn) d e' g t worth f.operand_of_break init
                      r hi f.keeps_branch)))
                (λ z i.
                  let (x, y) = Executes-split (LeavesWorth m z) init _ i in
                  Executes-append (LeavesWorth m z) init _ x
                    ((Executes-other_branch (LeavesWorth m z) k a b y.0, tt), tt)))

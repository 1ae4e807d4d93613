-- ===== src/Combine/Nesting.antt =====
-- `AstNestedCombiner` ends, and keeps what a function with endless loops does.
use fcd.Base.{ℕ, ◌≡◌, refl, sym, subst, Bool, true, false, ◌&&◌, arith, if◌then◌else◌}
use fcd.Expr.Defs.{Expression}
use fcd.Expr.Negate.{Constants}
use fcd.Combine.Tree.{
  ConditionPosition, Statement, Statements, expr, keyword, if_else, loop, nil, cons, append,
}
use fcd.Combine.Run.{Machine, Signal, Run, takes}
use fcd.Combine.Each.{Each, EachOf, Each-append, Executes-append, LeavesWorth, Keeps-both}
use fcd.Combine.Same.{
  Same-refl, Same-cons, Same-append, SameExec, IncludesExec, SameExec-if_else, SameExec-loop,
}
use fcd.Combine.Branches.{Run-single, Exec-single}
use fcd.Combine.Outcome.{Gives, Ensures, gave, Ensures-pure, Ensures-bind, Ensures-map}
use fcd.Combine.Nested.{
  has_memory_operation, is_break, one_break, back, before_back, conjunction, structurize_last,
  structurize_loop, merge_unless, nest_if_else, nest, nest_all, run_nested_combiner,
}
use fcd.Combine.Breaks.{AlwaysTrue}
use fcd.Combine.NestedKept.{
  Meaning, endless, nested, Nested, Nested-refl, Nested-trans, one_for_one,
}
use fcd.Combine.Structured.{append-before_back, structurize_front-Nested, structurize_back-Nested}

module _ {m : Machine} {c : Constants} (w : Meaning m c) where
  Each-before_back :
      (x : Statement) (s : Statements)
      → EachOf (nested w) x
      → Each (nested w) s
      → Each (nested w) (before_back x s) × EachOf (nested w) (back x s)
  unfolding before_back back
  Each-before_back x nil hx h = (tt, hx)
  Each-before_back x (cons y s) hx h = let i = Each-before_back y s h.0 h.1 in ((hx, i.0), i.1)

  module _ (d : Expression) (p : ConditionPosition) (t : AlwaysTrue m d) where
    structurize_last-Nested :
        (init : Statements) (x : Statement)
        → Each (nested w) init
        → EachOf (nested w) x
        → Ensures 0
            (Nested w (cons (loop d p (append init (cons x nil))) nil))
            (structurize_last c d p init x)
    unfolding structurize_last
    structurize_last-Nested init (if_else e a b) hi h =
        structurize_back-Nested w d p t init e a b (one_break (is_break a) (is_break b)) hi h refl
    structurize_last-Nested init x hi h =
        Ensures-pure _ (Nested-refl w _ ((tt, Each-append (nested w) init _ hi (h, tt)), tt))

    many-Nested :
        (x y : Statement) (s : Statements)
        → Each (nested w) (cons x (cons y s))
        → Ensures 0
            (Nested w (cons (loop d p (cons x (cons y s))) nil))
            (structurize_last c d p (before_back x (cons y s)) (back x (cons y s)))
    many-Nested x y s h =
        let i = Each-before_back x (cons y s) h.0 h.1 in
        subst
          (λ (b : Statements).
            Ensures 0 (Nested w (cons (loop d p b) nil))
              (structurize_last c d p (before_back x (cons y s)) (back x (cons y s))))
          (append-before_back x (cons y s))
          (structurize_last-Nested (before_back x (cons y s)) (back x (cons y s)) i.0 i.1)

    structurize_loop-Nested :
        (b : Statements)
        → Each (nested w) b
        → Ensures 0 (Nested w (cons (loop d p b) nil)) (structurize_loop c d p b)
    unfolding structurize_loop
    structurize_loop-Nested (cons (if_else e a b) rest) h =
        structurize_front-Nested w d p t e a b rest (one_break (is_break a) (is_break b)) h refl
    structurize_loop-Nested (cons x (cons y s)) h = many-Nested x y s h
    structurize_loop-Nested b h = Ensures-pure _ (Nested-refl w _ ((tt, h), tt))

  module _ (d e : Expression) (a : Statements) where
    Run-merged :
        (v : Bool) {st st' : m.State} {sg : Signal}
        → Run m (if v then cons (if_else e a nil) nil else nil) st sg st'
        → Run m (if v && m.truth st e then a else nil) st sg st'
    Run-merged true r = elim (Exec-single m r) [ takes z ↦ z ]
    Run-merged false r = r

    Run-split :
        (v : Bool) {st st' : m.State} {sg : Signal}
        → Run m (if v && m.truth st e then a else nil) st sg st'
        → Run m (if v then cons (if_else e a nil) nil else nil) st sg st'
    Run-split true {st} {st'} {sg} r = Run-single m st st' sg (takes r)
    Run-split false r = r

    -- One if-else statement inside another is one on the conjunction.
    SameExec-merged :
        (g : Expression)
        → ((st : m.State) → m.truth st g ≡ (m.truth st d && m.truth st e))
        → SameExec m (if_else d (cons (if_else e a nil) nil) nil) (if_else g a nil)
    SameExec-merged g worth = (forth, back_again)
      where
        forth : IncludesExec m (if_else d (cons (if_else e a nil) nil) nil) (if_else g a nil)
        forth st st' sg (takes r) = takes (
            subst (λ (v : Bool). Run m (if v then a else nil) st sg st') (sym (worth st))
              (Run-merged (m.truth st d) r))

        back_again : IncludesExec m (if_else g a nil) (if_else d (cons (if_else e a nil) nil) nil)
        back_again st st' sg (takes r) = takes (
            Run-split (m.truth st d)
              (subst (λ (v : Bool). Run m (if v then a else nil) st sg st') (worth st) r))

  conjunction-truths :
      (d e : Expression)
      → Ensures 0
          (λ g. (st : m.State) → m.truth st g ≡ (m.truth st d && m.truth st e))
          (conjunction d e)
  conjunction-truths d e n new = gave (omega arith) λ st. w.conjoins st n d e

  merge_unless-Nested :
      (b : Bool) (d e : Expression) (a : Statements)
      → EachOf (nested w) (if_else d (cons (if_else e a nil) nil) nil)
      → Ensures 0
          (Nested w (cons (if_else d (cons (if_else e a nil) nil) nil) nil))
          (merge_unless b d e a)
  merge_unless-Nested true d e a h = Ensures-pure _ (Nested-refl w _ (h, tt))
  merge_unless-Nested false d e a h = Ensures-bind _ _ (conjunction-truths d e) λ g worth.
      let keeps = Keeps-both m (λ v u. v && u) d e g a worth h.0.1.0.0 h.1.0.0.1 in
      Ensures-pure _ (
        one_for_one w _ _ ((tt, keeps, tt), h.1.0.1, tt) (SameExec-merged d e a g worth)
          (λ z i. (i.0.0.0, tt)))

  nest_if_else-Nested :
      (d : Expression) (a b : Statements)
      → EachOf (nested w) (if_else d a b)
      → Ensures 0 (Nested w (cons (if_else d a b) nil)) (nest_if_else d a b)
  unfolding nest_if_else
  nest_if_else-Nested d (cons (if_else e a nil) nil) nil h =
      merge_unless-Nested (has_memory_operation e) d e a h
  nest_if_else-Nested d a b h = Ensures-pure _ (Nested-refl w _ (h, tt))

  mutual
    unfolding nest append

    nest-Nested :
        (x : Statement) → EachOf (endless w) x → Ensures 0 (Nested w (cons x nil)) (nest c x)
    nest-Nested (expr e) h = Ensures-pure _ (Nested-refl w _ (h, tt))
    nest-Nested (keyword n o) h = Ensures-pure _ (Nested-refl w _ (h, tt))
    nest-Nested (if_else d a b) h = Ensures-bind _ _ (nest_all-Nested a h.1) λ a' ka.
        Ensures-bind _ _ (nest_all-Nested b h.2) λ b' kb.
          Ensures-map _
            (λ r kr.
              Nested-trans w _ _ r
                (Same-cons m (SameExec-if_else m d ka.does_same kb.does_same) (Same-refl m nil))
                (λ P i. ((ka.keeps P i.0.0, kb.keeps P i.0.1), tt)) kr)
            (nest_if_else-Nested d a' b'
              ((h.0.0, ka.keeps d h.0.1, kb.keeps d h.0.2), ka.asked, kb.asked))
    nest-Nested (loop d p b) h = Ensures-bind _ _ (nest_all-Nested b h.1) λ b' kb.
        Ensures-map _
          (λ r kr.
            Nested-trans w _ _ r (Same-cons m (SameExec-loop m d p kb.does_same) (Same-refl m nil))
              (λ P i. (kb.keeps P i.0, tt)) kr)
          (structurize_loop-Nested d p h.0 b' kb.asked)

    nest_all-Nested : (s : Statements) → Each (endless w) s → Ensures 0 (Nested w s) (nest_all c s)
    nest_all-Nested nil h = Ensures-pure _ (Nested-refl w nil tt)
    nest_all-Nested (cons x s) h = Ensures-bind _ _ (nest-Nested x h.0) λ t kx.
        Ensures-bind _ _ (nest_all-Nested s h.1) λ r k. Ensures-pure _ (record {
          asked = Each-append (nested w) t r kx.asked k.asked;
          keeps =
              λ g i. Executes-append (LeavesWorth m g) t r (kx.keeps g (i.0, tt)) (k.keeps g i.1);
          does_same = Same-append m {s = cons x nil} kx.does_same k.does_same;
        })

  -- `AstNestedCombiner` finishes, and the statements that it leaves end in the same states with the
  -- same signals as the given ones, where every loop is endless, there is no `continue`, and no
  -- body of an if-else statement changes what its condition is worth. `!` and `&&` have their
  -- meaning in the conditions.
  pub run_nested_combiner-Nested :
      (body : Statements) (next_address : ℕ)
      → Each (endless w) body
      → Gives 0 (Nested w body) (run_nested_combiner c body next_address)
  unfolding run_nested_combiner
  run_nested_combiner-Nested body next_address h = nest_all-Nested body h next_address (omega arith)

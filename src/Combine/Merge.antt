-- ===== src/Combine/Merge.antt =====
-- When two consecutive if-else statements may become one.
use fcd.Base.{ℕ, ◌≤◌, ◌≡◌, ◌≢◌, refl, sym, ◌∙◌, subst, Bool, true, false, some, if◌then◌else◌}
use fcd.Expr.Defs.{Expression, address}
use fcd.Expr.Equality.{equals}
use fcd.Expr.Negate.{Constants, IsReading, negate, count_negation_depth}
use fcd.Combine.Tree.{Statement, Statements, if_else, cons, append}
use fcd.Combine.Run.{Machine, Signal, normal, Run, takes, next, stop}
use fcd.Combine.Each.{Asked, Each, EachOf, Executes-if, LeavesWorth, Keeps, Run-Keeps}
use fcd.Combine.Same.{Includes, Same, Run-append, Run-append_stop, Halves, both, first, Run-Halves}

-- The conditions that a function tests. `operator==` ends on two of them, and those that it says
-- to be equal are worth the same. An address is that of one expression.
pub record Conditions (m : Machine) (c : Constants) : Type 1 where
  pub Tested : Expression → Type 0
  pub reading : (st : m.State) → IsReading c (m.truth st)
  pub compared :
      (a b : Expression)
      → Tested a
      → Tested b
      → (r : Bool) × (equals a b ≡ some r)
        × (r ≡ true → (st : m.State) → m.truth st a ≡ m.truth st b)
  pub first_new : ℕ
  pub tested_negate : (n : ℕ) (e : Expression) → first_new ≤ n → Tested e → Tested (negate c n e)
  pub tested_canonical : (e : Expression) → Tested e → Tested (count_negation_depth e).canonical
  pub true_address :
      (e : Expression)
      → Tested e
      → address e ≡ address c.expression_for_true
      → e ≡ c.expression_for_true
  pub false_address :
      (e : Expression)
      → Tested e
      → address e ≡ address c.expression_for_false
      → e ≡ c.expression_for_false

module _ {m : Machine} {c : Constants} (w : Conditions m c) where
  abbrev pub asked : Asked
  asked = record { Keyword = λ n. Unit; Branch = w.Tested; Guarded = Keeps m; Loop = w.Tested }

  -- The statements of the function: no body of an if-else changes what its condition is worth.
  abbrev pub Admits : Statements → Type 0
  Admits s = Each asked s

  abbrev pub AdmitsStatement : Statement → Type 0
  AdmitsStatement x = EachOf asked x

  module _ (d : Expression) where
    Run-if_append :
        (v : Bool) (x y a b : Statements) {st st₁ st' : m.State} {sg : Signal}
        → Run m (if v then x else y) st normal st₁
        → Run m (if v then a else b) st₁ sg st'
        → Run m (if v then append x a else append y b) st sg st'
    Run-if_append true x y a b q r = Run-append m x a _ _ _ _ q r
    Run-if_append false x y a b q r = Run-append m y b _ _ _ _ q r

    Run-if_stop :
        (v : Bool) (x y a b : Statements) {st st' : m.State} {sg : Signal}
        → Run m (if v then x else y) st sg st'
        → sg ≢ normal
        → Run m (if v then append x a else append y b) st sg st'
    Run-if_stop true x y a b q n = Run-append_stop m x a _ _ _ q n
    Run-if_stop false x y a b q n = Run-append_stop m y b _ _ _ q n

    Halves-if :
        (v : Bool) (x y a b : Statements) {st st' : m.State} {sg : Signal}
        → Run m (if v then append x a else append y b) st sg st'
        → Halves m (if v then x else y) (if v then a else b) st sg st'
    Halves-if true x y a b r = Run-Halves m x a _ _ _ r
    Halves-if false x y a b r = Run-Halves m y b _ _ _ r

    module _ (x y a b s : Statements) (hx : Keeps m d x) (hy : Keeps m d y) where
      second_test :
          {st st₁ st' : m.State} {sg sg₁ : Signal}
          → Run m (if m.truth st d then x else y) st sg₁ st₁
          → (v : Bool) → m.truth st₁ d ≡ v
          → Run m (if v then a else b) st₁ sg st'
          → Run m (if m.truth st d then a else b) st₁ sg st'
      second_test {st} {st₁} {st'} {sg} r v p q =
          let kept : m.truth st₁ d ≡ m.truth st d =
            Run-Keeps m d r (Executes-if (LeavesWorth m d) (m.truth st d) x y hx hy) in
          subst (λ (u : Bool). Run m (if u then a else b) st₁ sg st') (sym p ∙ kept) q

      Includes-merged :
          Includes m
            (cons (if_else d x y) (cons (if_else d a b) s))
            (cons (if_else d (append x a) (append y b)) s)
      Includes-merged st st' sg (next (takes q) (next (takes r) u)) =
          next (takes (Run-if_append (m.truth st d) x y a b q (second_test q _ refl r))) u
      Includes-merged st st' sg (next (takes q) (stop (takes r) n)) =
          stop (takes (Run-if_append (m.truth st d) x y a b q (second_test q _ refl r))) n
      Includes-merged st st' sg (stop (takes q) n) =
          stop (takes (Run-if_stop (m.truth st d) x y a b q n)) n

      -- and back
      back_test :
          {st st₁ st' : m.State} {sg sg₁ : Signal}
          → Run m (if m.truth st d then x else y) st sg₁ st₁
          → Run m (if m.truth st d then a else b) st₁ sg st'
          → Run m (if m.truth st₁ d then a else b) st₁ sg st'
      back_test {st} {st₁} {st'} {sg} r q =
          let kept : m.truth st₁ d ≡ m.truth st d =
            Run-Keeps m d r (Executes-if (LeavesWorth m d) (m.truth st d) x y hx hy) in
          subst (λ (u : Bool). Run m (if u then a else b) st₁ sg st') (sym kept) q

      next_half :
          {st st₁ st' : m.State} {sg : Signal}
          → Halves m (if m.truth st d then x else y) (if m.truth st d then a else b) st normal st₁
          → Run m s st₁ sg st'
          → Run m (cons (if_else d x y) (cons (if_else d a b) s)) st sg st'
      next_half (both q r) u = next (takes q) (next (takes (back_test q r)) u)
      next_half (first q n) u = absurd (n refl)

      stop_half :
          {st st' : m.State} {sg : Signal}
          → Halves m (if m.truth st d then x else y) (if m.truth st d then a else b) st sg st'
          → sg ≢ normal
          → Run m (cons (if_else d x y) (cons (if_else d a b) s)) st sg st'
      stop_half (both q r) n = next (takes q) (stop (takes (back_test q r)) n)
      stop_half (first q n) n' = stop (takes q) n

      Includes-split :
          Includes m
            (cons (if_else d (append x a) (append y b)) s)
            (cons (if_else d x y) (cons (if_else d a b) s))
      Includes-split st st' sg (next (takes r) u) = next_half (Halves-if (m.truth st d) x y a b r) u
      Includes-split st st' sg (stop (takes r) n) = stop_half (Halves-if (m.truth st d) x y a b r) n

      -- Two if-else statements on one condition that the bodies keep do what the one with the joined
      -- bodies does.
      pub Same-merged :
          Same m
            (cons (if_else d x y) (cons (if_else d a b) s))
            (cons (if_else d (append x a) (append y b)) s)
      Same-merged = (Includes-merged, Includes-split)

-- ===== src/Combine/Run.antt =====
-- What statements do: `Run s st sg st'` says that the statements `s`, started in the state `st`, end
-- with the signal `sg` in the state `st'`. Statements that never end have no derivation.
use Prim.Native.String.{String}
use fcd.Base.{◌≡◌, ◌≢◌, ◌⊎◌, Bool, true, false, Option, if◌then◌else◌}
use fcd.Expr.Defs.{Expression}
use fcd.Combine.Tree.{
  pre_tested, post_tested, Statement, Statements, expr, keyword, if_else, loop, nil, cons,
}

-- how statements end: by falling through, or by a keyword
pub data Signal : Type 0 where
  normal : Signal
  jumped : (name : String) → (operand : Option Expression) → Signal

-- After such an end of its body, a loop tests its condition again.
abbrev pub GoesOn : Signal → Type 0
GoesOn normal = Unit
GoesOn (jumped n o) = n ≡ "continue"

-- Such an end of its body ends the loop, with the second signal.
abbrev pub Leaves : Signal → Signal → Type 0
Leaves normal out = ⊥
Leaves (jumped n o) out =
    ((n ≡ "break") × (out ≡ normal)) ⊎ ((n ≢ "break") × (n ≢ "continue") × (out ≡ jumped n o))

-- What the statements rest on: an expression statement changes the state, and a condition is true
-- or false in a state, which testing it does not change.
pub record Machine : Type 1 where
  pub State : Type 0
  pub effect : Expression → State → State
  pub truth : State → Expression → Bool

module _ (m : Machine) where
  mutual
    pub data Exec : Statement → m.State → Signal → m.State → Type 0 where
      does : {e : Expression} {st : m.State} → Exec (expr e) st normal (m.effect e st)
      jumps :
          {n : String} {o : Option Expression} {st : m.State}
          → Exec (keyword n o) st (jumped n o) st
      takes :
          {c : Expression} {a b : Statements} {st st' : m.State} {sg : Signal}
          → Run (if m.truth st c then a else b) st sg st'
          → Exec (if_else c a b) st sg st'
      ends :
          {c : Expression} {b : Statements} {st : m.State}
          → m.truth st c ≡ false
          → Exec (loop c pre_tested b) st normal st
      again :
          {c : Expression} {b : Statements} {st st₁ st₂ : m.State} {sg sg₁ : Signal}
          → m.truth st c ≡ true
          → Run b st sg₁ st₁
          → GoesOn sg₁
          → Exec (loop c pre_tested b) st₁ sg st₂
          → Exec (loop c pre_tested b) st sg st₂
      leaves :
          {c : Expression} {b : Statements} {st st₁ : m.State} {sg sg₁ : Signal}
          → m.truth st c ≡ true
          → Run b st sg₁ st₁
          → Leaves sg₁ sg
          → Exec (loop c pre_tested b) st sg st₁
      first_again :
          {c : Expression} {b : Statements} {st st₁ st₂ : m.State} {sg sg₁ : Signal}
          → Run b st sg₁ st₁
          → GoesOn sg₁
          → Exec (loop c pre_tested b) st₁ sg st₂
          → Exec (loop c post_tested b) st sg st₂
      first_leaves :
          {c : Expression} {b : Statements} {st st₁ : m.State} {sg sg₁ : Signal}
          → Run b st sg₁ st₁
          → Leaves sg₁ sg
          → Exec (loop c post_tested b) st sg st₁

    pub data Run : Statements → m.State → Signal → m.State → Type 0 where
      done : {st : m.State} → Run nil st normal st
      next :
          {x : Statement} {s : Statements} {st st₁ st₂ : m.State} {sg : Signal}
          → Exec x st normal st₁
          → Run s st₁ sg st₂
          → Run (cons x s) st sg st₂
      stop :
          {x : Statement} {s : Statements} {st st₁ : m.State} {sg : Signal}
          → Exec x st sg st₁
          → sg ≢ normal
          → Run (cons x s) st sg st₁

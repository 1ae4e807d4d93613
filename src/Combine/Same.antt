-- ===== src/Combine/Same.antt =====
-- Statements that do the same: they end in the same states with the same signals.
use fcd.Base.{◌≢◌, refl, Bool, true, false, if◌then◌else◌}
use fcd.Expr.Defs.{Expression}
use fcd.Combine.Tree.{
  ConditionPosition, pre_tested, post_tested, Statement, Statements, if_else, loop, nil, cons,
  append,
}
use fcd.Combine.Run.{
  Machine, Signal, normal, Exec, Run, takes, ends, again, leaves, first_again, first_leaves, done,
  next, stop,
}

module _ (m : Machine) where
  -- Whatever `s` does, `t` can do.
  abbrev pub Includes : Statements → Statements → Type 0
  Includes s t = (st st' : m.State) (sg : Signal) → Run m s st sg st' → Run m t st sg st'

  abbrev pub Same : Statements → Statements → Type 0
  Same s t = Includes s t × Includes t s

  abbrev pub IncludesExec : Statement → Statement → Type 0
  IncludesExec x y = (st st' : m.State) (sg : Signal) → Exec m x st sg st' → Exec m y st sg st'

  abbrev pub SameExec : Statement → Statement → Type 0
  SameExec x y = IncludesExec x y × IncludesExec y x

  pub Same-refl : (s : Statements) → Same s s
  Same-refl s = (λ st st' sg r. r, λ st st' sg r. r)

  pub Same-trans : {s t u : Statements} → Same s t → Same t u → Same s u
  Same-trans h k = (
    λ st st' sg r. k.0 st st' sg (h.0 st st' sg r),
    λ st st' sg r. h.1 st st' sg (k.1 st st' sg r),
  )

  pub Same-sym : {s t : Statements} → Same s t → Same t s
  Same-sym h = (h.1, h.0)

  Includes-cons :
      {x y : Statement} {s t : Statements}
      → IncludesExec x y
      → Includes s t
      → Includes (cons x s) (cons y t)
  Includes-cons h k st st' sg (next d r) = next (h _ _ _ d) (k _ _ _ r)
  Includes-cons h k st st' sg (stop d n) = stop (h _ _ _ d) n

  pub Same-cons :
      {x y : Statement} {s t : Statements} → SameExec x y → Same s t → Same (cons x s) (cons y t)
  Same-cons h k = (Includes-cons h.0 k.0, Includes-cons h.1 k.1)

  pub SameExec-refl : (x : Statement) → SameExec x x
  SameExec-refl x = (λ st st' sg d. d, λ st st' sg d. d)

  -- A run of two sequences is one of the first that does not end normally, or one of both.
  pub Run-append :
      (s t : Statements) (st st₁ st' : m.State) (sg : Signal)
      → Run m s st normal st₁
      → Run m t st₁ sg st'
      → Run m (append s t) st sg st'
  unfolding append
  Run-append nil t st st₁ st' sg done r = r
  Run-append (cons x s) t st st₁ st' sg (next d q) r = next d (Run-append s t _ _ _ _ q r)
  Run-append (cons x s) t st st₁ st' sg (stop d n) r = absurd (n refl)

  pub Run-append_stop :
      (s t : Statements) (st st' : m.State) (sg : Signal)
      → Run m s st sg st'
      → sg ≢ normal
      → Run m (append s t) st sg st'
  unfolding append
  Run-append_stop nil t st st' sg done n = absurd (n refl)
  Run-append_stop (cons x s) t st st' sg (next d q) n = next d (Run-append_stop s t _ _ _ q n)
  Run-append_stop (cons x s) t st st' sg (stop d n) n' = stop d n

  -- How the runs of two sequences come apart.
  pub data Halves (s t : Statements) : m.State → Signal → m.State → Type 0 where
    both :
        {st st₁ st' : m.State} {sg : Signal}
        → Run m s st normal st₁
        → Run m t st₁ sg st'
        → Halves s t st sg st'
    first :
        {st st' : m.State} {sg : Signal} → Run m s st sg st' → sg ≢ normal → Halves s t st sg st'

  Halves-cons :
      {x : Statement} {s t : Statements} {st st₁ st' : m.State} {sg : Signal}
      → Exec m x st normal st₁
      → Halves s t st₁ sg st'
      → Halves (cons x s) t st sg st'
  Halves-cons d (both q r) = both (next d q) r
  Halves-cons d (first q n) = first (next d q) n

  pub Run-Halves :
      (s t : Statements) (st st' : m.State) (sg : Signal)
      → Run m (append s t) st sg st'
      → Halves s t st sg st'
  unfolding append
  Run-Halves nil t st st' sg r = both done r
  Run-Halves (cons x s) t st st' sg (next d r) = Halves-cons d (Run-Halves s t _ _ _ r)
  Run-Halves (cons x s) t st st' sg (stop d n) = first (stop d n) n

  Includes-append :
      {s s' t t' : Statements}
      → Includes s s'
      → Includes t t'
      → Includes (append s t) (append s' t')
  Includes-append {s} {s'} {t} {t'} h k st st' sg r = elim (Run-Halves s t st st' sg r) [
    | both q u ↦ Run-append s' t' _ _ _ _ (h _ _ _ q) (k _ _ _ u)
    | first q n ↦ Run-append_stop s' t' _ _ _ (h _ _ _ q) n
  ]

  pub Same-append :
      {s s' t t' : Statements} → Same s s' → Same t t' → Same (append s t) (append s' t')
  Same-append h k = (Includes-append h.0 k.0, Includes-append h.1 k.1)

  pub Run-if :
      (v : Bool) {a b a' b' : Statements} {st st' : m.State} {sg : Signal}
      → Includes a a'
      → Includes b b'
      → Run m (if v then a else b) st sg st'
      → Run m (if v then a' else b') st sg st'
  Run-if true h k r = h _ _ _ r
  Run-if false h k r = k _ _ _ r

  IncludesExec-if_else :
      (c : Expression) {a b a' b' : Statements}
      → Includes a a'
      → Includes b b'
      → IncludesExec (if_else c a b) (if_else c a' b')
  IncludesExec-if_else c h k st st' sg (takes r) = takes (Run-if (m.truth st c) h k r)

  pub SameExec-if_else :
      (c : Expression) {a b a' b' : Statements}
      → Same a a'
      → Same b b'
      → SameExec (if_else c a b) (if_else c a' b')
  SameExec-if_else c h k = (IncludesExec-if_else c h.0 k.0, IncludesExec-if_else c h.1 k.1)

  IncludesExec-while :
      (c : Expression) {b b' : Statements}
      → Includes b b'
      → IncludesExec (loop c pre_tested b) (loop c pre_tested b')
  IncludesExec-while c h st st' sg (ends p) = ends p
  IncludesExec-while c h st st' sg (again p r g d) =
      again p (h _ _ _ r) g (IncludesExec-while c h _ _ _ d)
  IncludesExec-while c h st st' sg (leaves p r l) = leaves p (h _ _ _ r) l

  IncludesExec-loop :
      (c : Expression) (p : ConditionPosition) {b b' : Statements}
      → Includes b b'
      → IncludesExec (loop c p b) (loop c p b')
  IncludesExec-loop c pre_tested h st st' sg d = IncludesExec-while c h st st' sg d
  IncludesExec-loop c post_tested h st st' sg (first_again r g d) =
      first_again (h _ _ _ r) g (IncludesExec-while c h _ _ _ d)
  IncludesExec-loop c post_tested h st st' sg (first_leaves r l) = first_leaves (h _ _ _ r) l

  pub SameExec-loop :
      (c : Expression) (p : ConditionPosition) {b b' : Statements}
      → Same b b'
      → SameExec (loop c p b) (loop c p b')
  SameExec-loop c p h = (IncludesExec-loop c p h.0, IncludesExec-loop c p h.1)

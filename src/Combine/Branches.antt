-- ===== src/Combine/Branches.antt =====
-- If-else statements and loops that do the same because their conditions are worth the same.
use fcd.Base.{
  ◌≡◌, sym, ◌∙◌, subst, inl, inr, Bool, Bool-cases, true, false, not, arith, if◌then◌else◌,
}
use fcd.Expr.Defs.{Expression}
use fcd.Combine.Tree.{pre_tested, post_tested, Statement, Statements, if_else, loop, nil, cons}
use fcd.Combine.Run.{
  Machine, Signal, normal, jumped, Leaves, Exec, Run, takes, ends, again, leaves, first_again,
  first_leaves, done, next, stop,
}
use fcd.Combine.Same.{Includes, Same, SameExec, IncludesExec}

module _ (m : Machine) where
  pub Run-single :
      {x : Statement} (st st' : m.State) (sg : Signal)
      → Exec m x st sg st'
      → Run m (cons x nil) st sg st'
  Run-single st st' normal d = next d done
  Run-single st st' (jumped n o) d = stop d (λ h. cc)

  pub Exec-single :
      {x : Statement} {st st' : m.State} {sg : Signal}
      → Run m (cons x nil) st sg st'
      → Exec m x st sg st'
  Exec-single (next d done) = d
  Exec-single (stop d n) = d

  pub Run-test :
      (v u : Bool) (a b : Statements) {st st' : m.State} {sg : Signal}
      → v ≡ u
      → Run m (if v then a else b) st sg st'
      → Run m (if u then a else b) st sg st'
  Run-test v u a b {st} {st'} {sg} p r =
      subst (λ (t : Bool). Run m (if t then a else b) st sg st') p r

  IncludesExec-equal :
      (d e : Expression) (a b : Statements)
      → ((st : m.State) → m.truth st d ≡ m.truth st e)
      → IncludesExec m (if_else d a b) (if_else e a b)
  IncludesExec-equal d e a b h st st' sg (takes r) =
      takes (Run-test (m.truth st d) (m.truth st e) a b (h st) r)

  pub SameExec-equal :
      (d e : Expression) (a b : Statements)
      → ((st : m.State) → m.truth st d ≡ m.truth st e)
      → SameExec m (if_else d a b) (if_else e a b)
  SameExec-equal d e a b h =
      (IncludesExec-equal d e a b h, IncludesExec-equal e d a b (λ st. sym (h st)))

  Run-not :
      (v : Bool) (a b : Statements) {st st' : m.State} {sg : Signal}
      → Run m (if v then a else b) st sg st'
      → Run m (if not v then b else a) st sg st'
  Run-not true a b r = r
  Run-not false a b r = r

  IncludesExec-opposite :
      (d e : Expression) (a b : Statements)
      → ((st : m.State) → m.truth st e ≡ not (m.truth st d))
      → IncludesExec m (if_else d a b) (if_else e b a)
  IncludesExec-opposite d e a b h st st' sg (takes r) =
      takes (
        Run-test (not (m.truth st d)) (m.truth st e) b a (sym (h st))
          (Run-not (m.truth st d) a b r))

  pub opposite_back : (v u : Bool) → v ≡ not u → u ≡ not v
  opposite_back true u h = ground arith
  opposite_back false u h = ground arith

  pub SameExec-opposite :
      (d e : Expression) (a b : Statements)
      → ((st : m.State) → m.truth st e ≡ not (m.truth st d))
      → SameExec m (if_else d a b) (if_else e b a)
  SameExec-opposite d e a b h = (
    IncludesExec-opposite d e a b h,
    IncludesExec-opposite e d b a (λ st. opposite_back _ _ (h st)),
  )

  -- A condition that is always worth the same leaves one of the bodies.
  pub Same-constant :
      (v : Bool) (d : Expression) (a b : Statements)
      → ((st : m.State) → m.truth st d ≡ v)
      → Same m (cons (if_else d a b) nil) (if v then a else b)
  Same-constant v d a b h = (
    forth,
    λ st st' sg r. Run-single st st' sg (takes (Run-test v (m.truth st d) a b (sym (h st)) r)),
  )
    where
      forth : Includes m (cons (if_else d a b) nil) (if v then a else b)
      forth st st' sg (next (takes r) done) = Run-test (m.truth st d) v a b (h st) r
      forth st st' sg (stop (takes r) n) = Run-test (m.truth st d) v a b (h st) r

  Run-empty_if :
      (v : Bool) {st st' : m.State} {sg : Signal}
      → Run m (if v then nil else nil) st sg st'
      → Run m nil st sg st'
  Run-empty_if true r = r
  Run-empty_if false r = r

  Run-if_empty :
      (v : Bool) {st st' : m.State} {sg : Signal}
      → Run m nil st sg st'
      → Run m (if v then nil else nil) st sg st'
  Run-if_empty true r = r
  Run-if_empty false r = r

  pub Same-empty_if : (d : Expression) → Same m (cons (if_else d nil nil) nil) nil
  Same-empty_if d =
      (forth, λ st st' sg r. Run-single st st' sg (takes (Run-if_empty (m.truth st d) r)))
    where
      forth : Includes m (cons (if_else d nil nil) nil) nil
      forth st st' sg (next (takes r) done) = Run-empty_if (m.truth st d) r
      forth st st' sg (stop (takes r) n) = Run-empty_if (m.truth st d) r

  module _ (c d : Expression) (a : Statements)
      (h : (st : m.State) → m.truth st d ≡ m.truth st c) where
    abbrev guarded : Statements
    guarded = cons (if_else d a nil) nil

    guard_true :
        {st st' : m.State} {sg : Signal}
        → m.truth st c ≡ true
        → Run m guarded st sg st'
        → Run m a st sg st'
    guard_true {st} p r = elim (Exec-single r) [
      | takes q ↦ Run-test (m.truth st d) true a nil (h st ∙ p) q
    ]

    true_guard :
        {st st' : m.State} {sg : Signal}
        → m.truth st c ≡ true
        → Run m a st sg st'
        → Run m guarded st sg st'
    true_guard {st} {st'} {sg} p r =
        Run-single st st' sg (takes (Run-test true (m.truth st d) a nil (sym (h st ∙ p)) r))

    false_guard : {st : m.State} → m.truth st c ≡ false → Run m guarded st normal st
    false_guard {st} p =
        next (takes (Run-test false (m.truth st d) a nil (sym (h st ∙ p)) done)) done

    -- what a guard that is not taken does
    guard_false :
        {st st' : m.State} {sg : Signal}
        → m.truth st c ≡ false
        → Run m guarded st sg st'
        → Run m nil st sg st'
    guard_false {st} p r = elim (Exec-single r) [
      | takes q ↦ Run-test (m.truth st d) false a nil (h st ∙ p) q
    ]

    unguard_while : IncludesExec m (loop c pre_tested guarded) (loop c pre_tested a)
    unguard_while st st' sg (ends p) = ends p
    unguard_while st st' sg (again p r g e) = again p (guard_true p r) g (unguard_while _ _ _ e)
    unguard_while st st' sg (leaves p r l) = leaves p (guard_true p r) l

    guard_while : IncludesExec m (loop c pre_tested a) (loop c pre_tested guarded)
    guard_while st st' sg (ends p) = ends p
    guard_while st st' sg (again p r g e) = again p (true_guard p r) g (guard_while _ _ _ e)
    guard_while st st' sg (leaves p r l) = leaves p (true_guard p r) l

    skipped :
        {st st₁ st' : m.State} {sg sg₁ : Signal}
        → Run m nil st sg₁ st₁
        → Exec m (loop c pre_tested guarded) st₁ sg st'
        → Exec m (loop c pre_tested a) st sg st'
    skipped done e = unguard_while _ _ _ e

    never_left :
        {st st' : m.State} {sg₁ : Signal} (sg : Signal) → Run m nil st sg₁ st' → Leaves sg₁ sg → ⊥
    never_left sg done l = l

    unguard_do : IncludesExec m (loop c post_tested guarded) (loop c pre_tested a)
    unguard_do st st' sg (first_again r g e) = elim (Bool-cases (m.truth st c)) [
      | inl p ↦ again p (guard_true p r) g (unguard_while _ _ _ e)
      | inr p ↦ skipped (guard_false p r) e
    ]
    unguard_do st st' sg (first_leaves r l) = elim (Bool-cases (m.truth st c)) [
      | inl p ↦ leaves p (guard_true p r) l
      | inr p ↦ absurd (never_left sg (guard_false p r) l)
    ]

    guard_do : IncludesExec m (loop c pre_tested a) (loop c post_tested guarded)
    guard_do st st' sg (ends p) = first_again (false_guard p) tt (ends p)
    guard_do st st' sg (again p r g e) = first_again (true_guard p r) g (guard_while _ _ _ e)
    guard_do st st' sg (leaves p r l) = first_leaves (true_guard p r) l

    -- `do { if (d) a } while (c)` does what `while (c) a` does.
    pub SameExec-do_if : SameExec m (loop c post_tested guarded) (loop c pre_tested a)
    SameExec-do_if = (unguard_do, guard_do)

-- ===== src/Combine/Breaks.antt =====
-- Endless loops that an if-else statement breaks out of, and loops with a condition.
use Prim.Native.String.{String}
use fcd.Base.{
  ◌≡◌, ◌≢◌, refl, sym, ◌∙◌, subst, inl, inr, Bool, Bool-cases, true, false, Option, if◌then◌else◌,
}
use fcd.Expr.Defs.{Expression}
use fcd.Combine.Tree.{
  ConditionPosition, pre_tested, post_tested, Statements, keyword, if_else, loop, nil, cons, append,
}
use fcd.Combine.Run.{
  Machine, Signal, normal, jumped, GoesOn, Leaves, Exec, Run, jumps, takes, ends, again, leaves,
  first_again, first_leaves, next, stop,
}
use fcd.Combine.Same.{SameExec, IncludesExec, Run-append, Run-append_stop, both, first, Run-Halves}
use fcd.Combine.Branches.{Run-test}

module _ (m : Machine) where
  -- A condition that is true in every state.
  abbrev pub AlwaysTrue : Expression → Type 0
  AlwaysTrue d = (st : m.State) → m.truth st d ≡ true

  while_of_do :
      (d : Expression) (b : Statements)
      → AlwaysTrue d
      → IncludesExec m (loop d post_tested b) (loop d pre_tested b)
  while_of_do d b t st st' sg (first_again r g e) = again (t st) r g e
  while_of_do d b t st st' sg (first_leaves r l) = leaves (t st) r l

  do_of_while :
      (d : Expression) (b : Statements)
      → AlwaysTrue d
      → IncludesExec m (loop d pre_tested b) (loop d post_tested b)
  do_of_while d b t st st' sg (ends p) = let worth = t st in cc
  do_of_while d b t st st' sg (again p r g e) = first_again r g e
  do_of_while d b t st st' sg (leaves p r l) = first_leaves r l

  -- Where the condition of an endless loop is tested does not matter.
  pub SameExec-endless :
      (d : Expression) (p : ConditionPosition) (b : Statements)
      → AlwaysTrue d
      → SameExec m (loop d p b) (loop d pre_tested b)
  SameExec-endless d pre_tested b t = (λ st st' sg e. e, λ st st' sg e. e)
  SameExec-endless d post_tested b t = (while_of_do d b t, do_of_while d b t)

  pub Run-break :
      {o : Option Expression} {st st' : m.State} {sg : Signal}
      → Run m (cons (keyword "break" o) nil) st sg st'
      → (st ≡ st') × (sg ≡ jumped "break" o)
  Run-break (next e r) = absurd (not_normal e refl)
    where
      not_normal :
          {n : String} {o : Option Expression} {st st' : m.State} {sg : Signal}
          → Exec m (keyword n o) st sg st'
          → sg ≢ normal
      not_normal jumps h = cc
  Run-break (stop jumps n) = (refl, refl)

  -- how a break leaves a loop
  pub break-Leaves :
      {o : Option Expression} {sg₁ : Signal} (sg : Signal)
      → sg₁ ≡ jumped "break" o
      → Leaves sg₁ sg
      → sg ≡ normal
  break-Leaves {o} sg p l =
      let l' : Leaves (jumped "break" o) sg = subst (λ (s : Signal). Leaves s sg) p l in
      elim l' [ inl h ↦ h.1 | inr h ↦ absurd (h.0 refl) ]

  pub break_never-GoesOn :
      {o : Option Expression} {sg : Signal} → sg ≡ jumped "break" o → GoesOn sg → ⊥
  break_never-GoesOn {o} p k = let k' : GoesOn (jumped "break" o) = subst GoesOn p k in cc

  -- A loop on a condition that is false ends at once.
  pub ends_as :
      {g : Expression} {b : Statements} (st st' : m.State) (sg : Signal)
      → m.truth st g ≡ false
      → st ≡ st'
      → sg ≡ normal
      → Exec m (loop g pre_tested b) st sg st'
  ends_as {g} {b} st st' sg p q h =
      subst (λ (s : Signal). Exec m (loop g pre_tested b) st s st') (sym h)
        (subst (λ (x : m.State). Exec m (loop g pre_tested b) st normal x) q (ends p))

  abbrev pub breaking : Option Expression → Statements
  breaking o = cons (keyword "break" o) nil

  module _ (d e g : Expression) (t : AlwaysTrue d)
      (worth : (st : m.State) → m.truth st g ≡ m.truth st e) (o : Option Expression)
      (r rest : Statements) where
    -- one round of the loop that breaks
    abbrev Round : Bool → m.State → Signal → m.State → Type 0
    Round true st sg st' = Run m (append r rest) st sg st'
    Round false st sg st' = (st ≡ st') × (sg ≡ jumped "break" o)

    next-Round :
        (v : Bool) {st st₁ st' : m.State} {sg : Signal}
        → Run m (if v then r else breaking o) st normal st₁
        → Run m rest st₁ sg st'
        → Round v st sg st'
    next-Round true q u = Run-append m r rest _ _ _ _ q u
    next-Round false q u = let h = Run-break q in cc

    stop-Round :
        (v : Bool) {st st' : m.State} {sg : Signal}
        → Run m (if v then r else breaking o) st sg st'
        → sg ≢ normal
        → Round v st sg st'
    stop-Round true q n = Run-append_stop m r rest _ _ _ q n
    stop-Round false q n = Run-break q

    abbrev front_body : Statements
    front_body = cons (if_else e r (breaking o)) rest

    Run-Round :
        (v : Bool) {st st' : m.State} {sg : Signal}
        → m.truth st e ≡ v
        → Run m front_body st sg st'
        → Round v st sg st'
    Run-Round v {st} p (next (takes q) u) =
        next-Round v (Run-test m (m.truth st e) v r (breaking o) p q) u
    Run-Round v {st} p (stop (takes q) n) =
        stop-Round v (Run-test m (m.truth st e) v r (breaking o) p q) n

    round_goes :
        {st st' : m.State} {sg : Signal}
        → m.truth st e ≡ true
        → Run m (append r rest) st sg st'
        → Run m front_body st sg st'
    round_goes {st} {st'} {sg} p u = elim (Run-Halves m r rest st st' sg u) [
      | both q v ↦ next (takes (Run-test m true (m.truth st e) r (breaking o) (sym p) q)) v
      | first q n ↦ stop (takes (Run-test m true (m.truth st e) r (breaking o) (sym p) q)) n
    ]

    round_breaks : {st : m.State} → m.truth st e ≡ false → Run m front_body st (jumped "break" o) st
    round_breaks {st} p =
        stop (takes (Run-test m false (m.truth st e) r (breaking o) (sym p) (stop jumps (λ h. cc))))
          (λ h. cc)

    front_forth : IncludesExec m (loop d pre_tested front_body) (loop g pre_tested (append r rest))
    front_forth st st' sg (ends p) = let always = t st in cc
    front_forth st st' sg (again p u k x) = elim (Bool-cases (m.truth st e)) [
      | inl q ↦ again (worth st ∙ q) (Run-Round true q u) k (front_forth _ _ _ x)
      | inr q ↦ absurd (break_never-GoesOn (Run-Round false q u).1 k)
    ]
    front_forth st st' sg (leaves p u l) = elim (Bool-cases (m.truth st e)) [
      | inl q ↦ leaves (worth st ∙ q) (Run-Round true q u) l
      | inr q ↦
          let h = Run-Round false q u in
          ends_as st st' sg (worth st ∙ q) h.0 (break-Leaves sg h.1 l)
    ]

    front_back : IncludesExec m (loop g pre_tested (append r rest)) (loop d pre_tested front_body)
    front_back st st' sg (ends p) =
        leaves (t st) (round_breaks (sym (worth st) ∙ p)) (inl (refl, refl))
    front_back st st' sg (again p u k x) =
        again (t st) (round_goes (sym (worth st) ∙ p) u) k (front_back _ _ _ x)
    front_back st st' sg (leaves p u l) = leaves (t st) (round_goes (sym (worth st) ∙ p) u) l

    -- An endless loop that first breaks unless `e` holds is a loop while `e` holds.
    pub SameExec-front :
        SameExec m (loop d pre_tested front_body) (loop g pre_tested (append r rest))
    SameExec-front = (front_forth, front_back)

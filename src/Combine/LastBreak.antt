-- ===== src/Combine/LastBreak.antt =====
-- Endless loops whose last statement breaks, and do-while loops.
use Prim.Native.String.{String}
use fcd.Base.{
  ◌≡◌, ◌≢◌, refl, sym, ap, ◌∙◌, subst, inl, inr, Bool, Bool-cases, true, false, Option,
  if◌then◌else◌,
}
use fcd.Expr.Defs.{Expression}
use fcd.Combine.Tree.{
  pre_tested, post_tested, Statement, Statements, if_else, loop, nil, cons, append,
}
use fcd.Combine.Run.{
  Machine, Signal, normal, jumped, GoesOn, Leaves, Exec, Run, does, jumps, takes, ends, again,
  leaves, first_again, first_leaves, done, next, stop,
}
use fcd.Combine.Each.{Asked, Each, EachOf, Each-if, Keeps, Run-Keeps}
use fcd.Combine.Same.{
  SameExec, IncludesExec, Run-append, Run-append_stop, Halves, both, first, Run-Halves,
}
use fcd.Combine.Branches.{Run-single, Exec-single, Run-test}
use fcd.Combine.Breaks.{AlwaysTrue, Run-break, break-Leaves, break_never-GoesOn, ends_as, breaking}

module _ (m : Machine) (q : Asked) (no_continue : (n : String) → q.Keyword n → n ≢ "continue") where
  left_normal : (sg₁ sg : Signal) → Leaves sg₁ sg → GoesOn sg → sg ≡ normal
  left_normal normal sg l k = elim l [ ]
  left_normal (jumped n o) sg (inl h) k = h.1
  left_normal (jumped n o) sg (inr h) k = absurd (h.1 (subst GoesOn h.2 k))

  -- Without `continue`, statements after which a loop goes on have ended normally.
  mutual
    Run-normal :
        {s : Statements} {st st' : m.State} {sg : Signal}
        → Run m s st sg st'
        → Each q s
        → GoesOn sg
        → sg ≡ normal
    Run-normal done h k = refl
    Run-normal (next e r) h k = Run-normal r h.1 k
    Run-normal (stop e n) h k = Exec-normal e h.0 k

    Exec-normal :
        {x : Statement} {st st' : m.State} {sg : Signal}
        → Exec m x st sg st'
        → EachOf q x
        → GoesOn sg
        → sg ≡ normal
    Exec-normal does h k = refl
    Exec-normal (jumps {n}) h k = absurd (no_continue n h k)
    Exec-normal (takes {c = e} {a} {b} {st} r) h k =
        Run-normal r (Each-if q (m.truth st e) a b h.1 h.2) k
    Exec-normal (ends p) h k = refl
    Exec-normal (again p r g e) h k = Exec-normal e h k
    Exec-normal (leaves p r l) h k = left_normal _ _ l k
    Exec-normal (first_again r g e) h k = Exec-normal e h k
    Exec-normal (first_leaves r l) h k = left_normal _ _ l k

  Run-nil : {st st' : m.State} {sg : Signal} → Run m nil st sg st' → (st ≡ st') × (sg ≡ normal)
  Run-nil done = (refl, refl)

  do_as_while :
      {g : Expression} {b : Statements} {st st' : m.State} {sg : Signal}
      → Exec m (loop g post_tested b) st sg st'
      → m.truth st g ≡ true
      → Exec m (loop g pre_tested b) st sg st'
  do_as_while (first_again r k x) p = again p r k x
  do_as_while (first_leaves r l) p = leaves p r l

  while_ended :
      {g : Expression} {b : Statements} {st st' : m.State} {sg : Signal}
      → Exec m (loop g pre_tested b) st sg st'
      → m.truth st g ≡ false
      → (st ≡ st') × (sg ≡ normal)
  while_ended (ends p) h = (refl, refl)
  while_ended (again p r k x) h = absurd (cc)
  while_ended (leaves p r l) h = absurd (cc)

  module _ (d e g : Expression) (t : AlwaysTrue m d)
      (worth : (st : m.State) → m.truth st g ≡ m.truth st e) (o : Option Expression)
      (init r : Statements) (hi : Each q init) (kr : Keeps m e r) where
    abbrev old_body : Statements
    old_body = append init (cons (if_else e r (breaking m o)) nil)

    abbrev new_body : Statements
    new_body = append init (cons (if_else e r nil) nil)

    -- the last statement's branch
    Run-last :
        (v : Bool) (b : Statements) {st st' : m.State} {sg : Signal}
        → m.truth st e ≡ v
        → Run m (cons (if_else e r b) nil) st sg st'
        → Run m (if v then r else b) st sg st'
    Run-last v b {st} p u = elim (Exec-single m u) [ takes z ↦ Run-test m (m.truth st e) v r b p z ]

    last-Run :
        (v : Bool) (b : Statements) {st st' : m.State} {sg : Signal}
        → m.truth st e ≡ v
        → Run m (if v then r else b) st sg st'
        → Run m (cons (if_else e r b) nil) st sg st'
    last-Run v b {st} {st'} {sg} p u =
        Run-single m st st' sg (takes (Run-test m v (m.truth st e) r b (sym p) u))

    module _ {st st₁ : m.State} {sg₁ : Signal} where
      forth_again :
          {st' : m.State} {sg : Signal}
          → Halves m init (cons (if_else e r (breaking m o)) nil) st sg₁ st₁
          → GoesOn sg₁
          → Exec m (loop g post_tested new_body) st₁ sg st'
          → Exec m (loop g post_tested new_body) st sg st'
      forth_again (both {st₁ = mid} u v) k x = elim (Bool-cases (m.truth mid e)) [
        | inl p ↦
            let z = Run-last true (breaking m o) p v in
            first_again (Run-append m init _ _ _ _ _ u (last-Run true nil p z)) k
              (do_as_while x (worth st₁ ∙ Run-Keeps m e z kr ∙ p))
        | inr p ↦
            absurd (break_never-GoesOn m (Run-break m (Run-last false (breaking m o) p v)).1 k)
      ]
      forth_again (first u n) k x = absurd (n (Run-normal u hi k))

      forth_leaves :
          {sg : Signal}
          → Halves m init (cons (if_else e r (breaking m o)) nil) st sg₁ st₁
          → Leaves sg₁ sg
          → Exec m (loop g post_tested new_body) st sg st₁
      forth_leaves {sg} (both {st₁ = mid} u v) l = elim (Bool-cases (m.truth mid e)) [
        | inl p ↦
            let z = Run-last true (breaking m o) p v in
            first_leaves (Run-append m init _ _ _ _ _ u (last-Run true nil p z)) l
        | inr p ↦
            let h = Run-break m (Run-last false (breaking m o) p v) in
            first_again (Run-append m init _ _ _ _ _ u (last-Run false nil p done)) tt
              (ends_as m mid st₁ sg (worth mid ∙ p) h.0 (break-Leaves m sg h.1 l))
      ]
      forth_leaves (first u n) l = first_leaves (Run-append_stop m init _ _ _ _ u n) l

      back_again :
          {st' : m.State} {sg : Signal}
          → Halves m init (cons (if_else e r nil) nil) st sg₁ st₁
          → GoesOn sg₁
          → (m.truth st₁ e ≡ true → Exec m (loop d pre_tested old_body) st₁ sg st')
          → (m.truth st₁ e ≡ false → (st₁ ≡ st') × (sg ≡ normal))
          → Exec m (loop d pre_tested old_body) st sg st'
      back_again {st'} {sg} (both {st₁ = mid} u v) k goes_on ended =
          elim (Bool-cases (m.truth mid e)) [
            | inl p ↦
                let z = Run-last true nil p v in
                again (t st) (Run-append m init _ _ _ _ _ u (last-Run true (breaking m o) p z)) k
                  (goes_on (Run-Keeps m e z kr ∙ p))
            | inr p ↦
                let h = Run-nil (Run-last false nil p v) in
                let f = ended (ap (λ (x : m.State). m.truth x e) (sym h.0) ∙ p) in
                subst (λ (x : m.State). Exec m (loop d pre_tested old_body) st sg x) (h.0 ∙ f.0)
                  (leaves (t st)
                    (Run-append m init _ _ _ _ _ u
                      (last-Run false (breaking m o) p (stop jumps (λ h. cc))))
                    (inl (refl, f.1)))
          ]
      back_again (first u n) k goes_on ended = absurd (n (Run-normal u hi k))

      back_leaves :
          {sg : Signal}
          → Halves m init (cons (if_else e r nil) nil) st sg₁ st₁
          → Leaves sg₁ sg
          → Exec m (loop d pre_tested old_body) st sg st₁
      back_leaves {sg} (both {st₁ = mid} u v) l = elim (Bool-cases (m.truth mid e)) [
        | inl p ↦
            let z = Run-last true nil p v in
            leaves (t st) (Run-append m init _ _ _ _ _ u (last-Run true (breaking m o) p z)) l
        | inr p ↦
            let h = Run-nil (Run-last false nil p v) in
            absurd (subst (λ (s : Signal). Leaves s sg) h.1 l)
      ]
      back_leaves (first u n) l = leaves (t st) (Run-append_stop m init _ _ _ _ u n) l

    last_forth : IncludesExec m (loop d pre_tested old_body) (loop g post_tested new_body)
    last_forth st st' sg (ends p) = let always = t st in cc
    last_forth st st' sg (again p u k x) =
        forth_again (Run-Halves m init _ _ _ _ u) k (last_forth _ _ _ x)
    last_forth st st' sg (leaves p u l) = forth_leaves (Run-Halves m init _ _ _ _ u) l

    back_while :
        {st st' : m.State} {sg : Signal}
        → Exec m (loop g pre_tested new_body) st sg st'
        → m.truth st e ≡ true
        → Exec m (loop d pre_tested old_body) st sg st'
    back_while {st} (ends p) h = let same = worth st in cc
    back_while (again {st₁} p u k x) h =
        back_again (Run-Halves m init _ _ _ _ u) k (back_while x)
          (λ f. while_ended x (worth st₁ ∙ f))
    back_while (leaves p u l) h = back_leaves (Run-Halves m init _ _ _ _ u) l

    last_back : IncludesExec m (loop g post_tested new_body) (loop d pre_tested old_body)
    last_back st st' sg (first_again {st₁} u k x) =
        back_again (Run-Halves m init _ _ _ _ u) k (back_while x)
          (λ f. while_ended x (worth st₁ ∙ f))
    last_back st st' sg (first_leaves u l) = back_leaves (Run-Halves m init _ _ _ _ u) l

    -- An endless loop that last breaks unless `e` holds is a do-while loop on `e`, when the
    -- statement's branch keeps what `e` is worth and the loop has no `continue`.
    pub SameExec-last : SameExec m (loop d pre_tested old_body) (loop g post_tested new_body)
    SameExec-last = (last_forth, last_back)

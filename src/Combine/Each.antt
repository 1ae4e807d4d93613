-- ===== src/Combine/Each.antt =====
-- Properties of every statement of a function, and conditions that no statement changes.
use Prim.Native.String.{String}
use fcd.Base.{◌≡◌, refl, sym, ap, ◌∙◌, Bool, true, false, if◌then◌else◌}
use fcd.Expr.Defs.{Expression}
use fcd.Combine.Tree.{Statement, Statements, expr, keyword, if_else, loop, nil, cons, append}
use fcd.Combine.Run.{
  Machine, Signal, Exec, Run, does, jumps, takes, ends, again, leaves, first_again, first_leaves,
  done, next, stop,
}

-- What is asked of the keywords, of the conditions, and of the bodies of an if-else statement.
pub record Asked : Type 1 where
  pub Keyword : String → Type 0
  pub Branch : Expression → Type 0
  pub Guarded : Expression → Statements → Type 0
  pub Loop : Expression → Type 0

abbrev mutual
  pub Each : Asked → Statements → Type 0
  Each q nil = Unit
  Each q (cons x s) = EachOf q x × Each q s

  pub EachOf : Asked → Statement → Type 0
  EachOf q (expr e) = Unit
  EachOf q (keyword n o) = q.Keyword n
  EachOf q (if_else d a b) = (q.Branch d × q.Guarded d a × q.Guarded d b) × Each q a × Each q b
  EachOf q (loop d p b) = q.Loop d × Each q b

pub Each-append : (q : Asked) (s t : Statements) → Each q s → Each q t → Each q (append s t)
unfolding append
Each-append q nil t h k = k
Each-append q (cons x s) t h k = (h.0, Each-append q s t h.1 k)

pub Each-if :
    (q : Asked) (v : Bool) (a b : Statements) → Each q a → Each q b → Each q (if v then a else b)
Each-if q true a b h k = h
Each-if q false a b h k = k

-- Every expression statement among them satisfies `P`.
abbrev mutual
  pub Executes : (Expression → Type 0) → Statements → Type 0
  Executes P nil = Unit
  Executes P (cons x s) = ExecutesIn P x × Executes P s

  pub ExecutesIn : (Expression → Type 0) → Statement → Type 0
  ExecutesIn P (expr e) = P e
  ExecutesIn P (keyword n o) = Unit
  ExecutesIn P (if_else d a b) = Executes P a × Executes P b
  ExecutesIn P (loop d p b) = Executes P b

pub Executes-append :
    (P : Expression → Type 0) (s t : Statements)
    → Executes P s
    → Executes P t
    → Executes P (append s t)
unfolding append
Executes-append P nil t h k = k
Executes-append P (cons x s) t h k = (h.0, Executes-append P s t h.1 k)

pub Executes-if :
    (P : Expression → Type 0) (v : Bool) (a b : Statements)
    → Executes P a
    → Executes P b
    → Executes P (if v then a else b)
Executes-if P true a b h k = h
Executes-if P false a b h k = k

pub Executes-split :
    (P : Expression → Type 0) (s t : Statements)
    → Executes P (append s t)
    → Executes P s × Executes P t
unfolding append
Executes-split P nil t h = (tt, h)
Executes-split P (cons x s) t h = let (a, b) = Executes-split P s t h.1 in ((h.0, a), b)

mutual
  Executes-map :
      (P Q R : Expression → Type 0) (s : Statements)
      → ((e : Expression) → P e → Q e → R e)
      → Executes P s
      → Executes Q s
      → Executes R s
  Executes-map P Q R nil f h k = tt
  Executes-map P Q R (cons x s) f h k =
      (ExecutesIn-map P Q R x f h.0 k.0, Executes-map P Q R s f h.1 k.1)

  ExecutesIn-map :
      (P Q R : Expression → Type 0) (x : Statement)
      → ((e : Expression) → P e → Q e → R e)
      → ExecutesIn P x
      → ExecutesIn Q x
      → ExecutesIn R x
  ExecutesIn-map P Q R (expr e) f h k = f e h k
  ExecutesIn-map P Q R (keyword n o) f h k = tt
  ExecutesIn-map P Q R (if_else d a b) f h k =
      (Executes-map P Q R a f h.0 k.0, Executes-map P Q R b f h.1 k.1)
  ExecutesIn-map P Q R (loop d p b) f h k = Executes-map P Q R b f h k

module _ (m : Machine) where
  -- The expression statement does not change what the condition is worth.
  abbrev pub LeavesWorth : Expression → Expression → Type 0
  LeavesWorth d e = (st : m.State) → m.truth (m.effect e st) d ≡ m.truth st d

  -- None of the statements changes it.
  abbrev pub Keeps : Expression → Statements → Type 0
  Keeps d s = Executes (LeavesWorth d) s

  -- What is kept of two conditions is kept of one whose worth is a function of theirs.
  pub Keeps-both :
      (f : Bool → Bool → Bool) (d e g : Expression) (s : Statements)
      → ((st : m.State) → m.truth st g ≡ f (m.truth st d) (m.truth st e))
      → Keeps d s
      → Keeps e s
      → Keeps g s
  Keeps-both f d e g s w h k =
      Executes-map (LeavesWorth d) (LeavesWorth e) (LeavesWorth g) s
        (λ x i j st.
          w (m.effect x st)
          ∙ ap (λ v. f v (m.truth (m.effect x st) e)) (i st)
          ∙ ap (f (m.truth st d)) (j st)
          ∙ sym (w st))
        h k

  pub Keeps-worth :
      (f : Bool → Bool) (d e : Expression) (s : Statements)
      → ((st : m.State) → m.truth st e ≡ f (m.truth st d))
      → Keeps d s
      → Keeps e s
  Keeps-worth f d e s w h = Keeps-both (λ v u. f v) d d e s w h h

  module _ (d : Expression) where
    mutual
      pub Run-Keeps :
          {s : Statements} {st st' : m.State} {sg : Signal}
          → Run m s st sg st'
          → Keeps d s
          → m.truth st' d ≡ m.truth st d
      Run-Keeps done h = refl
      Run-Keeps (next e r) h = Run-Keeps r h.1 ∙ Exec-Keeps e h.0
      Run-Keeps (stop e n) h = Exec-Keeps e h.0

      Exec-Keeps :
          {x : Statement} {st st' : m.State} {sg : Signal}
          → Exec m x st sg st'
          → ExecutesIn (LeavesWorth d) x
          → m.truth st' d ≡ m.truth st d
      Exec-Keeps (does {e} {st}) h = h st
      Exec-Keeps jumps h = refl
      Exec-Keeps (takes {c = e} {a} {b} {st} r) h =
          Run-Keeps r (Executes-if (LeavesWorth d) (m.truth st e) a b h.0 h.1)
      Exec-Keeps (ends p) h = refl
      Exec-Keeps (again p r g e) h = Exec-Keeps e h ∙ Run-Keeps r h
      Exec-Keeps (leaves p r l) h = Run-Keeps r h
      Exec-Keeps (first_again r g e) h = Exec-Keeps e h ∙ Run-Keeps r h
      Exec-Keeps (first_leaves r l) h = Run-Keeps r h

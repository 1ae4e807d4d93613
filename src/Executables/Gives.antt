-- ===== src/Executables/Gives.antt =====
-- A property of what an `Outcome` gives, and how the parser's combinators keep it.
use fcd.Base.{
  ℕ, zero, suc, ◌+◌, ◌%◌, ◌^◌, ◌≡◌, ap, subst, Bool, true, false, List, [], ◌∷◌, Option, none, some,
  Bool-cases, inl, inr, ltb, ◌==◌, arith, if◌then◌else◌,
}
use fcd.Executables.Memory.{Outcome, ok, wild, failed, unfinished, ◌>>=◌}
use fcd.Executables.Elf.{ElfExecutable, for_each}
use fcd.Executables.Parse.{given, given_pointer, count_loop}

-- A property of the result, when there is one
pub data Gives {ℓ κ} {A : Type ℓ} (P : A → Type κ) : Outcome A → Type (ℓ ⊔ κ) where
  gives : (a : A) → P a → Gives P (ok a)
  at_wild : Gives P wild
  at_failed : Gives P failed
  at_unfinished : Gives P unfinished

value_or {ℓ} : {A : Type ℓ} → A → Outcome A → A
value_or d (ok a) = a
value_or d wild = d
value_or d failed = d
value_or d unfinished = d

ok-inj {ℓ} : {A : Type ℓ} {a b : A} → ok a ≡ ok b → a ≡ b
unfolding value_or
ok-inj {a = a} q = ap (value_or a) q

pub Gives-ok {ℓ κ} :
    {A : Type ℓ} {P : A → Type κ} {o : Outcome A} {a : A} → Gives P o → o ≡ ok a → P a
Gives-ok {P = P} (gives a h) q = subst P (ok-inj q) h
Gives-ok at_wild q = absurd (ground arith)
Gives-ok at_failed q = absurd (ground arith)
Gives-ok at_unfinished q = absurd (ground arith)

pub Gives-bind {ℓ κ μ ν} :
    {A : Type ℓ} {B : Type κ} {P : A → Type μ} {Q : B → Type ν} {o : Outcome A} {f : A → Outcome B}
    → Gives P o
    → ((a : A) → P a → Gives Q (f a))
    → Gives Q (o >>= f)
Gives-bind (gives a h) g = g a h
Gives-bind at_wild g = at_wild
Gives-bind at_failed g = at_failed
Gives-bind at_unfinished g = at_unfinished

pub Gives-any {ℓ κ ν} :
    {A : Type ℓ} {B : Type κ} {Q : B → Type ν} (o : Outcome A) {f : A → Outcome B}
    → ((a : A) → Gives Q (f a))
    → Gives Q (o >>= f)
Gives-any (ok a) g = g a
Gives-any wild g = at_wild
Gives-any failed g = at_failed
Gives-any unfinished g = at_unfinished

pub Gives-for_each :
    {A : Type 0} {S : Type 0} (P : S → Type 0) (read : ℕ → Outcome A) (f : A → S → S) (ps : List ℕ)
    (s : S)
    → ((a : A) (s : S) → P s → P (f a s))
    → P s
    → Gives P (for_each read f ps s)
unfolding for_each
Gives-for_each P read f [] s step h = gives s h
Gives-for_each P read f (p ∷ ps) s step h =
    Gives-any (read p) (λ x. Gives-for_each P read f ps (f x s) step (step x s h))

pub if-both {ℓ κ} :
    {A : Type ℓ} (P : A → Type κ) (b : Bool) {x y : A} → P x → P y → P (if b then x else y)
if-both P true h g = h
if-both P false h g = g

pub Gives-given {κ} :
    {A : Type 0} (P : ElfExecutable → Type κ) (o : Option A) (e : ElfExecutable)
    (f : A → Outcome ElfExecutable)
    → P e
    → ((a : A) → Gives P (f a))
    → Gives P (given o e f)
Gives-given P none e f h g = gives e h
Gives-given P (some a) e f h g = g a

pub Gives-given_pointer {κ} :
    (P : ElfExecutable → Type κ) (p : ℕ) (e : ElfExecutable) (f : ℕ → Outcome ElfExecutable)
    → P e
    → ((q : ℕ) → Gives P (f q))
    → Gives P (given_pointer p e f)
Gives-given_pointer P p e f h g = if-both (Gives P) (p == 0) (gives e h) (g p)

pub Gives-count_loop :
    {S : Type 0} (P : S → Type 0) (body : ℕ → S → Outcome S) (size step rounds iter : ℕ) (s : S)
    → ((iter : ℕ) (s : S) → P s → Gives P (body iter s))
    → P s
    → Gives P (count_loop body size step rounds iter s)
unfolding count_loop
Gives-count_loop P body size step zero iter s each h = if-both (Gives P) _ at_unfinished (gives s h)
Gives-count_loop P body size step (suc n) iter s each h = elim (Bool-cases (ltb iter size)) [
  | inl q ↦
      rw (q, count_loop)
        (Gives-bind (each iter s h)
          (λ t g. Gives-count_loop P body size step n ((iter + step) % 2 ^ 64) t each g))
  | inr q ↦ rw (q, count_loop) (gives s h)
]

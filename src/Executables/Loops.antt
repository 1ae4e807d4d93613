-- ===== src/Executables/Loops.antt =====
-- The loops over relocations end, unless the size of the table is close to 2^64.
use fcd.Base.{
  ℕ, zero, suc, ◌+◌, ◌-◌, ◌*◌, ◌/◌, ◌%◌, ◌^◌, ◌≤◌, ◌<◌, ◌≡◌, refl, List, [], ◌∷◌, ltb, arith, true,
  false,
}
use native.Mathlib.Nat.{mod-eq_of_lt, mod-lt, mod-add-div}
use fcd.Executables.Memory.{Outcome, ok, wild, failed, unfinished, ◌>>=◌, addresses}
use fcd.Executables.Parse.{count_loop}

-- the body at each of the offsets, in order
unfoldable pub visit {ℓ} : {S : Type ℓ} → (ℕ → S → Outcome S) → List ℕ → S → Outcome S
visit body [] s = ok s
visit body (p ∷ ps) s = do t ← body p s; visit body ps t

bind-ext {ℓ κ} :
    {A : Type ℓ} {B : Type κ} (o : Outcome A) {f g : A → Outcome B}
    → ((a : A) → f a ≡ g a)
    → (o >>= f) ≡ (o >>= g)
bind-ext (ok a) h = h a
bind-ext wild h = refl
bind-ext failed h = refl
bind-ext unfinished h = refl

visit-count_loop {ℓ} :
    {S : Type ℓ} (body : ℕ → S → Outcome S) (size step n rounds iter : ℕ) (s : S)
    → 0 < step
    → size + step ≤ 2 ^ 64
    → size ≤ iter + n * step
    → (0 < n → iter + n * step < size + step)
    → n ≤ rounds
    → count_loop body size step rounds iter s ≡ visit body (addresses n step iter) s
unfolding visit count_loop
visit-count_loop body size step zero zero iter s pos small past last enough =
    let over : ltb iter size ≡ false = ground arith in rw over refl
visit-count_loop body size step zero (suc rounds) iter s pos small past last enough =
    let over : ltb iter size ≡ false = ground arith in rw (over, count_loop) refl
visit-count_loop body size step (suc n) zero iter s pos small past last enough =
    absurd (omega arith)
visit-count_loop body size step (suc n) (suc rounds) iter s pos small past last enough =
    let product : suc n * step ≡ step + n * step = omega arith in
    let below = last (omega arith) in
    let under : ltb iter size ≡ true = ground arith in
    let next : (iter + step) % 2 ^ 64 ≡ iter + step = mod-eq_of_lt (omega arith) in
    rw (under, next, count_loop)
      (bind-ext (body iter s) (λ t.
        visit-count_loop body size step n rounds (iter + step) t pos small (omega arith)
          (λ more. omega arith) (omega arith)))

-- how many offsets lie below the size
abbrev pub table_length : (size step : ℕ) → ℕ
table_length size step = (size + (step - 1)) / step

-- A loop over a table visits the multiples of the step below the size, in order, and ends; as many
-- rounds as the table has entries are enough. The size and the step must not exceed 2^64 together.
pub count_loop-visit {ℓ} :
    {S : Type ℓ} (body : ℕ → S → Outcome S) (size step rounds : ℕ) (s : S)
    → 0 < step
    → size + step ≤ 2 ^ 64
    → table_length size step ≤ rounds
    → count_loop body size step rounds 0 s
      ≡ visit body (addresses (table_length size step) step 0) s
count_loop-visit body size step rounds s pos small enough =
    let whole = mod-add-div (size + (step - 1)) step in
    let rest = mod-lt (size + (step - 1)) pos in
    let commuted : step * table_length size step ≡ table_length size step * step = ground arith in
    visit-count_loop body size step (table_length size step) rounds 0 s pos small (omega arith)
      (λ more. omega arith) enough

-- ===== src/Combine/Outcome.antt =====
-- How a pass over statements ends. It is handed the address that the next new expression gets, and
-- runs on fuel where the code recurses on lists that it has put together.
use fcd.Base.{ℕ, ◌≤◌, ◌≡◌, Option, none, some}

-- `refused` is a failed `cast<>` of `operator==`, and `exhausted` is the end of the fuel.
pub data Outcome (A : Type 0) : Type 0 where
  finished : A → (next_address : ℕ) → Outcome A
  refused exhausted : Outcome A

abbrev pub Pass : Type 0 → Type 0
Pass A = (next_address : ℕ) → Outcome A

abbrev pub then_with : {A B : Type 0} → (A → Pass B) → Outcome A → Outcome B
then_with k (finished a n) = k a n
then_with k refused = refused
then_with k exhausted = exhausted

infixl 5 ◌>>=◌
abbrev pub ◌>>=◌ : {A B : Type 0} → Pass A → (A → Pass B) → Pass B
◌>>=◌ p k n = then_with k (p n)

module _ {A : Type 0} where
  abbrev pub pure : A → Pass A
  pure a n = finished a n

  abbrev pub out_of_fuel : Pass A
  out_of_fuel n = exhausted

  abbrev pub ask : Option A → Pass A
  ask none n = refused
  ask (some a) n = finished a n

-- The pass finishes, and `P` holds of what it gives. The addresses from `first` on are new.
pub data Gives (first : ℕ) {A : Type 0} (P : A → Type 0) : Outcome A → Type 0 where
  gave : {a : A} {n : ℕ} → first ≤ n → P a → Gives first P (finished a n)

abbrev pub Ensures : ℕ → {A : Type 0} → (A → Type 0) → Pass A → Type 0
Ensures first P p = (n : ℕ) → first ≤ n → Gives first P (p n)

module _ {first : ℕ} where
  pub Ensures-pure : {A : Type 0} {P : A → Type 0} (a : A) → P a → Ensures first P (pure a)
  Ensures-pure a h n new = gave new h

  pub Ensures-ask :
      {A : Type 0} {P : A → Type 0} (o : Option A) (a : A)
      → o ≡ some a
      → P a
      → Ensures first P (ask o)
  Ensures-ask o a e h n new = rw e (gave new h)

  Gives-then :
      {A B : Type 0} {P : A → Type 0} {Q : B → Type 0} {o : Outcome A} {k : A → Pass B}
      → Gives first P o
      → ((a : A) → P a → Ensures first Q (k a))
      → Gives first Q (then_with k o)
  Gives-then (gave new h) f = f _ h _ new

  pub Ensures-bind :
      {A B : Type 0} {P : A → Type 0} {Q : B → Type 0} (p : Pass A) (k : A → Pass B)
      → Ensures first P p
      → ((a : A) → P a → Ensures first Q (k a))
      → Ensures first Q (p >>= k)
  Ensures-bind p k h f n new = Gives-then (h n new) f

  Gives-map :
      {A : Type 0} {P Q : A → Type 0} {o : Outcome A}
      → ((a : A) → P a → Q a)
      → Gives first P o
      → Gives first Q o
  Gives-map f (gave new h) = gave new (f _ h)

  pub Ensures-map :
      {A : Type 0} {P Q : A → Type 0} (p : Pass A)
      → ((a : A) → P a → Q a)
      → Ensures first P p
      → Ensures first Q p
  Ensures-map p f h n new = Gives-map f (h n new)

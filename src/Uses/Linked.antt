-- ===== src/Uses/Linked.antt =====
-- The list of the uses of an expression: `setUse` of fcd/ast/expression_use.cpp and what it calls,
-- and `replaceAllUsesWith` of fcd/ast/expressions.cpp. Uses and expressions are known by their
-- addresses; a null pointer is `none`. The tag beside `prev` never changes here.
use fcd.Base.{
  ℕ, zero, suc, ◌≡◌, ◌≢◌, Bool, true, false, Option, none, some, List, [], ◌∷◌, ◌==◌, if◌then◌else◌,
  All,
}

pub record ExpressionUse : Type 0 where
  pub prev : Option ℕ
  pub next : Option ℕ
  pub expression : Option ℕ

pub record UseStore : Type 0 where
  pub use_at : ℕ → ExpressionUse
  pub first_use : ℕ → Option ℕ

abbrev pub update {ℓ} : {A : Type ℓ} → (ℕ → A) → ℕ → A → ℕ → A
update f a v x = if x == a then v else f x

abbrev pub write_use : UseStore → ℕ → ExpressionUse → UseStore
write_use h u v = record h { use_at = update h.use_at u v }

abbrev pub same_pointer : Option ℕ → Option ℕ → Bool
same_pointer none none = true
same_pointer (some a) (some b) = a == b
same_pointer a b = false

-- on the use `u`
unfoldable pub set_prev_next : UseStore → (u : ℕ) → Option ℕ → UseStore
set_prev_next h u target = elim (h.use_at u).prev [
  | some p ↦ write_use h p (record (h.use_at p) { next = target })
  | none ↦ elim (h.use_at u).expression [
    | some e ↦ record h { first_use = update h.first_use e target }
    | none ↦ h
  ]
]

unfoldable pub set_next_prev : UseStore → (u : ℕ) → Option ℕ → UseStore
set_next_prev h u target = elim (h.use_at u).next [
  | some n ↦ write_use h n (record (h.use_at n) { prev = target })
  | none ↦ h
]

unfoldable pub unlink : UseStore → (u : ℕ) → UseStore
unfolding set_prev_next set_next_prev
unlink h u =
    let first = set_prev_next h u (h.use_at u).next in set_next_prev first u (first.use_at u).prev

-- the last part of `setUse`: `u` becomes the first use of the target
unfoldable pub link : UseStore → (u : ℕ) → Option ℕ → UseStore
unfolding set_next_prev
link h u none = write_use h u (record { prev = none; next = none; expression = none })
link h u (some e) =
    let second = record h {
      use_at =
          update h.use_at u (record { prev = none; next = h.first_use e; expression = some e });
      first_use = update h.first_use e (some u);
    } in
    set_next_prev second u (some u)

unfoldable pub set_use : UseStore → (u : ℕ) → Option ℕ → UseStore
unfolding unlink link
set_use h u target =
    if same_pointer (h.use_at u).expression target then h else link (unlink h u) u target

-- From `current`, whose predecessor is `before`, the uses of `e` are the list.
abbrev pub Linked : UseStore → (e : ℕ) → (before current : Option ℕ) → List ℕ → Type 0
Linked h e before current [] = current ≡ none
Linked h e before current (u ∷ us) =
    (current ≡ some u)
    × ((h.use_at u).prev ≡ before)
    × ((h.use_at u).expression ≡ some e)
    × Linked h e (some u) (h.use_at u).next us

abbrev pub Absent : ℕ → List ℕ → Type 0
Absent u us = All (λ v. v ≢ u) us

abbrev pub Distinct : List ℕ → Type 0
Distinct [] = Unit
Distinct (u ∷ us) = Absent u us × Distinct us

-- The uses of the expression, from its first one
abbrev pub IsUseList : UseStore → (e : ℕ) → List ℕ → Type 0
IsUseList h e us = Linked h e none (h.first_use e) us × Distinct us

-- The loop of `replaceAllUsesWith` another expression, for as many rounds as `rounds` at most.
unfoldable pub replace_uses : (rounds : ℕ) → UseStore → (from to : ℕ) → UseStore
unfolding set_use
replace_uses zero h from to = h
replace_uses (suc r) h from to = elim (h.first_use from) [
  | none ↦ h
  | some u ↦ replace_uses r (set_use h u (some to)) from to
]

unfoldable pub replace_all_uses_with : (rounds : ℕ) → UseStore → (from to : ℕ) → UseStore
unfolding replace_uses
replace_all_uses_with rounds h from to = if from == to then h else replace_uses rounds h from to

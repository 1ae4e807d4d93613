-- ===== src/Uses/Operands.antt =====
-- The operands of a user: `iterateUseArrays`, `getOperandUse` and `operands_size` of
-- fcd/ast/expression_user.cpp, and the iterator of fcd/ast/expression_user.h. The arrays of a user
-- are a chain, the inline one first. A slot names its array and counts from the end of it.
use fcd.Base.{ℕ, zero, suc, ◌+◌, ◌-◌, Option, none, some, List, [], ◌∷◌, leb, ◌==◌, if◌then◌else◌}

pub record AllocInfo : Type 0 where
  pub allocated : ℕ
  pub used : ℕ

abbrev pub alloc_info : ℕ → ℕ → AllocInfo
alloc_info a u = record { allocated = a; used = u }

pub record Slot : Type 0 where
  pub array : ℕ
  pub index : ℕ

abbrev pub slot : ℕ → ℕ → Slot
slot a i = record { array = a; index = i }

-- The arrays in turn, from the number `array`, while `action` gives a new state and no result.
unfoldable pub iterate_use_arrays {ℓ κ} :
    {S : Type ℓ} {R : Type κ}
    → (action : ℕ → AllocInfo → S → record { state : S; result : Option R }) → List AllocInfo
    → (array : ℕ) → S
    → record { state : S; result : Option R }
iterate_use_arrays action [] array s = record { state = s; result = none }
iterate_use_arrays action (a ∷ as') array s =
    let step = action array a s in
    let rest = iterate_use_arrays action as' (suc array) step.state in
    elim (step.result) [ none ↦ rest | some r ↦ step ]

-- `none` is the null pointer that is dereferenced when no array has the operand.
unfoldable pub get_operand_use : List AllocInfo → (index : ℕ) → Option Slot
unfolding iterate_use_arrays
get_operand_use arrays index =
    (iterate_use_arrays
      (λ array a i.
        if leb i a.used
        then record { state = i; result = some (slot array i) }
        else record { state = i - a.used; result = none })
      arrays 0 index).result

unfoldable pub operands_size : List AllocInfo → ℕ
unfolding iterate_use_arrays
operands_size arrays =
    (iterate_use_arrays {R = Unit {0}} (λ array a n. record { state = n + a.used; result = none })
      arrays 0 0).state

-- The iterator: the arrays from the one it is in, the number of that one, and the index there. At
-- the end of the chain no array is left.
pub record UseIterator : Type 0 where
  pub rest : List AllocInfo
  pub array : ℕ
  pub index : ℕ

unfoldable pub go_to_next_non_empty_buffer : List AllocInfo → (array index : ℕ) → UseIterator
go_to_next_non_empty_buffer [] array index = record { rest = []; array = array; index = index }
go_to_next_non_empty_buffer (a ∷ as') array index =
    let next = go_to_next_non_empty_buffer as' (suc array) 0 in
    if index == a.used then next else record { rest = a ∷ as'; array = array; index = index }

-- A user without room for operands gives the null iterator, which is also the end.
unfoldable pub operands_begin : List AllocInfo → UseIterator
unfolding go_to_next_non_empty_buffer
operands_begin [] = record { rest = []; array = 0; index = 0 }
operands_begin (a ∷ as') =
    if a.allocated == 0
    then record { rest = []; array = 0; index = 0 }
    else go_to_next_non_empty_buffer (a ∷ as') 0 0

unfoldable pub increment : UseIterator → UseIterator
unfolding go_to_next_non_empty_buffer
increment it = go_to_next_non_empty_buffer it.rest it.array (it.index + 1)

-- `operator*`
abbrev at_slot : List AllocInfo → Slot → Option Slot
at_slot [] s = none
at_slot (a ∷ as') s = some s

unfoldable pub dereference : UseIterator → Option Slot
dereference it = at_slot it.rest (slot it.array it.index)

-- the iterator after `n` steps from the beginning
unfoldable pub nth : ℕ → UseIterator → UseIterator
unfolding increment
nth zero it = it
nth (suc n) it = nth n (increment it)

-- ===== src/Liveness/Search.antt =====
-- `liveRangeContains` and `assignmentAssigns` of fcd/ast/analysis_liveness.cpp. The users of a variable
-- are known by the number of their statement. `upper_bound` and `lower_bound` are the standard
-- library's, on a list and the comparison with the value; reading at the end is `none`.
use fcd.Base.{
  ℕ, zero, suc, ◌≡◌, ◌≤◌, ◌⊎◌, Bool, true, false, Option, none, some, List, [], ◌∷◌, All, length,
  get_elem?, ltb, ◌==◌, if◌then◌else◌,
}
use fcd.Expr.Defs.{assign, nary, Operands, node, nil, cons, address}
use fcd.Combine.Tree.{Statement, expr}

-- `find` over pointers, and whether the second is found behind the first
abbrev pub finds : ℕ → Operands → Bool
finds p nil = false
finds p (cons e es) = if address e == p then true else finds p es

abbrev pub finds_behind : (left right : ℕ) → Operands → Bool
finds_behind left right nil = false
finds_behind left right (cons e es) =
    if address e == left then finds right es else finds_behind left right es

-- The cast of a statement that is no expression statement fails.
unfoldable pub assignment_assigns : Statement → (left right : ℕ) → Option Bool
assignment_assigns (expr (node p (nary assign) es)) left right = some (finds_behind left right es)
assignment_assigns (expr e) left right = some false
assignment_assigns x left right = none

-- `ExpressionUseRoot`: the first number of its statement, and `isUse`
pub record UseRoot : Type 0 where
  pub start : ℕ
  pub is_use : Bool

abbrev pub compare_statement_more : (index : ℕ) → UseRoot → Bool
compare_statement_more index u = ltb u.start index

abbrev pub compare_statement_less : (index : ℕ) → UseRoot → Bool
compare_statement_less index u = ltb index u.start

-- the numbers of a loop around the statement
pub record LoopRange : Type 0 where
  pub start : ℕ
  pub end : ℕ

abbrev pub take : ℕ → List UseRoot → List UseRoot
take zero us = []
take (suc n) [] = []
take (suc n) (u ∷ us) = u ∷ take n us

abbrev pub is_use_of : Option UseRoot → Option Bool
is_use_of none = none
is_use_of (some u) = some u.is_use

abbrev pub when_before : (index : ℕ) → Option UseRoot → (found rest : Option Bool) → Option Bool
when_before index none found rest = none
when_before index (some u) found rest = if ltb u.start index then found else rest

abbrev pub when_behind : (index : ℕ) → Option UseRoot → (rest : Option Bool) → Option Bool
when_behind index none rest = none
when_behind index (some u) rest = if ltb index u.start then some u.is_use else rest

module _ (upper_bound lower_bound : (UseRoot → Bool) → List UseRoot → ℕ) where
  -- the use behind the start of the loop, where `before_end` is the other iterator
  abbrev pub after_loop_start :
      List UseRoot → (next index before_end : ℕ) → LoopRange → (rest : Option Bool) → Option Bool
  after_loop_start users next index before_end l rest =
      let after_start = upper_bound (compare_statement_less l.start) (take next users) in
      if after_start == next
      then rest
      else when_before index (get_elem? users before_end) (is_use_of (get_elem? users after_start))
          rest

  abbrev pub in_loop :
      List UseRoot → (next index before_end : ℕ) → LoopRange → (rest : Option Bool) → Option Bool
  in_loop users next index zero l rest = after_loop_start users next index zero l rest
  in_loop users next index (suc k) l rest =
      when_behind index (get_elem? users k) (after_loop_start users next index k l rest)

  -- the loop over the loops around the statement, from the innermost on
  unfoldable pub in_loops : List UseRoot → (next index : ℕ) → List LoopRange → Option Bool
  in_loops users next index [] = some false
  in_loops users next index (l ∷ ls) =
      let rest = in_loops users next index ls in
      in_loop users next index (lower_bound (λ (u : UseRoot). ltb u.start l.end) (take next users))
        l rest

  abbrev pub when_used : Option UseRoot → (rest : Option Bool) → Option Bool
  when_used none rest = none
  when_used (some u) rest = if u.is_use then some true else rest

  unfoldable pub live_range_contains :
      List UseRoot → (statement_index : ℕ) → List LoopRange → Option Bool
  unfolding in_loops
  live_range_contains users index loops =
      let previous = upper_bound (compare_statement_more index) users in
      let next = upper_bound (compare_statement_less index) users in
      let rest = in_loops users next index loops in
      if previous == length users
      then rest
      else if next == length users
      then rest
      else when_used (get_elem? users next) rest

-- What `upper_bound` requires of a list: the comparison fails first, and then holds.
abbrev pub IsPartitioned : (UseRoot → Bool) → List UseRoot → Type 0
IsPartitioned p [] = Unit
IsPartitioned p (u ∷ us) =
    ((p u ≡ false) × IsPartitioned p us) ⊎ All (λ (v : UseRoot). p v ≡ true) (u ∷ us)

abbrev pub Ascending : List UseRoot → Type 0
Ascending [] = Unit
Ascending (u ∷ us) = All (λ (v : UseRoot). u.start ≤ v.start) us × Ascending us

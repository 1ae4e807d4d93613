-- ===== src/Liveness/Tests.antt =====
-- A function with a loop, and the users of a variable.
use fcd.Base.{
  ℕ, ◌+◌, ◌/◌, ◌-◌, ◌≡◌, refl, Bool, true, false, Option, none, some, List, [], ◌∷◌, length,
  get_elem?, ◌==◌, zero, suc, if◌then◌else◌,
}
use fcd.Expr.Defs.{assign, nary, token, Expression, node, nil as no_operands, cons as operand}
use fcd.Combine.Tree.{pre_tested, Statements, expr, keyword, loop, nil, cons}
use fcd.Liveness.Indices.{Use, new_analysis, collect_statement_indices}
use fcd.Liveness.Ranges.{preorder, IsNumbered, collect_statement_indices-preorder}
use fcd.Liveness.Search.{UseRoot, assignment_assigns, in_loops, live_range_contains}

abbrev variable : ℕ → Expression
variable p = node p (token 0 "v") no_operands

-- v1 = v2
abbrev assignment : Expression
assignment = node 9 (nary assign) (operand (variable 1) (operand (variable 2) no_operands))

abbrev function_body : Statements
function_body = cons (expr assignment) (
    cons (loop (variable 3) pre_tested (cons (keyword "break" none) nil))
      (cons (expr assignment) nil))

-- the variable 1 is used by the expressions 3 and 9
abbrev uses : ℕ → List Use
uses p = if p == 1 then record { user = 3; index = 0 } ∷ record { user = 9; index = 0 } ∷ [] else []

-- The variable is assigned, in the second of its uses.
assignments : (collect_statement_indices uses function_body new_analysis).assignments ≡ record {
  assigned_expressions = 1 ∷ [];
  uses_defs =
      (
        1,
        record { use_of = record { user = 3; index = 0 }; is_def = false }
            ∷ record { use_of = record { user = 9; index = 0 }; is_def = true }
            ∷ [],
      )
      ∷ [];
}
unfolding collect_statement_indices
assignments = refl

memory_operations :
    (collect_statement_indices uses function_body new_analysis).memory_operations ≡ 0 ∷ 3 ∷ []
unfolding collect_statement_indices
memory_operations = refl

collect_statement_indices-preorder_example :
    ((collect_statement_indices uses function_body new_analysis).flat_statements
      ≡ preorder function_body)
    × IsNumbered (collect_statement_indices uses function_body new_analysis)
collect_statement_indices-preorder_example = collect_statement_indices-preorder uses function_body

assignment_assigns-v2 : assignment_assigns (expr assignment) 1 2 ≡ some true
unfolding assignment_assigns
assignment_assigns-v2 = refl

assignment_assigns-v1 : assignment_assigns (expr assignment) 2 1 ≡ some false
unfolding assignment_assigns
assignment_assigns-v1 = refl

abbrev use_at : ℕ → UseRoot
use_at i = record { start = i; is_use = true }

-- `upper_bound` as a binary search, which looks at the middle first
abbrev first_of : (UseRoot → Bool) → Option UseRoot → Bool
first_of p none = false
first_of p (some u) = p u

abbrev search : (UseRoot → Bool) → (fuel first count : ℕ) → List UseRoot → ℕ
search p zero first count us = first
search p (suc f) first count us =
    let half = count / 2 in
    let left = search p f first half us in
    let right = search p f (first + half + 1) (count - half - 1) us in
    if count == 0 then first else if first_of p (get_elem? us (first + half)) then left else right

abbrev upper_bound : (UseRoot → Bool) → List UseRoot → ℕ
upper_bound p us = search p (length us) 0 (length us) us

-- Defined by the statement 0, and used by 5, 6 and 7: at the statement 1 the variable is live, but
-- the search for the previous user ends without one.
abbrev users : List UseRoot
users = record { start = 0; is_use = false } ∷ use_at 5 ∷ use_at 6 ∷ use_at 7 ∷ []

live_range-missed : live_range_contains upper_bound upper_bound users 1 [] ≡ some false
unfolding live_range_contains in_loops
live_range-missed = refl

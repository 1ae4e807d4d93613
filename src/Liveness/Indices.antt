-- ===== src/Liveness/Indices.antt =====
-- `LivenessAnalysis::collectStatementIndices` and `collectAssignments` of fcd/ast/analysis_liveness.cpp, on trees of statements.
-- The maps from statements to their first and last numbers are a list of ranges, in the order in
-- which the ranges end; a statement is in the tree once, so no range is there before.
use fcd.Base.{
  ℕ, ◌+◌, Bool, true, false, ◌&&◌, ◌||◌, List, [], ◌∷◌, ◌++◌, length, ◌==◌, if◌then◌else◌,
}
use fcd.Expr.Defs.{
  assign, nary, Expression, Operands, node, nil as no_operands, cons as operand, address,
}
use fcd.Combine.Tree.{Statement, Statements, expr, keyword, if_else, loop, nil, cons}

-- `statementStartIndices` and `statementEndIndices` of a statement
pub record Range : Type 0 where
  pub statement : Statement
  pub start : ℕ
  pub end : ℕ

-- `ExpressionUse`, by its user and its place among the operands of that
pub record Use : Type 0 where
  pub user : ℕ
  pub index : ℕ

-- `AssignableUseDef`
pub record UseDef : Type 0 where
  pub use_of : Use
  pub is_def : Bool

-- `assignedExpressions`, and `usesDefs` by the addresses of the expressions
pub record Assignments : Type 0 where
  pub assigned_expressions : List ℕ
  pub uses_defs : List (ℕ × List UseDef)

pub record Analysis : Type 0 where
  pub assignments : Assignments
  pub flat_statements : List Statement
  pub ranges : List Range
  pub memory_operations : List ℕ

abbrev pub new_analysis : Analysis
new_analysis = record {
  assignments = record { assigned_expressions = []; uses_defs = [] };
  flat_statements = [];
  ranges = [];
  memory_operations = [];
}

abbrev pub start_statement : Statement → Analysis → Analysis
start_statement x a = record a { flat_statements = a.flat_statements ++ x ∷ [] }

abbrev pub end_statement : Statement → (start : ℕ) → Analysis → Analysis
end_statement x start a = record a {
  ranges = a.ranges ++ record { statement = x; start = start; end = length a.flat_statements } ∷ [];
}

-- `memoryOperations.insert(index)`
abbrev pub add_memory_operation : ℕ → Analysis → Analysis
add_memory_operation i a = record a { memory_operations = a.memory_operations ++ i ∷ [] }

abbrev pub same_use : Use → Use → Bool
same_use u v = u.user == v.user && u.index == v.index

-- the first of the uses becomes a definition
abbrev pub set_def : Use → List UseDef → List UseDef
set_def u [] = []
set_def u (d ∷ ds) =
    if same_use d.use_of u then record d { is_def = true } ∷ ds else d ∷ set_def u ds

abbrev pub set_def_of : ℕ → Use → List (ℕ × List UseDef) → List (ℕ × List UseDef)
set_def_of p u [] = []
set_def_of p u ((q, ds) ∷ es) =
    if q == p then (q, set_def u ds) ∷ es else (q, ds) ∷ set_def_of p u es

abbrev pub has_uses_defs : ℕ → List (ℕ × List UseDef) → Bool
has_uses_defs p [] = false
has_uses_defs p ((q, ds) ∷ es) = q == p || has_uses_defs p es

abbrev pub as_uses : List Use → List UseDef
as_uses [] = []
as_uses (u ∷ us) = record { use_of = u; is_def = false } ∷ as_uses us

-- `uses` is what the use list of an expression holds, at the address of that.
module _ (uses : ℕ → List Use) where
  -- `usesDefs.insert`, with what follows when the expression is new
  abbrev pub insert_uses_defs : ℕ → Assignments → Assignments
  insert_uses_defs p a = if has_uses_defs p a.uses_defs then a else record {
    assigned_expressions = a.assigned_expressions ++ p ∷ [];
    uses_defs = a.uses_defs ++ (p, as_uses (uses p)) ∷ [];
  }

  -- All operands from the one at `index` on but the last are assigned, the later ones first.
  unfoldable pub collect_assignments : (user index : ℕ) → Operands → Assignments → Assignments
  collect_assignments user index no_operands a = a
  collect_assignments user index (operand e no_operands) a = a
  collect_assignments user index (operand e (operand d es)) a =
      let b =
        insert_uses_defs (address e) (collect_assignments user (index + 1) (operand d es) a) in
      record b {
        uses_defs = set_def_of (address e) (record { user = user; index = index }) b.uses_defs;
      }

  -- the test for an assignment
  unfoldable pub collect_assigned : Expression → Assignments → Assignments
  unfolding collect_assignments
  collect_assigned (node p (nary assign) es) a = collect_assignments p 0 es a
  collect_assigned e a = a

  unfoldable pub with_assignments : Expression → Analysis → Analysis
  unfolding collect_assigned
  with_assignments e a = record a { assignments = collect_assigned e a.assignments }

  unfoldable mutual
    unfolding with_assignments

    pub collect_statement_indices : Statements → Analysis → Analysis
    collect_statement_indices nil a = a
    collect_statement_indices (cons x s) a = collect_statement_indices s (collect_statement x a)

    -- one round of the loop
    pub collect_statement : Statement → Analysis → Analysis
    collect_statement (expr e) a = end_statement (expr e) (length a.flat_statements) (
        add_memory_operation (length a.flat_statements)
          (with_assignments e (start_statement (expr e) a)))
    collect_statement (keyword n o) a =
        end_statement (keyword n o) (length a.flat_statements) (start_statement (keyword n o) a)
    collect_statement (if_else c s t) a = end_statement (if_else c s t) (length a.flat_statements) (
        collect_statement_indices t
          (collect_statement_indices s (start_statement (if_else c s t) a)))
    collect_statement (loop c p s) a =
        end_statement (loop c p s) (length a.flat_statements)
          (collect_statement_indices s (start_statement (loop c p s) a))

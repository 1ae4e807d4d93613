-- ===== src/Combine/Tree.antt =====
-- fcd/ast/statements.h: the statement classes as a tree. A body is the sequence of its list's
-- statements; how the linked lists hold such sequences is in the modules of Statements.
use Prim.Native.String.{String}
use fcd.Base.{ℕ, suc, ◌+◌, Option, none, some}
use fcd.Expr.Defs.{Expression}

pub data ConditionPosition : Type 0 where
  pre_tested post_tested : ConditionPosition

mutual
  pub data Statement : Type 0 where
    expr : Expression → Statement
    keyword : (name : String) → (operand : Option Expression) → Statement
    if_else : (condition : Expression) → (if_body else_body : Statements) → Statement
    loop : (condition : Expression) → ConditionPosition → (loop_body : Statements) → Statement

  pub data Statements : Type 0 where
    nil : Statements
    cons : Statement → Statements → Statements

-- `push_back` of a whole list
unfoldable pub append : Statements → Statements → Statements
append nil t = t
append (cons x s) t = cons x (append s t)

-- `StatementList::single`: the statement of a list that has just one
abbrev pub single : Statements → Option Statement
single (cons x nil) = some x
single s = none

-- How many statements there are, the inner ones included.
unfoldable mutual
  pub size : Statements → ℕ
  size nil = 0
  size (cons x s) = statement_size x + size s

  pub statement_size : Statement → ℕ
  statement_size (expr e) = 1
  statement_size (keyword n o) = 1
  statement_size (if_else c a b) = suc (size a + size b)
  statement_size (loop c p b) = suc (size b)

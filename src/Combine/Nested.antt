-- ===== src/Combine/Nested.antt =====
-- fcd/ast/pass_nestedcombiner.cpp. As in Consecutive, each function gives the statements that it
-- leaves, and an expression that is made has the next address.
use text.Mathlib.Text.{◌==◌ as str_eq}
use fcd.Base.{◌+◌, Bool, true, false, ◌||◌, Option, none, some}
use fcd.Expr.Defs.{
  UnaryOperator, dereference, NAryOperator, assign, short_circuit_and, unary, nary, member_access,
  pointer_access, call, cast, ternary, subscript, Expression, Operands, node, nil as no_operands,
  cons as operand,
}
use fcd.Expr.Negate.{Constants, negate}
use fcd.Combine.Tree.{
  ConditionPosition, pre_tested, post_tested, Statement, Statements, expr, keyword, if_else, loop,
  nil, cons, append, single,
}
use fcd.Combine.Outcome.{Pass, finished, ◌>>=◌, pure}

abbrev pub is_dereference : UnaryOperator → Bool
is_dereference dereference = true
is_dereference op = false

abbrev pub is_assign : NAryOperator → Bool
is_assign assign = true
is_assign op = false

-- `MemoryOperationVisitor`
unfoldable mutual
  pub has_memory_operation : Expression → Bool
  has_memory_operation (node p (unary op) es) = is_dereference op || first_has_memory_operation es
  has_memory_operation (node p (nary op) es) = is_assign op || any_memory_operation es
  has_memory_operation (node p ternary es) = any_memory_operation es
  has_memory_operation (node p (cast t) es) = first_has_memory_operation es
  has_memory_operation (node p subscript es) = true
  has_memory_operation (node p (member_access s i) es) = true
  has_memory_operation (node p (pointer_access s i) es) = true
  has_memory_operation (node p call es) = true
  has_memory_operation e = false

  -- `any_of` over the operands; a ternary's three operands are all of its operands
  pub any_memory_operation : Operands → Bool
  any_memory_operation no_operands = false
  any_memory_operation (operand e es) = has_memory_operation e || any_memory_operation es

  -- the one operand of a unary operator or a cast
  pub first_has_memory_operation : Operands → Bool
  first_has_memory_operation no_operands = false
  first_has_memory_operation (operand e es) = has_memory_operation e

abbrev pub is_break_statement : Option Statement → Bool
is_break_statement (some (keyword n o)) = str_eq n "break"
is_break_statement s = false

abbrev pub is_break : Statements → Bool
is_break list = is_break_statement (single list)

-- whether it is the true branch that has the break, when just one of the branches does
abbrev pub one_break : (true_break false_break : Bool) → Option Bool
one_break true false = some true
one_break false true = some false
one_break b b' = none

-- `list.back()` of a list with a first statement
unfoldable pub back : Statement → Statements → Statement
back x nil = x
back x (cons y s) = back y s

-- the statements before it
unfoldable pub before_back : Statement → Statements → Statements
before_back x nil = nil
before_back x (cons y s) = cons x (before_back y s)

-- `ctx.nary(ShortCircuitAnd, left, right)`
abbrev pub conjunction : Expression → Expression → Pass Expression
conjunction left right n =
    finished (node n (nary short_circuit_and) (operand left (operand right no_operands))) (n + 1)

-- The condition that the loop goes on under, from the condition of the if-else statement.
abbrev pub continue_condition : Constants → (true_break : Bool) → Expression → Pass Expression
continue_condition c true condition n = finished (negate c n condition) (n + 1)
continue_condition c false condition n = finished condition n

abbrev pub other_branch : (true_break : Bool) → (true_branch false_branch : Statements) → Statements
other_branch true a b = b
other_branch false a b = a

abbrev pub merge_unless : Bool → Expression → Expression → Statements → Pass Statements
merge_unless true d e a = pure (cons (if_else d (cons (if_else e a nil) nil) nil) nil)
merge_unless false d e a = do both ← conjunction d e; pure (cons (if_else both a nil) nil)

-- `visitIfElse`, from its visited bodies
unfoldable pub nest_if_else : Expression → (if_body else_body : Statements) → Pass Statements
unfolding has_memory_operation
nest_if_else d (cons (if_else e a nil) nil) nil = merge_unless (has_memory_operation e) d e a
nest_if_else d if_body else_body = pure (cons (if_else d if_body else_body) nil)

module _ (c : Constants) where
  -- The first statement is an if-else statement: it goes out of the loop.
  unfoldable pub structurize_front :
      Expression
      → ConditionPosition
      → (condition : Expression) → (true_branch false_branch rest : Statements) → Option Bool
      → Pass Statements
  structurize_front d p e a b rest none = pure (cons (loop d p (cons (if_else e a b) rest)) nil)
  structurize_front d p e a b rest (some true_break) = do
    condition ← continue_condition c true_break e
    both ← conjunction d condition
    pure (cons (loop both pre_tested (append (other_branch true_break a b) rest)) nil)

  -- The last one is: it stays in its place.
  unfoldable pub structurize_back :
      Expression
      → ConditionPosition
      → (init : Statements) → (condition : Expression) → (true_branch false_branch : Statements)
      → Option Bool
      → Pass Statements
  structurize_back d p init e a b none =
      pure (cons (loop d p (append init (cons (if_else e a b) nil))) nil)
  structurize_back d p init e a b (some true_break) = do
    condition ← continue_condition c true_break e
    both ← conjunction d condition
    pure (
        cons
          (loop both post_tested
            (append init (cons (if_else condition (other_branch true_break a b) nil) nil)))
          nil)

  -- from the last statement and the ones before it
  unfoldable pub structurize_last :
      Expression → ConditionPosition → (init : Statements) → Statement → Pass Statements
  unfolding structurize_back
  structurize_last d p init (if_else e a b) =
      structurize_back d p init e a b (one_break (is_break a) (is_break b))
  structurize_last d p init x = pure (cons (loop d p (append init (cons x nil))) nil)

  unfoldable pub structurize_loop : Expression → ConditionPosition → Statements → Pass Statements
  unfolding structurize_front structurize_last back before_back
  structurize_loop d p (cons (if_else e a b) rest) =
      structurize_front d p e a b rest (one_break (is_break a) (is_break b))
  structurize_loop d p (cons x (cons y rest)) =
      structurize_last d p (before_back x (cons y rest)) (back x (cons y rest))
  structurize_loop d p loop_body = pure (cons (loop d p loop_body) nil)

  -- `visit` and `visitAll`
  unfoldable mutual
    unfolding structurize_loop nest_if_else

    pub nest : Statement → Pass Statements
    nest (expr e) = pure (cons (expr e) nil)
    nest (keyword n o) = pure (cons (keyword n o) nil)
    nest (if_else d a b) = do
      if_body ← nest_all a
      else_body ← nest_all b
      nest_if_else d if_body else_body
    nest (loop d p b) = do loop_body ← nest_all b; structurize_loop d p loop_body

    pub nest_all : Statements → Pass Statements
    nest_all nil = pure nil
    nest_all (cons stmt list) = do
      visited ← nest stmt
      rest ← nest_all list
      pure (append visited rest)

  -- `doRun`, on the body of a function
  unfoldable pub run_nested_combiner : (body : Statements) → Pass Statements
  unfolding nest_all
  run_nested_combiner body = nest_all body

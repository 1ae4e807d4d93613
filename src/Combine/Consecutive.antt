-- ===== src/Combine/Consecutive.antt =====
-- fcd/ast/pass_consecutivecombine.cpp. Objects are taken out of lists and put into others, so each
-- function gives the sequence that it leaves. An expression that is made has the next address.
use fcd.Base.{ℕ, zero, suc, ◌+◌, Bool, true, false, Option, none, some, ◌==◌, if◌then◌else◌}
use fcd.Expr.Defs.{Expression, address}
use fcd.Expr.Equality.{equals}
use fcd.Expr.Negate.{Constants, negate, count_negation_depth}
use fcd.Combine.Tree.{
  ConditionPosition, pre_tested, post_tested, Statement, Statements, expr, keyword, if_else, loop,
  nil, cons, append, size,
}
use fcd.Combine.Outcome.{Pass, finished, ◌>>=◌, pure, out_of_fuel, ask}

abbrev pub is_logically_same : Expression → Expression → Option Bool
is_logically_same a b = equals a b

abbrev pub same_flag : Bool → Bool → Bool
same_flag true b = b
same_flag false true = false
same_flag false false = true

-- `aInfo.second != bInfo.second && *aInfo.first == *bInfo.first`
unfoldable pub is_logically_opposite : Expression → Expression → Option Bool
is_logically_opposite a b =
    let a_info = count_negation_depth a in
    let b_info = count_negation_depth b in
    if same_flag a_info.is_negated b_info.is_negated
    then some false
    else equals a_info.canonical b_info.canonical

-- `lastIfElse`: the last statement so far, when it is an if-else statement
pub data Last : Type 0 where
  no_if_else : Last
  last_if_else : (condition : Expression) → (if_body else_body : Statements) → Last

abbrev pub last_statement : Last → Statements → Statements
last_statement no_if_else s = s
last_statement (last_if_else c a b) s = cons (if_else c a b) s

-- How the condition of this if-else statement stands to the last one's.
pub data Comparison : Type 0 where
  same opposite different : Comparison

abbrev pub opposite_or_different : Option Bool → Option Comparison
opposite_or_different none = none
opposite_or_different (some true) = some opposite
opposite_or_different (some false) = some different

abbrev pub same_or_else : Option Bool → Option Comparison → Option Comparison
same_or_else none m = none
same_or_else (some true) m = some same
same_or_else (some false) m = m

abbrev pub by_comparison : {A : Type 0} → A → A → A → Comparison → A
by_comparison if_same if_opposite if_different same = if_same
by_comparison if_same if_opposite if_different opposite = if_opposite
by_comparison if_same if_opposite if_different different = if_different

unfoldable pub compare_conditions : Expression → Expression → Option Comparison
unfolding is_logically_opposite
compare_conditions this last =
    same_or_else (is_logically_same this last)
      (opposite_or_different (is_logically_opposite this last))

abbrev pub is_constant : Expression → Expression → Bool
is_constant e k = address e == address k

-- The end of `visitIfElse`: both bodies are not empty, or only the first.
abbrev pub positive_form : Expression → Statements → Statements → Statement
positive_form condition if_body nil = if_else condition if_body nil
positive_form condition if_body else_body =
    let negation = count_negation_depth condition in
    if negation.is_negated
    then if_else negation.canonical else_body if_body
    else if_else condition if_body else_body

unfoldable pub without_constants :
    Constants → Expression → (if_body else_body : Statements) → Statements
without_constants c condition if_body else_body =
    if is_constant condition c.expression_for_true
    then if_body
    else if is_constant condition c.expression_for_false
    then else_body
    else cons (positive_form condition if_body else_body) nil

-- `visitIfElse`, from its combined bodies
unfoldable pub visit_if_else : Constants → Expression → Statements → Statements → Pass Statements
unfolding without_constants
visit_if_else c condition nil nil n = finished nil n
visit_if_else c condition nil (cons x s) n =
    finished (without_constants c (negate c n condition) (cons x s) nil) (n + 1)
visit_if_else c condition (cons x s) else_body n =
    finished (without_constants c condition (cons x s) else_body) n

-- `do { if (foo) { ... } } while (foo);` has become `while (foo) { ... }` where the test says so.
abbrev pub pre_test_if : Expression → Expression → Statements → Bool → Statement
pre_test_if condition inner if_body true = loop condition pre_tested if_body
pre_test_if condition inner if_body false =
    loop condition post_tested (cons (if_else inner if_body nil) nil)

-- `visitLoop`, from its combined body
unfoldable pub visit_loop : Expression → ConditionPosition → Statements → Pass Statements
visit_loop condition post_tested (cons (if_else inner if_body nil) nil) = do
  test ← ask (equals inner condition)
  pure (cons (pre_test_if condition inner if_body test) nil)
visit_loop condition position loop_body = pure (cons (loop condition position loop_body) nil)

-- The functions below call `optimizeSequence` on lists that they have put together; `again` is
-- that call.
module _ (c : Constants) (again : Statements → Pass Statements) where
  -- the loop of `optimizeSequence`: what becomes of the last if-else statement and the rest
  unfoldable pub combine_list : Last → Statements → Pass Statements
  combine_list last nil = pure (last_statement last nil)
  combine_list (last_if_else d x y) (cons (if_else e a b) list) =
      let merged = λ (if_list else_list : Statements). (do
        if_body ← again if_list
        else_body ← again else_list
        combine_list (last_if_else d if_body else_body) list) in
      let apart = (do
        rest ← combine_list (last_if_else e a b) list
        pure (cons (if_else d x y) rest)) in
      ask (compare_conditions e d)
      >>= by_comparison (merged (append x a) (append y b)) (merged (append x b) (append y a)) apart
  combine_list no_if_else (cons (if_else e a b) list) = combine_list (last_if_else e a b) list
  combine_list last (cons stmt list) = do
    rest ← combine_list no_if_else list
    pure (last_statement last (cons stmt rest))

  unfoldable pub visit : Statement → Pass Statements
  unfolding visit_if_else visit_loop
  visit (expr e) = pure (cons (expr e) nil)
  visit (keyword n o) = pure (cons (keyword n o) nil)
  visit (if_else d a b) = do
    if_body ← again a
    else_body ← again b
    visit_if_else c d if_body else_body
  visit (loop d p b) = do loop_body ← again b; visit_loop d p loop_body

  unfoldable pub visit_all : Statements → Pass Statements
  unfolding visit
  visit_all nil = pure nil
  visit_all (cons stmt list) = do
    visited ← visit stmt
    rest ← visit_all list
    pure (append visited rest)

-- Each call of itself takes one of the fuel.
unfoldable pub optimize_sequence : Constants → (fuel : ℕ) → Statements → Pass Statements
unfolding combine_list visit_all
optimize_sequence c zero list = out_of_fuel
optimize_sequence c (suc f) list = do
  new_sequence ← combine_list c (optimize_sequence c f) no_if_else list
  visit_all c (optimize_sequence c f) new_sequence

-- `doRun`, on the body of a function. The fuel is enough for it.
unfoldable pub run_consecutive_combiner : Constants → (body : Statements) → Pass Statements
unfolding optimize_sequence size
run_consecutive_combiner c body = optimize_sequence c (suc (size body)) body

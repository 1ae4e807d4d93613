-- ===== src/Print/Statements.antt =====
-- The statements of fcd/ast/print.cpp, printed without tokens into the items of a scope. Each
-- function gives the items that it appends to the current scope.
use Prim.Native.String.{String, ◌++◌}
use fcd.Base.{ℕ, Option, none, some}
use fcd.Types.Defs.{ExpressionType}
use fcd.Expr.Defs.{Expression}
use fcd.Combine.Tree.{
  ConditionPosition, pre_tested, post_tested, Statement, Statements, expr, keyword, if_else, loop,
  nil, cons,
}
use fcd.Printed.Defs.{
  PrintableItem, PrintableItems, line, scope, scope_of, nil as no_item, cons as item, print_scope,
}
use fcd.Print.Expressions.{◌>>=◌, visit}

abbrev pub append_items : PrintableItems → PrintableItems → PrintableItems
append_items no_item js = js
append_items (item i is) js = item i (append_items is js)

-- a scope that opens with a line
abbrev pub opened : String → PrintableItems → PrintableItem
opened prefix items = scope (scope_of prefix "" no_item items)

abbrev pub only : PrintableItem → PrintableItems
only i = item i no_item

abbrev pub if_prefix : (lead condition : String) → String
if_prefix lead condition = lead ++ "if (" ++ condition ++ ")"

abbrev pub loop_item : ConditionPosition → (condition : String) → PrintableItems → PrintableItem
loop_item pre_tested condition items = opened ("while (" ++ condition ++ ")") items
loop_item post_tested condition items =
    scope (scope_of "do" ("while (" ++ condition ++ ");") no_item items)

abbrev pub keyword_line : String → Option String → String
keyword_line name none = name ++ ";"
keyword_line name (some operand) = name ++ " " ++ operand ++ ";"

module _ (type_at : ℕ → ExpressionType) (show show_hex show_pointer : ℕ → String) where
  -- an expression that stands in no other
  abbrev pub visit_outer : Expression → Option String
  visit_outer e = visit type_at show show_hex show_pointer none e

  -- the operand of a keyword, which may be null
  abbrev pub visit_operand : Option Expression → Option (Option String)
  visit_operand none = some none
  visit_operand (some e) = do text ← visit_outer e; some (some text)

  unfoldable mutual
    unfolding visit

    pub visit_statement : Statement → Option PrintableItems
    visit_statement (expr e) = do text ← visit_outer e; some (only (line (text ++ ";")))
    visit_statement (keyword name operand) = do
      text ← visit_operand operand
      some (only (line (keyword_line name text)))
    visit_statement (if_else c a b) = do
      condition ← visit_outer c
      body ← visit_statements a
      rest ← visit_else b
      some (item (opened (if_prefix "" condition) body) rest)
    visit_statement (loop c p b) = do
      condition ← visit_outer c
      body ← visit_statements b
      some (only (loop_item p condition body))

    -- the else body of a round of the loop of `visitIfElse`, and the rest of the chain
    pub visit_else : Statements → Option PrintableItems
    visit_else nil = some no_item
    visit_else (cons (if_else c a b) nil) = do
      condition ← visit_outer c
      body ← visit_statements a
      rest ← visit_else b
      some (item (opened (if_prefix "else " condition) body) rest)
    visit_else (cons x s) = do
      items ← visit_statement x
      rest ← visit_statements s
      some (only (opened "else " (append_items items rest)))

    -- `visitAll`
    pub visit_statements : Statements → Option PrintableItems
    visit_statements nil = some no_item
    visit_statements (cons x s) = do
      items ← visit_statement x
      rest ← visit_statements s
      some (append_items items rest)

  -- `StatementPrintVisitor::print` of a list of statements
  unfoldable pub print_statements : Statements → Option String
  unfolding visit_statements print_scope
  print_statements s = do
    items ← visit_statements s
    some (print_scope (scope_of "" "" no_item items) 0)

  -- `StatementPrintVisitor::print` of an expression
  unfoldable pub print_expression : Expression → Option String
  print_expression e = do text ← visit_outer e; some (text ++ "\n")

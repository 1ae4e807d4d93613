-- ===== src/Print/Syntax.antt =====
-- C's grammar of statements, as ISO C has it in 6.8, with every body in braces: which lines and
-- scopes are the text of which statements. `Word` says which texts are keywords.
use Prim.Native.String.{String, ◌++◌}
use fcd.Base.{ℕ, none, some}
use fcd.Types.Defs.{ExpressionType}
use fcd.Expr.Defs.{Expression}
use fcd.Combine.Tree.{
  pre_tested, post_tested, Statement, Statements, expr, keyword, if_else, loop, nil, cons,
}
use fcd.Printed.Defs.{PrintableItems, line, scope, scope_of, nil as no_item, cons as item}
use fcd.Print.Levels.{InLevel}

module _ (Atom : Expression → String → Type 0) (Name Word : String → Type 0)
    (type_at : ℕ → ExpressionType) (show : ℕ → String) where
  -- an expression as a whole
  abbrev pub Writes : Expression → String → Type 0
  Writes e text = InLevel Atom Name type_at show 13 e text

  -- The grammar: which items are the text of which statements. `AfterIf` is what stands behind the
  -- body of an if statement: the text of its else body and of the statements that follow.
  mutual
    pub data IsCode : Statements → PrintableItems → Type 0 where
      nothing : IsCode nil no_item
      expression_line :
          (e : Expression) (text : String) (s : Statements) (is : PrintableItems)
          → Writes e text
          → IsCode s is
          → IsCode (cons (expr e) s) (item (line (text ++ ";")) is)
      keyword_alone :
          (name : String) (s : Statements) (is : PrintableItems)
          → Word name
          → IsCode s is
          → IsCode (cons (keyword name none) s) (item (line (name ++ ";")) is)
      keyword_with :
          (name : String) (e : Expression) (text : String) (s : Statements) (is : PrintableItems)
          → Word name
          → Writes e text
          → IsCode s is
          → IsCode (cons (keyword name (some e)) s) (item (line (name ++ " " ++ text ++ ";")) is)
      while_loop :
          (c : Expression) (text : String) (b s : Statements) (body is : PrintableItems)
          → Writes c text
          → IsCode b body
          → IsCode s is
          → IsCode
              (cons (loop c pre_tested b) s)
              (item (scope (scope_of ("while (" ++ text ++ ")") "" no_item body)) is)
      do_loop :
          (c : Expression) (text : String) (b s : Statements) (body is : PrintableItems)
          → Writes c text
          → IsCode b body
          → IsCode s is
          → IsCode
              (cons (loop c post_tested b) s)
              (item (scope (scope_of "do" ("while (" ++ text ++ ");") no_item body)) is)
      if_statement :
          (c : Expression) (text : String) (a b s : Statements) (body rest : PrintableItems)
          → Writes c text
          → IsCode a body
          → AfterIf b s rest
          → IsCode
              (cons (if_else c a b) s)
              (item (scope (scope_of ("if (" ++ text ++ ")") "" no_item body)) rest)

    pub data AfterIf : (else_body after : Statements) → PrintableItems → Type 0 where
      no_else : (s : Statements) (is : PrintableItems) → IsCode s is → AfterIf nil s is
      else_if :
          (c : Expression) (text : String) (a b s : Statements) (body rest : PrintableItems)
          → Writes c text
          → IsCode a body
          → AfterIf b s rest
          → AfterIf
              (cons (if_else c a b) nil)
              s
              (item (scope (scope_of ("else if (" ++ text ++ ")") "" no_item body)) rest)
      else_statements :
          (x : Statement) (t s : Statements) (body is : PrintableItems)
          → IsCode (cons x t) body
          → IsCode s is
          → AfterIf (cons x t) s (item (scope (scope_of "else " "" no_item body)) is)

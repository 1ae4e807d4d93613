-- ===== src/Print/Code.antt =====
-- Printed statements are in C's grammar of statements.
use Prim.Native.String.{String, ◌++◌}
use text.Mathlib.TextLemmas.{nil-append, append_assoc}
use fcd.Base.{ℕ, ◌≡◌, sym, subst, Option, none, some}
use fcd.Types.Defs.{ExpressionType}
use fcd.Expr.Defs.{Expression}
use fcd.Combine.Tree.{
  ConditionPosition, pre_tested, post_tested, Statement, Statements, expr, keyword, if_else, loop,
  nil, cons,
}
use fcd.Printed.Defs.{PrintableItems, nil as no_item, cons as item}
use fcd.Print.Printable.{Prints, printed, Prints-bind, gives, IsPrintable}
use fcd.Print.Grammar.{visit-InLevel}
use fcd.Print.Statements.{
  append_items, opened, only, if_prefix, loop_item, visit_outer, visit_statement, visit_else,
  visit_statements,
}
use fcd.Print.Syntax.{
  Writes, IsCode, nothing, expression_line, keyword_alone, keyword_with, while_loop, do_loop,
  if_statement, AfterIf, no_else, else_if, else_statements,
}

if_text : (c : String) → if_prefix "" c ≡ "if (" ++ c ++ ")"
if_text c = nil-append ("if (" ++ c ++ ")")

else_if_text : (c : String) → if_prefix "else " c ≡ "else if (" ++ c ++ ")"
else_if_text c = sym (append_assoc "else " "if (" (c ++ ")"))

module _ (Atom : Expression → String → Type 0) (Name Word : String → Type 0)
    (type_at : ℕ → ExpressionType) (show show_hex show_pointer : ℕ → String) where
  abbrev Text : Expression → String → Type 0
  Text e text = Writes Atom Name Word type_at show e text

  abbrev Code : Statements → PrintableItems → Type 0
  Code s is = IsCode Atom Name Word type_at show s is

  abbrev After : (else_body after : Statements) → PrintableItems → Type 0
  After b s is = AfterIf Atom Name Word type_at show b s is

  -- Items that are the text of a statement wherever it stands, and those of an else body
  abbrev CodeOf : Statement → PrintableItems → Type 0
  CodeOf x items =
      (s : Statements) (is : PrintableItems) → Code s is → Code (cons x s) (append_items items is)

  abbrev ElseOf : Statements → PrintableItems → Type 0
  ElseOf b items =
      (s : Statements) (is : PrintableItems) → Code s is → After b s (append_items items is)

  -- Every expression in the statements is printable, and every keyword is a word.
  abbrev pub Operand : Option Expression → Type 0
  Operand none = Unit
  Operand (some e) = IsPrintable Atom Name type_at show show_hex show_pointer none e

  abbrev mutual
    pub ArePrintableStatements : Statements → Type 0
    ArePrintableStatements nil = Unit
    ArePrintableStatements (cons x s) = IsPrintableStatement x × ArePrintableStatements s

    pub IsPrintableStatement : Statement → Type 0
    IsPrintableStatement (expr e) = IsPrintable Atom Name type_at show show_hex show_pointer none e
    IsPrintableStatement (keyword n o) = Word n × Operand o
    IsPrintableStatement (if_else c a b) =
        IsPrintable Atom Name type_at show show_hex show_pointer none c
        × ArePrintableStatements a
        × ArePrintableStatements b
    IsPrintableStatement (loop c p b) =
        IsPrintable Atom Name type_at show show_hex show_pointer none c × ArePrintableStatements b

  visit_outer-Prints :
      (e : Expression)
      → IsPrintable Atom Name type_at show show_hex show_pointer none e
      → Prints (Text e) (visit_outer type_at show show_hex show_pointer e)
  visit_outer-Prints e h =
      let (text, found, l) = visit-InLevel Atom Name type_at show show_hex show_pointer none e h in
      rw found (printed l)

  CodeOf-loop_item :
      (p : ConditionPosition) (c : Expression) (text : String) (b : Statements)
      (body : PrintableItems)
      → Text c text
      → Code b body
      → CodeOf (loop c p b) (only (loop_item p text body))
  CodeOf-loop_item pre_tested c text b body l h = λ s is k. while_loop c text b s body is l h k
  CodeOf-loop_item post_tested c text b body l h = λ s is k. do_loop c text b s body is l h k

  CodeOf-if :
      (c : Expression) (text : String) (a b : Statements) (body rest : PrintableItems)
      → Text c text
      → Code a body
      → ElseOf b rest
      → CodeOf (if_else c a b) (item (opened (if_prefix "" text) body) rest)
  CodeOf-if c text a b body rest l h e = λ s is k.
      subst
        (λ (u : String).
          Code (cons (if_else c a b) s) (item (opened u body) (append_items rest is)))
        (sym (if_text text)) (if_statement c text a b s body _ l h (e s is k))

  ElseOf-if :
      (c : Expression) (text : String) (a b : Statements) (body rest : PrintableItems)
      → Text c text
      → Code a body
      → ElseOf b rest
      → ElseOf (cons (if_else c a b) nil) (item (opened (if_prefix "else " text) body) rest)
  ElseOf-if c text a b body rest l h e = λ s is k.
      subst
        (λ (u : String).
          After (cons (if_else c a b) nil) s (item (opened u body) (append_items rest is)))
        (sym (else_if_text text)) (else_if c text a b s body _ l h (e s is k))

  mutual
    unfolding visit_statement

    visit_statement-Prints :
        (x : Statement)
        → IsPrintableStatement x
        → Prints (CodeOf x) (visit_statement type_at show show_hex show_pointer x)
    visit_statement-Prints (expr e) h =
        Prints-bind _ _ (visit_outer-Prints e h)
          λ text l. printed (λ s is k. expression_line e text s is l k)
    visit_statement-Prints (keyword n none) h = printed (λ s is k. keyword_alone n s is h.0 k)
    visit_statement-Prints (keyword n (some e)) h =
        let (text, found, l) = gives _ (visit_outer-Prints e h.1) in
        rw found (printed (λ s is k. keyword_with n e text s is h.0 l k))
    visit_statement-Prints (if_else c a b) h = Prints-bind _ _ (visit_outer-Prints c h.0) λ text l.
        Prints-bind _ _ (visit_statements-Prints a h.1) λ body ka.
          Prints-bind _ _ (visit_else-Prints b h.2)
            λ rest kb. printed (CodeOf-if c text a b body rest l ka kb)
    visit_statement-Prints (loop c p b) h = Prints-bind _ _ (visit_outer-Prints c h.0) λ text l.
        Prints-bind _ _ (visit_statements-Prints b h.1)
          λ body kb. printed (CodeOf-loop_item p c text b body l kb)

    visit_else-Prints :
        (s : Statements)
        → ArePrintableStatements s
        → Prints (ElseOf s) (visit_else type_at show show_hex show_pointer s)
    visit_else-Prints nil h = printed (λ s is k. no_else s is k)
    visit_else-Prints (cons (if_else c a b) nil) h =
        Prints-bind _ _ (visit_outer-Prints c h.0.0) λ text l.
          Prints-bind _ _ (visit_statements-Prints a h.0.1) λ body ka.
            Prints-bind _ _ (visit_else-Prints b h.0.2)
              λ rest kb. printed (ElseOf-if c text a b body rest l ka kb)
    visit_else-Prints (cons x t) h = Prints-bind _ _ (visit_statement-Prints x h.0) λ items k.
        Prints-bind _ _ (visit_statements-Prints t h.1)
          λ rest j. printed (λ s is i. else_statements x t s _ is (k t rest j) i)

    visit_statements-Prints :
        (s : Statements)
        → ArePrintableStatements s
        → Prints (Code s) (visit_statements type_at show show_hex show_pointer s)
    visit_statements-Prints nil h = printed nothing
    visit_statements-Prints (cons x s) h =
        Prints-bind _ _ (visit_statement-Prints x h.0)
          λ items k. Prints-bind _ _ (visit_statements-Prints s h.1) λ rest j. printed (k s rest j)

-- ===== src/Print/Grammar.antt =====
-- What the printer gives for an expression is in C's grammar.
use Prim.Native.String.{String, ◌++◌}
use text.Mathlib.TextLemmas.{nil-append}
use fcd.Base.{ℕ, ◌≤◌, ◌≡◌, ◌≢◌, refl, ap, subst, Option, none, some, arith}
use fcd.Types.Defs.{ExpressionType, Fields, structure}
use fcd.Types.Printer.{declare}
use fcd.Types.Declarator.{declare-Declares}
use fcd.Expr.Defs.{
  UnaryOperator, increment, decrement, address_of, dereference, arithmetic_negate, logical_negate,
  binary_negate, NAryOperator, Kind, unary, nary, aggregate, Expression, Operands, node, nil, cons,
}
use fcd.Print.Operators.{nary_precedence, nary_name, printed_name, printed_precedence}
use fcd.Print.Expressions.{
  fields_of, with_parentheses, visit, visit_rest, visit_arguments, visit_items,
}
use fcd.Print.Symbols.{nary_precedence-BinaryOperator}
use fcd.Print.Levels.{
  ampersand, asterisk, minus_sign, exclamation_mark, tilde, InLevel, atom, braced, weaker, member,
  pointed, subscripted, called, prefixed, converted, operated, chosen, Operated, no_more, one_more,
  AreItems, no_items, last_item, next_item, no_label,
}
use fcd.Print.Printable.{
  Prints, printed, Prints-bind, Prints-some, gives, level, level-bounds, At,
  cast_annotation-Extension, with_parentheses-InLevel, IsPrintable, prints_unary, prints_nary,
  prints_member, prints_pointed, prints_ternary, prints_number, prints_token, prints_call,
  prints_cast, prints_aggregate, prints_subscript, prints_assembly, prints_variable, ArePrintable,
  none_left, one_more as one_more_printable, AreArguments, no_arguments, one_argument,
}

nary_precedence-positive : (op : NAryOperator) → 1 ≤ nary_precedence op
nary_precedence-positive op = ground arith

fields_of-structure :
    (t : ExpressionType) (fields : Fields) (tag : String)
    → t ≡ structure fields tag
    → fields_of t ≡ some fields
fields_of-structure t fields tag h = ap fields_of h

module _ (Atom : Expression → String → Type 0) (Name : String → Type 0)
    (type_at : ℕ → ExpressionType) (show show_hex show_pointer : ℕ → String) where
  abbrev PrintsAt : Expression → String → Type 0
  PrintsAt e text = At Atom Name type_at show show_hex show_pointer e text

  operand-InLevel :
      (precedence : ℕ) (e : Expression) (text : String)
      → 1 ≤ precedence
      → PrintsAt e text
      → InLevel Atom Name type_at show precedence e (with_parentheses precedence e text)
  operand-InLevel precedence e text h l =
      with_parentheses-InLevel Atom Name type_at show show_hex show_pointer precedence e text h l

  as_prefix :
      (p : ℕ) (op : UnaryOperator) (e : Expression) (value : String)
      → op ≢ increment
      → op ≢ decrement
      → PrintsAt e value
      → PrintsAt
          (node p (unary op) (cons e nil))
          (printed_name op ++ with_parentheses (printed_precedence op) e value)
  as_prefix p increment e value h k l = absurd (h refl)
  as_prefix p decrement e value h k l = absurd (k refl)
  as_prefix p address_of e value h k l =
      prefixed p _ _ e _ ampersand (operand-InLevel 2 e value (omega arith) l)
  as_prefix p dereference e value h k l =
      prefixed p _ _ e _ asterisk (operand-InLevel 2 e value (omega arith) l)
  as_prefix p arithmetic_negate e value h k l =
      prefixed p _ _ e _ minus_sign (operand-InLevel 2 e value (omega arith) l)
  as_prefix p logical_negate e value h k l =
      prefixed p _ _ e _ exclamation_mark (operand-InLevel 2 e value (omega arith) l)
  as_prefix p binary_negate e value h k l =
      prefixed p _ _ e _ tilde (operand-InLevel 2 e value (omega arith) l)

  -- as an operand in parentheses, brackets or between commas
  pub as_item :
      (e : Expression) (text : String) → PrintsAt e text → InLevel Atom Name type_at show 13 e text
  as_item e text l = weaker (level e) 13 e text (level-bounds e) l

  unlabelled :
      (es : Operands) (items : String)
      → AreItems Atom Name type_at show es ("" ++ items)
      → AreItems Atom Name type_at show es items
  unlabelled es items h = subst (AreItems Atom Name type_at show es) (nil-append items) h

  Prints-item :
      (e : Expression) (o : Option String)
      → Prints (PrintsAt e) o
      → Prints (AreItems Atom Name type_at show (cons e nil)) o
  Prints-item e (some value) (printed l) =
      printed (unlabelled (cons e nil) value (last_item "" value e no_label (as_item e value l)))
  Prints-item e none h = elim h [ ]

  mutual
    unfolding visit declare

    pub visit-Prints :
        (parent : Option Kind) (e : Expression)
        → IsPrintable Atom Name type_at show show_hex show_pointer parent e
        → Prints (PrintsAt e) (visit type_at show show_hex show_pointer parent e)
    visit-Prints parent e (prints_unary p op d h k q) =
        Prints-bind _ _ (visit-Prints (some (unary op)) d q)
          λ value l. printed (as_prefix p op d value h k l)
    visit-Prints parent e (prints_nary p op d es q qs) =
        Prints-bind _ _ (visit-Prints (some (nary op)) d q) λ value l.
          Prints-bind _ _ (visit_rest-Prints op es qs) λ rest k. printed (
            operated p _ op _ d es _ rest (nary_precedence-BinaryOperator op)
              (operand-InLevel (nary_precedence op) d value (nary_precedence-positive op) l) k)
    visit-Prints parent e (prints_member p s i d fields tag field q f g a) =
        Prints-bind _ _ (visit-Prints _ d q) λ value l.
          Prints-some _ _ _ (fields_of-structure _ fields tag f) (
            Prints-some _ _ _ g (
              printed (
                member p s i d _ fields tag field (operand-InLevel 1 d value (omega arith) l) f g
                  a)))
    visit-Prints parent e (prints_pointed p s i d fields tag field q f g a) =
        Prints-bind _ _ (visit-Prints _ d q) λ value l.
          Prints-some _ _ _ (fields_of-structure _ fields tag f) (
            Prints-some _ _ _ g (
              printed (
                pointed p s i d _ fields tag field (operand-InLevel 1 d value (omega arith) l) f g
                  a)))
    visit-Prints parent e (prints_ternary p a b d qa qb qd) =
        Prints-bind _ _ (visit-Prints _ a qa) λ x la. Prints-bind _ _ (visit-Prints _ b qb) λ y lb.
          Prints-bind _ _ (visit-Prints _ d qd) λ z ld. printed (
            chosen p a b d _ _ _ (operand-InLevel 13 a x (omega arith) la)
              (operand-InLevel 13 b y (omega arith) lb) (operand-InLevel 13 d z (omega arith) ld))
    visit-Prints parent e (prints_number p t n a) = printed (atom _ _ a)
    visit-Prints parent e (prints_token p t text h a) = rw h (printed (atom _ text a))
    visit-Prints parent e (prints_call p d es t parameters q f g qs) =
        Prints-bind _ _ (visit-Prints _ d q) λ value l. Prints-some _ _ _ f (
          Prints-some _ _ _ g (
            Prints-bind _ _ (visit_arguments-Prints parameters 0 es qs) λ arguments k.
              printed (called p d es _ arguments (operand-InLevel 1 d value (omega arith) l) k)))
    visit-Prints parent e (prints_cast p t d extends q f a) =
        Prints-bind _ _ (visit-Prints _ d q) λ value l. Prints-some _ _ _ f (
          printed (
            converted p t extends _ d _ (cast_annotation-Extension (type_at t) _ extends f)
              (declare-Declares show (type_at t) "" a) (operand-InLevel 2 d value (omega arith) l)))
    visit-Prints parent e (prints_aggregate p t es qs) =
        Prints-bind _ _ (visit_items-Prints t es qs) λ items k. printed (braced p t es items k)
    visit-Prints parent e (prints_subscript p d i q qi) =
        Prints-bind _ _ (visit-Prints _ i qi) λ index k.
          Prints-bind _ _ (visit-Prints _ d q) λ value l. printed (
            subscripted p d i _ index (operand-InLevel 1 d value (omega arith) l)
              (as_item i index k))
    visit-Prints parent e (prints_assembly p t text a) = printed (atom _ _ a)
    visit-Prints parent e (prints_variable p t prefix b a) = printed (atom _ _ a)

    visit_rest-Prints :
        (op : NAryOperator) (es : Operands)
        → ArePrintable Atom Name type_at show show_hex show_pointer (nary op) es
        → Prints
            (Operated Atom Name type_at show (nary_precedence op) (nary_name op) es)
            (visit_rest type_at show show_hex show_pointer op es)
    visit_rest-Prints op nil none_left = printed (no_more _ _)
    visit_rest-Prints op (cons e es) (one_more_printable _ _ q qs) =
        Prints-bind _ _ (visit-Prints _ e q) λ value l.
          Prints-bind _ _ (visit_rest-Prints op es qs) λ rest k. printed (
            one_more _ _ e es _ rest
              (operand-InLevel (nary_precedence op) e value (nary_precedence-positive op) l) k)

    visit_arguments-Prints :
        (parameters : Fields) (i : ℕ) (es : Operands)
        → AreArguments Atom Name type_at show show_hex show_pointer parameters i es
        → Prints
            (AreItems Atom Name type_at show es)
            (visit_arguments type_at show show_hex show_pointer parameters i es)
    visit_arguments-Prints parameters i nil no_arguments = printed no_items
    visit_arguments-Prints parameters i (cons e nil) (one_argument _ _ parameter f a q qs) =
        Prints-some _ _ _ f (
          Prints-bind _ _ (visit-Prints _ e q)
            λ value l. printed (last_item _ value e a (as_item e value l)))
    visit_arguments-Prints parameters i (cons e (cons d es)) (one_argument _ _ parameter f a q qs) =
        Prints-some _ _ _ f (
          Prints-bind _ _ (visit-Prints _ e q) λ value l.
            Prints-bind _ _ (visit_arguments-Prints parameters _ (cons d es) qs)
              λ rest k. printed (next_item _ value rest e d es a (as_item e value l) k))

    visit_items-Prints :
        (t : ℕ) (es : Operands)
        → ArePrintable Atom Name type_at show show_hex show_pointer (aggregate t) es
        → Prints
            (AreItems Atom Name type_at show es)
            (visit_items type_at show show_hex show_pointer t es)
    visit_items-Prints t nil none_left = printed no_items
    visit_items-Prints t (cons e nil) (one_more_printable _ _ q qs) =
        Prints-item e _ (visit-Prints _ e q)
    visit_items-Prints t (cons e (cons d es)) (one_more_printable _ _ q qs) =
        Prints-bind _ _ (visit-Prints _ e q) λ value l.
          Prints-bind _ _ (visit_items-Prints t (cons d es) qs) λ rest k.
            printed (unlabelled _ _ (next_item "" value rest e d es no_label (as_item e value l) k))

  pub visit-InLevel :
      (parent : Option Kind) (e : Expression)
      → IsPrintable Atom Name type_at show show_hex show_pointer parent e
      → (text : String) × (visit type_at show show_hex show_pointer parent e ≡ some text)
        × InLevel Atom Name type_at show 13 e text
  visit-InLevel parent e h =
      let (text, found, l) = gives _ (visit-Prints parent e h) in (text, found, as_item e text l)

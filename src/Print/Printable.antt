-- ===== src/Print/Printable.antt =====
-- The expressions that `StatementPrintVisitor` can print, and that print in C's grammar.
use Prim.Native.String.{String}
use fcd.Base.{
  ℕ, ◌≤◌, ◌≡◌, ◌≢◌, refl, subst, inl, inr, Bool, Bool-cases, true, false, Option, none, some, arith,
  ltb, if◌then◌else◌,
}
use fcd.Types.Defs.{ExpressionType, Fields, integer, structure, get_field}
use fcd.Types.Printer.{is_empty}
use fcd.Types.Apart.{TagsApart}
use fcd.Expr.Defs.{
  UnaryOperator, increment, decrement, NAryOperator, Kind, token, unary, nary, member_access,
  pointer_access, call, cast, numeric, ternary, aggregate, subscript, assembly, assignable,
  Expression, Operands, node, nil, cons,
}
use fcd.Expr.TypeOf.{get_expression_type}
use fcd.Print.Operators.{unary_precedence, nary_precedence, needs_parentheses}
use fcd.Print.Expressions.{
  ◌>>=◌, with_parentheses, annotation, cast_annotation, parameters_of, name_prefix, next_index,
  number_text, assembly_text, variable_text,
}
use fcd.Print.Levels.{
  InLevel, parenthesized, weaker, Extension, no_extension, sign_extension, zero_extension, Label,
}

-- The printer gives a result, and `P` holds of it.
pub data Prints {A : Type 0} (P : A → Type 0) : Option A → Type 0 where
  printed : {a : A} → P a → Prints P (some a)

pub Prints-bind :
    {A B : Type 0} {P : A → Type 0} {Q : B → Type 0} (o : Option A) (f : A → Option B)
    → Prints P o
    → ((a : A) → P a → Prints Q (f a))
    → Prints Q (o >>= f)
Prints-bind none f h g = elim h [ ]
Prints-bind (some a) f (printed h) g = g a h

pub Prints-some :
    {A B : Type 0} {Q : B → Type 0} (o : Option A) (a : A) (f : A → Option B)
    → o ≡ some a
    → Prints Q (f a)
    → Prints Q (o >>= f)
Prints-some o a f e h = rw e h

pub gives : {A : Type 0} {P : A → Type 0} (o : Option A) → Prints P o → (a : A) × (o ≡ some a) × P a
gives none h = elim h [ ]
gives (some a) (printed h) = (a, refl, h)

-- How tightly the printed expression binds.
abbrev pub level : Expression → ℕ
level (node p (unary op) es) = unary_precedence op
level (node p (nary op) es) = nary_precedence op
level (node p (member_access s i) es) = 1
level (node p (pointer_access s i) es) = 1
level (node p call es) = 1
level (node p subscript es) = 1
level (node p (cast t) es) = 2
level (node p ternary es) = 13
level e = 0

nary_precedence-bounds : (op : NAryOperator) → nary_precedence op ≤ 13
nary_precedence-bounds op = ground arith

pub level-bounds : (e : Expression) → level e ≤ 13
level-bounds (node p (nary op) es) = nary_precedence-bounds op
level-bounds (node p (unary op) es) = ground arith
level-bounds (node p k es) = ground arith

level-needs_parentheses :
    (precedence : ℕ) (e : Expression)
    → 1 ≤ precedence
    → needs_parentheses precedence e ≡ false
    → level e ≤ precedence
level-needs_parentheses precedence (node p (nary op) es) h q = ground arith
level-needs_parentheses precedence (node p (unary op) es) h q = ground arith
level-needs_parentheses precedence (node p k es) h q = ground arith

extends_by : (a b : String) → Extension a → some a ≡ some b → Extension b
extends_by a b h q = subst Extension (cc) h

signed-Extension : (s : Bool) → Extension (if s then "__sext " else "__zext ")
signed-Extension true = sign_extension
signed-Extension false = zero_extension

wider-Extension : (s b : Bool) → Extension (if b then (if s then "__sext " else "__zext ") else "")
wider-Extension s true = signed-Extension s
wider-Extension s false = no_extension

annotation-Extension : (s : Bool) (n : ℕ) (t : ExpressionType) → Extension (annotation s n t)
annotation-Extension s n (integer s' n') = wider-Extension s (ltb n' n)
annotation-Extension s n t = no_extension

pub cast_annotation-Extension :
    (t : ExpressionType) (o : Option ExpressionType) (extends : String)
    → cast_annotation t o ≡ some extends
    → Extension extends
cast_annotation-Extension (integer s n) none extends h = cc
cast_annotation-Extension (integer s n) (some t) extends h =
    extends_by (annotation s n t) extends (annotation-Extension s n t) h
cast_annotation-Extension t o extends h = extends_by "" extends no_extension h

module _ (Atom : Expression → String → Type 0) (Name : String → Type 0)
    (type_at : ℕ → ExpressionType) (show show_hex show_pointer : ℕ → String) where
  -- What the constructors and the types promise, and what the leaves print as. `++` and `--` are not
  -- made by the program. A cast is to a type that prints as a declaration.
  mutual
    pub data IsPrintable : Option Kind → Expression → Type 0 where
      prints_unary :
          {parent : Option Kind} (p : ℕ) (op : UnaryOperator) (e : Expression)
          → op ≢ increment
          → op ≢ decrement
          → IsPrintable (some (unary op)) e
          → IsPrintable parent (node p (unary op) (cons e nil))
      prints_nary :
          {parent : Option Kind} (p : ℕ) (op : NAryOperator) (e : Expression) (es : Operands)
          → IsPrintable (some (nary op)) e
          → ArePrintable (nary op) es
          → IsPrintable parent (node p (nary op) (cons e es))
      prints_member :
          {parent : Option Kind} (p s i : ℕ) (e : Expression) (fields : Fields) (tag : String)
          (field : record { type : ExpressionType; name : String })
          → IsPrintable (some (member_access s i)) e
          → type_at s ≡ structure fields tag
          → get_field fields i ≡ some field
          → Name field.name
          → IsPrintable parent (node p (member_access s i) (cons e nil))
      prints_pointed :
          {parent : Option Kind} (p s i : ℕ) (e : Expression) (fields : Fields) (tag : String)
          (field : record { type : ExpressionType; name : String })
          → IsPrintable (some (pointer_access s i)) e
          → type_at s ≡ structure fields tag
          → get_field fields i ≡ some field
          → Name field.name
          → IsPrintable parent (node p (pointer_access s i) (cons e nil))
      prints_ternary :
          {parent : Option Kind} (p : ℕ) (a b d : Expression)
          → IsPrintable (some ternary) a
          → IsPrintable (some ternary) b
          → IsPrintable (some ternary) d
          → IsPrintable parent (node p ternary (cons a (cons b (cons d nil))))
      prints_number :
          {parent : Option Kind} (p t n : ℕ)
          → Atom
              (node p (numeric t n) nil)
              (number_text type_at show show_hex show_pointer parent n)
          → IsPrintable parent (node p (numeric t n) nil)
      prints_token :
          {parent : Option Kind} (p t : ℕ) (text : String)
          → is_empty text ≡ false
          → Atom (node p (token t text) nil) text
          → IsPrintable parent (node p (token t text) nil)
      prints_call :
          {parent : Option Kind} (p : ℕ) (e : Expression) (es : Operands) (t : ExpressionType)
          (parameters : Fields)
          → IsPrintable (some call) e
          → get_expression_type type_at e ≡ some t
          → parameters_of t ≡ some parameters
          → AreArguments parameters 0 es
          → IsPrintable parent (node p call (cons e es))
      prints_cast :
          {parent : Option Kind} (p t : ℕ) (e : Expression) (extends : String)
          → IsPrintable (some (cast t)) e
          → cast_annotation (type_at t) (get_expression_type type_at e) ≡ some extends
          → TagsApart true (type_at t)
          → IsPrintable parent (node p (cast t) (cons e nil))
      prints_aggregate :
          {parent : Option Kind} (p t : ℕ) (es : Operands)
          → ArePrintable (aggregate t) es
          → IsPrintable parent (node p (aggregate t) es)
      prints_subscript :
          {parent : Option Kind} (p : ℕ) (e i : Expression)
          → IsPrintable (some subscript) e
          → IsPrintable (some subscript) i
          → IsPrintable parent (node p subscript (cons e (cons i nil)))
      prints_assembly :
          {parent : Option Kind} (p t : ℕ) (text : String)
          → Atom
              (node p (assembly t text) nil)
              (assembly_text type_at show show_hex show_pointer text)
          → IsPrintable parent (node p (assembly t text) nil)
      prints_variable :
          {parent : Option Kind} (p t : ℕ) (prefix : String) (a : Bool)
          → Atom
              (node p (assignable t prefix a) nil)
              (variable_text type_at show show_hex show_pointer prefix p)
          → IsPrintable parent (node p (assignable t prefix a) nil)

    pub data ArePrintable : Kind → Operands → Type 0 where
      none_left : {k : Kind} → ArePrintable k nil
      one_more :
          {k : Kind} (e : Expression) (es : Operands)
          → IsPrintable (some k) e
          → ArePrintable k es
          → ArePrintable k (cons e es)

    -- Every argument has a parameter at the index that the printer looks at.
    pub data AreArguments : Fields → ℕ → Operands → Type 0 where
      no_arguments : {parameters : Fields} {i : ℕ} → AreArguments parameters i nil
      one_argument :
          {parameters : Fields} {i : ℕ} (e : Expression) (es : Operands)
          (parameter : record { type : ExpressionType; name : String })
          → get_field parameters i ≡ some parameter
          → Label Atom Name type_at show (name_prefix parameter.name)
          → IsPrintable (some call) e
          → AreArguments parameters (next_index parameter.name i) es
          → AreArguments parameters i (cons e es)

  -- the printed text of an expression, at the level of its operator
  abbrev pub At : Expression → String → Type 0
  At e text = InLevel Atom Name type_at show (level e) e text

  -- Where the printer leaves the parentheses out, the operand binds tightly enough.
  pub with_parentheses-InLevel :
      (precedence : ℕ) (e : Expression) (text : String)
      → 1 ≤ precedence
      → At e text
      → InLevel Atom Name type_at show precedence e (with_parentheses precedence e text)
  with_parentheses-InLevel precedence e text h l =
      elim (Bool-cases (needs_parentheses precedence e)) [
        | inl q ↦ rw q (
            weaker 0 precedence e _ (omega arith)
              (parenthesized e text (weaker (level e) 13 e text (level-bounds e) l)))
        | inr q ↦
            rw q (weaker (level e) precedence e text (level-needs_parentheses precedence e h q) l)
      ]

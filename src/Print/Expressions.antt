-- ===== src/Print/Expressions.antt =====
-- The expressions of fcd/ast/print.cpp, printed without tokens. `show`, `show_hex` and
-- `show_pointer` are `raw_ostream`'s prints of an unsigned number, of its hexadecimal digits and of
-- an address. A failed cast, an index out of range and a missing operand are `none`.
use Prim.Native.String.{String, ◌++◌}
use fcd.Base.{ℕ, suc, ◌-◌, ◌^◌, Bool, true, false, ◌&&◌, Option, none, some, ltb, if◌then◌else◌}
use fcd.Types.Defs.{ExpressionType, Fields, integer, pointer, structure, function, get_field}
use fcd.Types.Printer.{is_empty, print}
use fcd.Expr.Defs.{
  NAryOperator, bitwise_and, bitwise_or, bitwise_xor, Kind, token, unary, nary, member_access,
  pointer_access, call, cast, numeric, ternary, aggregate, subscript, assembly, assignable,
  Expression, Operands, node, nil, cons,
}
use fcd.Expr.TypeOf.{get_expression_type}
use fcd.Print.Operators.{
  nary_name, nary_precedence, member_precedence, subscript_precedence, call_precedence,
  cast_precedence, ternary_precedence, printed_name, printed_precedence, needs_parentheses,
}

infixl 5 ◌>>=◌
abbrev pub ◌>>=◌ : {A B : Type 0} → Option A → (A → Option B) → Option B
none >>= f = none
some a >>= f = f a

-- `printWithParentheses`, from the text of the expression
abbrev pub with_parentheses : ℕ → Expression → String → String
with_parentheses precedence e text =
    if needs_parentheses precedence e then "(" ++ text ++ ")" else text

abbrev pub is_bitwise : NAryOperator → Bool
is_bitwise bitwise_and = true
is_bitwise bitwise_or = true
is_bitwise bitwise_xor = true
is_bitwise op = false

abbrev pub is_pointer : ExpressionType → Bool
is_pointer (pointer t) = true
is_pointer t = false

-- `int64_t` and `uint64_t` share their bytes.
abbrev pub show_signed : (ℕ → String) → ℕ → String
show_signed show n = if ltb n (2 ^ 63) then show n else "-" ++ show (2 ^ 64 - n)

-- Whether an integer type is wider than another one, and signed.
abbrev pub annotation : Bool → ℕ → ExpressionType → String
annotation s n (integer s' n') = if ltb n' n then (if s then "__sext " else "__zext ") else ""
annotation s n t = ""

-- The inner type is only asked for when the outer one is an integer type.
abbrev pub cast_annotation : ExpressionType → Option ExpressionType → Option String
cast_annotation (integer s n) none = none
cast_annotation (integer s n) (some t) = some (annotation s n t)
cast_annotation t inner = some ""

abbrev pub parameters_of : ExpressionType → Option Fields
parameters_of (pointer (function r ps)) = some ps
parameters_of t = none

abbrev pub fields_of : ExpressionType → Option Fields
fields_of (structure fs name) = some fs
fields_of t = none

-- the name of a parameter, printed ahead of its argument
abbrev pub name_prefix : String → String
name_prefix name = if is_empty name then "" else name ++ "="

abbrev pub next_index : String → ℕ → ℕ
next_index name i = if is_empty name then i else suc i

module _ (type_at : ℕ → ExpressionType) (show show_hex show_pointer : ℕ → String) where
  -- `visitNumeric`: `parent` is the kind of the expression around the number.
  abbrev pub formats_as_hex : (parent : Option Kind) → ℕ → Bool
  formats_as_hex (some (nary op)) n = ltb 9 n && is_bitwise op
  formats_as_hex (some (cast t)) n = is_pointer (type_at t)
  formats_as_hex parent n = false

  abbrev pub number_text : (parent : Option Kind) → ℕ → String
  number_text parent n = if formats_as_hex parent n then "0x" ++ show_hex n else show_signed show n

  abbrev pub assembly_text : String → String
  assembly_text text = "(__asm \"" ++ text ++ "\")"

  -- `visitAssignable`, which prints the variable's address
  abbrev pub variable_text : String → ℕ → String
  variable_text prefix p = "«" ++ prefix ++ ":" ++ show_pointer p ++ "»"

  unfoldable mutual
    unfolding get_expression_type

    pub visit : (parent : Option Kind) → Expression → Option String
    visit parent (node p (unary op) (cons e es)) = do
      value ← visit (some (unary op)) e
      some (printed_name op ++ with_parentheses (printed_precedence op) e value)
    visit parent (node p (nary op) (cons e es)) = do
      first ← visit (some (nary op)) e
      rest ← visit_rest op es
      some (with_parentheses (nary_precedence op) e first ++ rest)
    visit parent (node p (member_access s i) (cons e es)) = do
      base ← visit (some (member_access s i)) e
      fields ← fields_of (type_at s)
      field ← get_field fields i
      some (with_parentheses member_precedence e base ++ "." ++ field.name)
    visit parent (node p (pointer_access s i) (cons e es)) = do
      base ← visit (some (pointer_access s i)) e
      fields ← fields_of (type_at s)
      field ← get_field fields i
      some (with_parentheses member_precedence e base ++ "->" ++ field.name)
    visit parent (node p ternary (cons a (cons b (cons d es)))) = do
      condition ← visit (some ternary) a
      true_value ← visit (some ternary) b
      false_value ← visit (some ternary) d
      some (
          with_parentheses ternary_precedence a condition
          ++ " ? "
          ++ with_parentheses ternary_precedence b true_value
          ++ " : "
          ++ with_parentheses ternary_precedence d false_value)
    visit parent (node p (numeric t n) es) = some (number_text parent n)
    visit parent (node p (token t text) es) = if is_empty text then none else some text
    visit parent (node p call (cons e es)) = do
      callee ← visit (some call) e
      callee_type ← get_expression_type type_at e
      parameters ← parameters_of callee_type
      arguments ← visit_arguments parameters 0 es
      some (with_parentheses call_precedence e callee ++ "(" ++ arguments ++ ")")
    visit parent (node p (cast t) (cons e es)) = do
      value ← visit (some (cast t)) e
      extends ← cast_annotation (type_at t) (get_expression_type type_at e)
      some (
          "("
          ++ extends
          ++ print show (type_at t) ""
          ++ ")"
          ++ with_parentheses cast_precedence e value)
    visit parent (node p (aggregate t) es) = do items ← visit_items t es; some ("{" ++ items ++ "}")
    visit parent (node p subscript (cons e (cons i es))) = do
      index ← visit (some subscript) i
      base ← visit (some subscript) e
      some (with_parentheses subscript_precedence e base ++ "[" ++ index ++ "]")
    visit parent (node p (assembly t text) es) = some (assembly_text text)
    visit parent (node p (assignable t prefix a) es) = some (variable_text prefix p)
    visit parent e = none

    -- the operands after the first
    pub visit_rest : NAryOperator → Operands → Option String
    visit_rest op nil = some ""
    visit_rest op (cons e es) = do
      value ← visit (some (nary op)) e
      rest ← visit_rest op es
      some (" " ++ nary_name op ++ " " ++ with_parentheses (nary_precedence op) e value ++ rest)

    -- the arguments from the next one on; the index of the parameter goes on past those with a name
    pub visit_arguments : Fields → ℕ → Operands → Option String
    visit_arguments parameters i nil = some ""
    visit_arguments parameters i (cons e nil) = do
      parameter ← get_field parameters i
      value ← visit (some call) e
      some (name_prefix parameter.name ++ value)
    visit_arguments parameters i (cons e es) = do
      parameter ← get_field parameters i
      value ← visit (some call) e
      rest ← visit_arguments parameters (next_index parameter.name i) es
      some (name_prefix parameter.name ++ value ++ ", " ++ rest)

    pub visit_items : (type : ℕ) → Operands → Option String
    visit_items t nil = some ""
    visit_items t (cons e nil) = visit (some (aggregate t)) e
    visit_items t (cons e es) = do
      value ← visit (some (aggregate t)) e
      rest ← visit_items t es
      some (value ++ ", " ++ rest)

-- ===== src/Print/Tests.antt =====
-- Printed examples.
use Prim.Native.String.{String}
use fcd.Base.{◌≤◌, List, [], ◌∷◌, arith}
use fcd.Types.Printer.{declare, print}
use fcd.Base.{ℕ, ◌≡◌, refl, true, false, Option, none, some, ◌==◌, if◌then◌else◌}
use fcd.Types.Defs.{ExpressionType, integer, pointer, function, nil as no_fields, field, get_field}
use fcd.Types.Printer.{is_empty}
use fcd.Expr.Defs.{
  arithmetic_negate, add, subtract, multiply, bitwise_and, token, unary, nary, call, numeric,
  Expression, node, nil, cons,
}
use fcd.Expr.TypeOf.{get_expression_type}
use fcd.Combine.Tree.{
  pre_tested, Statements, expr, keyword, if_else, loop, nil as no_more, cons as more,
}
use fcd.Printed.Defs.{nil as no_item, print_scope, tabulate, optional_line}
use fcd.Print.Expressions.{visit}
use fcd.Print.Statements.{visit_statements, print_statements}
use fcd.Print.Declarations.{
  User, define, Place, place, insert_declaration, first_assignment, common_ancestors, mismatch,
  after_prefix,
}
use fcd.Print.Enclosing.{Encloses, place-Encloses, place-innermost}

abbrev digits : ℕ → String
digits n = if n == 3 then "3" else if n == 255 then "255" else if n == 32 then "32" else "7"

abbrev hex : ℕ → String
hex n = if n == 255 then "ff" else "a"

abbrev int : ExpressionType
int = integer true 32

-- The type 1 is that of a pointer to `int f(int x)`.
abbrev type_at : ℕ → ExpressionType
type_at t = if t == 1 then pointer (function int (field int "x" no_fields)) else int

abbrev text_of : Expression → Option String
text_of e = visit type_at digits hex hex none e

abbrev variable : String → Expression
variable s = node 1 (token 0 s) nil

abbrev three : Expression
three = node 2 (numeric 0 3) nil

abbrev sum : Expression
sum = node 3 (nary add) (cons (variable "a") (cons three nil))

abbrev called : Expression
called = node 4 call (cons (node 5 (token 1 "f") nil) (cons sum nil))

-- (a + 3) * f(x=a + 3)
abbrev product : Expression
product = node 6 (nary multiply) (cons sum (cons called nil))

text_of-product : text_of product ≡ some "(a + 3) * f(x=a + 3)"
unfolding visit get_expression_type get_field
text_of-product = refl

text_of-mask :
    text_of
      (node 7 (nary bitwise_and) (cons (variable "a") (cons (node 8 (numeric 0 255) nil) nil)))
    ≡ some "a & 0xff"
unfolding visit
text_of-mask = refl

abbrev minus : Expression → Expression → Expression
minus a b = node 9 (nary subtract) (cons a (cons b nil))

-- Operands of the same precedence get no parentheses, also where the grouping matters.
text_of-minus :
    text_of (minus (variable "a") (minus (variable "b") (variable "c"))) ≡ some "a - b - c"
unfolding visit
text_of-minus = refl

text_of-minus_left :
    text_of (minus (minus (variable "a") (variable "b")) (variable "c")) ≡ some "a - b - c"
unfolding visit
text_of-minus_left = refl

-- Two minus signs print as a decrement.
text_of-negated :
    text_of (
      node 10
        (unary arithmetic_negate)
        (cons (node 11 (unary arithmetic_negate) (cons (variable "x") nil)) nil))
    ≡ some "--x"
unfolding visit
text_of-negated = refl

abbrev Name : String → Type 0
Name text = is_empty text ≡ false

abbrev Atom : Expression → String → Type 0
Atom e text = Name text

-- while (a) { if (b) (a + 3) * f(x=a + 3); else if (c) break; else return a; }
abbrev statements : Statements
statements =
    more
      (loop (variable "a") pre_tested (
        more
          (if_else (variable "b") (more (expr product) no_more) (
            more
              (if_else (variable "c") (more (keyword "break" none) no_more)
                (more (keyword "return" (some (variable "a"))) no_more))
              no_more))
          no_more))
      no_more

printed_statements :
    print_statements type_at digits hex hex statements
    ≡ some
        "{\n\twhile (a)\n\t{\n\t\tif (b)\n\t\t{\n\t\t\t(a + 3) * f(x=a + 3);\n\t\t}\n\t\telse if (c)\n\t\t{\n\t\t\tbreak;\n\t\t}\n\t\telse \n\t\t{\n\t\t\treturn a;\n\t\t}\n\t}\n}\n"
unfolding print_statements visit_statements visit get_expression_type get_field print_scope tabulate
    optional_line
printed_statements = refl

abbrev user : List ℕ → Option String → User
user parents text = record { parents = parents; line = text }

-- if (..) { x = 3; while (..) { f(x); } }
abbrev users : List User
users = user (0 ∷ 1 ∷ []) (some "x = 3;") ∷ user (0 ∷ 1 ∷ 2 ∷ []) (some "f(x);") ∷ []

insert_declaration-users :
    insert_declaration digits int "x" users ≡ some (define 0 "int32_t x = 3;")
unfolding insert_declaration place first_assignment common_ancestors mismatch after_prefix declare
    print
insert_declaration-users = refl

-- A use ahead of the first assignment in its scope is left ahead of the definition.
insert_declaration-later :
    insert_declaration digits int "x"
      (user (0 ∷ []) (some "f(x);") ∷ user (0 ∷ []) (some "x = 3;") ∷ [])
    ≡ some (define 1 "int32_t x = 3;")
unfolding insert_declaration place first_assignment common_ancestors mismatch after_prefix declare
    print
insert_declaration-later = refl

place-Encloses_example : (p : Place) × (place "x" users ≡ some p) × Encloses users p
place-Encloses_example =
    place-Encloses "x" 0 (user (0 ∷ 1 ∷ []) (some "x = 3;"))
      (user (0 ∷ 1 ∷ 2 ∷ []) (some "f(x);") ∷ []) ((refl, tt), ((refl, tt), tt))

abbrev users_place : Place
users_place = record { parents = 0 ∷ 1 ∷ []; count = 2 }

place-innermost_example : 2 ≤ users_place.count
unfolding place first_assignment common_ancestors mismatch after_prefix
place-innermost_example =
    place-innermost "x" users
      (record { index = 0; user = user (0 ∷ 1 ∷ []) (some "x = 3;"); value = "3;" }) users_place 2
      refl refl (omega arith) ((refl, (refl, tt)), ((refl, (refl, tt)), tt))

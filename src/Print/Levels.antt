-- ===== src/Print/Levels.antt =====
-- C's grammar of expressions, as ISO C has it in 6.5: which texts are texts of which expression, at
-- which level. A text of a level binds as tightly as the operators of that level, or more; side by
-- side, operators of one level are not told apart. `Atom` says how names, numbers, variables and
-- strings of assembly are written, and `Name` which texts name fields and parameters.
use Prim.Native.String.{String, ◌++◌}
use fcd.Base.{ℕ, ◌≤◌, ◌≡◌, some}
use fcd.Types.Defs.{ExpressionType, Fields, structure, get_field}
use fcd.Types.Declarations.{Declares}
use fcd.Expr.Defs.{
  UnaryOperator, address_of, dereference, arithmetic_negate, logical_negate, binary_negate,
  NAryOperator, assign, multiply, divide, modulus, add, subtract, shift_left, shift_right,
  smaller_than, greater_or_equal_to, greater_than, smaller_or_equal_to, equal, not_equal,
  bitwise_and, bitwise_xor, bitwise_or, short_circuit_and, short_circuit_or, unary, nary,
  member_access, pointer_access, call, cast, ternary, aggregate, subscript, Expression, Operands,
  node, nil, cons,
}

-- the prefix operators among the unary expressions, all of one level
pub data PrefixOperator : UnaryOperator → String → Type 0 where
  ampersand : PrefixOperator address_of "&"
  asterisk : PrefixOperator dereference "*"
  minus_sign : PrefixOperator arithmetic_negate "-"
  exclamation_mark : PrefixOperator logical_negate "!"
  tilde : PrefixOperator binary_negate "~"

-- the binary operators, from the multiplicative to the assignment expressions
pub data BinaryOperator : NAryOperator → (level : ℕ) → String → Type 0 where
  times : BinaryOperator multiply 3 "*"
  divided_by : BinaryOperator divide 3 "/"
  modulo : BinaryOperator modulus 3 "%"
  plus : BinaryOperator add 4 "+"
  minus : BinaryOperator subtract 4 "-"
  shifted_left : BinaryOperator shift_left 5 "<<"
  shifted_right : BinaryOperator shift_right 5 ">>"
  less : BinaryOperator smaller_than 6 "<"
  less_or_equal : BinaryOperator smaller_or_equal_to 6 "<="
  greater : BinaryOperator greater_than 6 ">"
  greater_or_equal : BinaryOperator greater_or_equal_to 6 ">="
  equal_sign : BinaryOperator equal 7 "=="
  differs : BinaryOperator not_equal 7 "!="
  and : BinaryOperator bitwise_and 8 "&"
  exclusive_or : BinaryOperator bitwise_xor 9 "^"
  inclusive_or : BinaryOperator bitwise_or 10 "|"
  logical_and : BinaryOperator short_circuit_and 11 "&&"
  logical_or : BinaryOperator short_circuit_or 12 "||"
  assignment_sign : BinaryOperator assign 13 "="

-- how a cast says that it extends a number
pub data Extension : String → Type 0 where
  no_extension : Extension ""
  sign_extension : Extension "__sext "
  zero_extension : Extension "__zext "

module _ (Atom : Expression → String → Type 0) (Name : String → Type 0)
    (type_at : ℕ → ExpressionType) (show : ℕ → String) where
  -- what stands ahead of an argument
  pub data Label : String → Type 0 where
    no_label : Label ""
    label : (name : String) → Name name → Label (name ++ "=")

  mutual
    pub data InLevel : ℕ → Expression → String → Type 0 where
      atom : (e : Expression) (text : String) → Atom e text → InLevel 0 e text
      parenthesized : (e : Expression) (a : String) → InLevel 13 e a → InLevel 0 e ("(" ++ a ++ ")")
      weaker : (p q : ℕ) (e : Expression) (a : String) → p ≤ q → InLevel p e a → InLevel q e a
      braced :
          (p t : ℕ) (es : Operands) (items : String)
          → AreItems es items
          → InLevel 0 (node p (aggregate t) es) ("{" ++ items ++ "}")
      member :
          (p s i : ℕ) (e : Expression) (a : String) (fields : Fields) (tag : String)
          (field : record { type : ExpressionType; name : String })
          → InLevel 1 e a
          → type_at s ≡ structure fields tag
          → get_field fields i ≡ some field
          → Name field.name
          → InLevel 1 (node p (member_access s i) (cons e nil)) (a ++ "." ++ field.name)
      pointed :
          (p s i : ℕ) (e : Expression) (a : String) (fields : Fields) (tag : String)
          (field : record { type : ExpressionType; name : String })
          → InLevel 1 e a
          → type_at s ≡ structure fields tag
          → get_field fields i ≡ some field
          → Name field.name
          → InLevel 1 (node p (pointer_access s i) (cons e nil)) (a ++ "->" ++ field.name)
      subscripted :
          (p : ℕ) (e i : Expression) (a index : String)
          → InLevel 1 e a
          → InLevel 13 i index
          → InLevel 1 (node p subscript (cons e (cons i nil))) (a ++ "[" ++ index ++ "]")
      called :
          (p : ℕ) (e : Expression) (es : Operands) (a items : String)
          → InLevel 1 e a
          → AreItems es items
          → InLevel 1 (node p call (cons e es)) (a ++ "(" ++ items ++ ")")
      prefixed :
          (p : ℕ) (op : UnaryOperator) (symbol : String) (e : Expression) (a : String)
          → PrefixOperator op symbol
          → InLevel 2 e a
          → InLevel 2 (node p (unary op) (cons e nil)) (symbol ++ a)
      converted :
          (p t : ℕ) (extends type_name : String) (e : Expression) (a : String)
          → Extension extends
          → Declares show (type_at t) "" type_name
          → InLevel 2 e a
          → InLevel 2 (node p (cast t) (cons e nil)) ("(" ++ extends ++ type_name ++ ")" ++ a)
      operated :
          (p level : ℕ) (op : NAryOperator) (symbol : String) (e : Expression) (es : Operands)
          (a b : String)
          → BinaryOperator op level symbol
          → InLevel level e a
          → Operated level symbol es b
          → InLevel level (node p (nary op) (cons e es)) (a ++ b)
      chosen :
          (p : ℕ) (d e f : Expression) (a b c : String)
          → InLevel 13 d a
          → InLevel 13 e b
          → InLevel 13 f c
          → InLevel 13
              (node p ternary (cons d (cons e (cons f nil))))
              (a ++ " ? " ++ b ++ " : " ++ c)

    -- the operands after the first, each behind the operator
    pub data Operated : (level : ℕ) → (symbol : String) → Operands → String → Type 0 where
      no_more : (level : ℕ) (symbol : String) → Operated level symbol nil ""
      one_more :
          (level : ℕ) (symbol : String) (e : Expression) (es : Operands) (a b : String)
          → InLevel level e a
          → Operated level symbol es b
          → Operated level symbol (cons e es) (" " ++ symbol ++ " " ++ a ++ b)

    -- items with commas
    pub data AreItems : Operands → String → Type 0 where
      no_items : AreItems nil ""
      last_item :
          (l a : String) (e : Expression)
          → Label l
          → InLevel 13 e a
          → AreItems (cons e nil) (l ++ a)
      next_item :
          (l a items : String) (e d : Expression) (es : Operands)
          → Label l
          → InLevel 13 e a
          → AreItems (cons d es) items
          → AreItems (cons e (cons d es)) (l ++ a ++ ", " ++ items)

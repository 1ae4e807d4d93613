-- ===== src/Types/Printer.antt =====
-- fcd/ast/type_printer.cpp and the debug printer of fcd/ast/expression_type.cpp.
-- `show` is `raw_ostream`'s print of an unsigned number.
use Prim.Native.Char.{code}
use Prim.Native.String.{String, ◌++◌}
use fcd.Base.{ℕ, Bool, true, false, ◌||◌, ◌==◌, if◌then◌else◌}
use fcd.Types.Defs.{
  ExpressionType, Fields, void_type, integer, pointer, array, structure, function, nil, field,
}

abbrev pub is_bracket : ℕ → Bool
is_bracket c =
    c == b'*' || c == b'[' || c == b']' || c == b'(' || c == b')' || c == b'{' || c == b'}'

unfoldable pub print_middle_if_any : String → String
print_middle_if_any String.[] = ""
print_middle_if_any (String.◌∷◌ c s) = (if is_bracket (code c) then "" else " ") ++ String.◌∷◌ c s

-- `isa<ArrayExpressionType>` or `isa<FunctionExpressionType>`
abbrev pub is_array_or_function : ExpressionType → Bool
is_array_or_function (array t n) = true
is_array_or_function (function r ps) = true
is_array_or_function _ = false

abbrev pub is_empty : String → Bool
is_empty String.[] = true
is_empty (String.◌∷◌ c s) = false

abbrev pub has_fields : Fields → Bool
has_fields nil = false
has_fields (field t n fs) = true

module _ (show : ℕ → String) where
  unfoldable mutual
    unfolding print_middle_if_any

    -- `CTypePrinter::print`
    pub print : ExpressionType → String → String
    print void_type middle = "void" ++ print_middle_if_any middle
    print (integer s n) middle =
        (if n == 1 then "bool" else (if s then "" else "u") ++ "int" ++ show n ++ "_t")
        ++ print_middle_if_any middle
    print (pointer t) middle = print t (
        (if is_array_or_function t then "(" else "")
        ++ "*"
        ++ print_middle_if_any middle
        ++ (if is_array_or_function t then ")" else ""))
    print (array t n) middle = print t (middle ++ "[" ++ show n ++ "]")
    print (structure fs name) middle =
        (if is_empty name
          then "struct {" ++ (if has_fields fs then " " else "") ++ print_fields fs ++ "} "
          else "struct " ++ name)
        ++ middle
    print (function r ps) middle = print r (middle ++ "(" ++ print_parameters ps ++ ")")

    pub print_fields : Fields → String
    print_fields nil = ""
    print_fields (field t n fs) = print t n ++ "; " ++ print_fields fs

    pub print_parameters : Fields → String
    print_parameters nil = ""
    print_parameters (field t n fs) =
        print t n ++ (if has_fields fs then ", " else "") ++ print_parameters fs

  unfoldable pub declare : ExpressionType → String → String
  declare t identifier = print t identifier

  -- the debug print, inside out
  unfoldable mutual
    pub print_debug : ExpressionType → String
    print_debug void_type = "void"
    print_debug (integer s n) = (if s then "" else "u") ++ "int" ++ show n ++ "_t"
    print_debug (pointer t) = print_debug t ++ "*"
    print_debug (array t n) = print_debug t ++ "[" ++ show n ++ "]"
    print_debug (structure fs name) = "{" ++ print_range fs ++ "}"
    print_debug (function r ps) = print_debug r ++ "(" ++ print_range ps ++ ")"

    pub print_range : Fields → String
    print_range nil = ""
    print_range (field t n fs) =
        print_debug t ++ " " ++ n ++ (if has_fields fs then ", " else "") ++ print_range fs

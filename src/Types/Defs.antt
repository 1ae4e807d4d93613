-- ===== src/Types/Defs.antt =====
-- fcd/ast/expression_type.h: the class hierarchy as one data type. A field or parameter vector is
-- a `Fields`. A type is a finite tree: a structure that points to itself has no value here.
use Prim.Native.String.{String}
use fcd.Base.{ℕ, zero, suc, ◌%◌, ◌^◌, Bool, Option, none, some}

mutual
  pub data ExpressionType : Type 0 where
    void_type : ExpressionType
    integer : (has_sign : Bool) (num_bits : ℕ) → ExpressionType
    pointer : (nested : ExpressionType) → ExpressionType
    array : (nested : ExpressionType) (num_element : ℕ) → ExpressionType
    structure : Fields → (name : String) → ExpressionType
    function : (return_type : ExpressionType) → Fields → ExpressionType

  pub data Fields : Type 0 where
    nil : Fields
    field : ExpressionType → (name : String) → Fields → Fields

-- `numBits` is a bit field of 15 bits.
abbrev pub integer_type : Bool → ℕ → ExpressionType
integer_type has_sign num_bits = integer has_sign (num_bits % 2 ^ 15)

unfoldable pub append_fields : Fields → ExpressionType → String → Fields
append_fields nil t name = field t name nil
append_fields (field u n fs) t name = field u n (append_fields fs t name)

-- `append`, which only structures and functions have
unfoldable pub append : ExpressionType → ExpressionType → String → ExpressionType
unfolding append_fields
append (structure fs n) t name = structure (append_fields fs t name) n
append (function r fs) t name = function r (append_fields fs t name)
append other t name = other

unfoldable pub fields_size : Fields → ℕ
fields_size nil = 0
fields_size (field t n fs) = suc (fields_size fs)

-- `operator[]`; `none` is an index out of range
unfoldable pub get_field : Fields → ℕ → Option (record { type : ExpressionType; name : String })
get_field nil i = none
get_field (field t n fs) zero = some (record { type = t; name = n })
get_field (field t n fs) (suc i) = get_field fs i

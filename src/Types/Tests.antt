-- ===== src/Types/Tests.antt =====
-- Declarations of concrete types.
use Prim.Native.String.{String}
use fcd.Base.{ℕ, ◌≡◌, refl, true, false, ◌==◌, if◌then◌else◌}
use fcd.Types.Defs.{ExpressionType, integer, pointer, array, structure, function, nil, field}
use fcd.Types.Printer.{print, declare}
use fcd.Types.Declarations.{Declares}
use fcd.Types.Declarator.{declare-Declares}

-- the numbers that the types below use
abbrev show : ℕ → String
show n = if n == 2 then "2" else if n == 32 then "32" else "8"

abbrev int32 : ExpressionType
int32 = integer true 32

-- a pointer to a function that takes a byte and returns a pointer to an array
abbrev handler : ExpressionType
handler = pointer (function (pointer (array int32 2)) (field (integer false 8) "b" nil))

declare-handler : declare show handler "h" ≡ "int32_t(*(* h)(uint8_t b))[2]"
unfolding declare print
declare-handler = refl

declare-Declares_example : Declares show handler "h" (declare show handler "h")
declare-Declares_example = declare-Declares show handler "h" (tt, (tt, tt))

-- struct foo *(*h)(struct { int32_t x; } b)
declare-Declares_structures :
    Declares show
      (pointer (
        function
          (pointer (structure (field int32 "x" nil) "foo"))
          (field (structure (field int32 "x" nil) "") "b" nil)))
      "h"
      (declare show
        (pointer (
          function
            (pointer (structure (field int32 "x" nil) "foo"))
            (field (structure (field int32 "x" nil) "") "b" nil)))
        "h")
declare-Declares_structures = declare-Declares show _ "h" (refl, ((tt, tt), tt))

-- ===== src/Printed/Tests.antt =====
-- A loop with a declaration.
use fcd.Base.{◌≡◌, refl}
use fcd.Printed.Defs.{
  PrintableScope, line, scope, scope_of, nil, cons, tabulate, optional_line, prepend_item, print,
}
use fcd.Printed.Lines.{show_lines, lines_of, print-show_lines}

abbrev loop : PrintableScope
loop = scope_of "while (x)" "" nil (cons (line "x = f();") nil)

print-loop :
    print (scope (prepend_item loop "int32_t x;")) 0 ≡ "while (x)\n{\n\tint32_t x;\n\tx = f();\n}\n"
unfolding print prepend_item tabulate optional_line
print-loop = refl

print-show_lines_example : print (scope loop) 1 ≡ show_lines (lines_of (scope loop) 1)
print-show_lines_example = print-show_lines (scope loop) 1

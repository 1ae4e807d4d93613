-- ===== src/Printed/Defs.antt =====
-- fcd/ast/print_item.h and print_item.cpp: a line or a scope of items. A scope owns its items, so
-- the pointers to the parents are left out.
use Prim.Native.String.{String, ◌++◌}
use fcd.Base.{ℕ, zero, suc, ◌-◌, Bool, true, false, ltb, if◌then◌else◌}

mutual
  pub data PrintableItem : Type 0 where
    line : (line_string : String) → PrintableItem
    scope : PrintableScope → PrintableItem

  pub data PrintableScope : Type 0 where
    scope_of : (prefix suffix : String) (prepended items : PrintableItems) → PrintableScope

  pub data PrintableItems : Type 0 where
    nil : PrintableItems
    cons : PrintableItem → PrintableItems → PrintableItems

abbrev pub tab_count : ℕ
tab_count = 16

-- The first `count` characters of the array of tabs.
unfoldable pub tabs : (count : ℕ) → String
tabs zero = ""
tabs (suc n) = "\t" ++ tabs n

-- `while (count > tabCount)`, for as many rounds as `rounds` at most
unfoldable pub tabulate_rounds : (rounds count : ℕ) → String
unfolding tabs
tabulate_rounds zero count = tabs count
tabulate_rounds (suc r) count =
    let rest = tabulate_rounds r (count - tab_count) in
    if ltb tab_count count then tabs tab_count ++ rest else tabs count

unfoldable pub tabulate : (count : ℕ) → String
unfolding tabulate_rounds
tabulate count = tabulate_rounds count count

abbrev pub is_empty : String → Bool
is_empty String.[] = true
is_empty (String.◌∷◌ c s) = false

unfoldable pub emplace_back : PrintableItems → PrintableItem → PrintableItems
emplace_back nil i = cons i nil
emplace_back (cons j js) i = cons j (emplace_back js i)

unfoldable pub prepend_item : PrintableScope → String → PrintableScope
unfolding emplace_back
prepend_item (scope_of p s prepended items) text =
    scope_of p s (emplace_back prepended (line text)) items

unfoldable pub append_item : PrintableScope → PrintableItem → PrintableScope
unfolding emplace_back
append_item (scope_of p s prepended items) i = scope_of p s prepended (emplace_back items i)

-- the prefix and the suffix have a line when they are not empty
unfoldable pub optional_line : ℕ → String → String
unfolding tabulate
optional_line indent text = if is_empty text then "" else tabulate indent ++ text ++ "\n"

unfoldable mutual
  unfolding tabulate

  pub print : PrintableItem → (indent : ℕ) → String
  print (line text) indent = tabulate indent ++ text ++ "\n"
  print (scope s) indent = print_scope s indent

  pub print_scope : PrintableScope → (indent : ℕ) → String
  print_scope (scope_of prefix suffix prepended items) indent =
      optional_line indent prefix
      ++ tabulate indent
      ++ "{\n"
      ++ print_items prepended (suc indent)
      ++ print_items items (suc indent)
      ++ tabulate indent
      ++ "}\n"
      ++ optional_line indent suffix

  pub print_items : PrintableItems → (indent : ℕ) → String
  print_items nil indent = ""
  print_items (cons i is) indent = print i indent ++ print_items is indent

-- ===== src/Printed/Lines.antt =====
-- What is printed, as lines with their indentation.
use Prim.Native.String.{String, ◌++◌}
use text.Mathlib.TextLemmas.{nil-append, append_assoc}
use fcd.Base.{
  ℕ, zero, suc, ◌+◌, ◌-◌, ◌≤◌, ◌<◌, ◌≡◌, refl, sym, ap, ◌∙◌, inl, inr, ltb, ltb→lt, List, [], ◌∷◌,
  ◌++◌ as append, arith, Bool-cases, if◌then◌else◌,
}
use fcd.Printed.Defs.{
  PrintableItem, PrintableScope, PrintableItems, line, scope, scope_of, nil, cons, tabs,
  tabulate_rounds, tabulate, is_empty, print, print_scope, print_items, optional_line, tab_count,
}

tabs-add : (n m : ℕ) → tabs (n + m) ≡ tabs n ++ tabs m
unfolding tabs
tabs-add zero m = let same : 0 + m ≡ m = omega arith in ap tabs same ∙ sym (nil-append (tabs m))
tabs-add (suc n) m =
    let shift : suc n + m ≡ suc (n + m) = omega arith in
    rw shift (ap (λ s. "\t" ++ s) (tabs-add n m) ∙ sym (append_assoc "\t" (tabs n) (tabs m)))

tabulate_rounds-tabs : (r count : ℕ) → count ≤ r → tabulate_rounds r count ≡ tabs count
unfolding tabulate_rounds
tabulate_rounds-tabs zero count h = refl
tabulate_rounds-tabs (suc r) count h = elim (Bool-cases (ltb tab_count count)) [
  | inl q ↦
      let more : 16 < count = ltb→lt 16 count q in
      let split : 16 + (count - 16) ≡ count = omega arith in
      rw q (
        ap (λ s. tabs 16 ++ s) (tabulate_rounds-tabs r (count - 16) (omega arith))
        ∙ sym (tabs-add 16 (count - 16))
        ∙ ap tabs split)
  | inr q ↦ rw q refl
]

-- The loop of `tabulate` ends within as many rounds as there are tabs to write, and writes exactly
-- that many.
pub tabulate-tabs : (count : ℕ) → tabulate count ≡ tabs count
unfolding tabulate
tabulate-tabs count = tabulate_rounds-tabs count count (omega arith)

abbrev pub Line : Type 0
Line = ℕ × String

abbrev pub show_lines : List Line → String
show_lines [] = ""
show_lines ((n, text) ∷ ls) = tabs n ++ text ++ "\n" ++ show_lines ls

abbrev pub line_if_any : ℕ → String → List Line
line_if_any n text = if is_empty text then [] else (n, text) ∷ []

-- The lines of an item, each with the depth of the scope it stands in.
unfoldable mutual
  pub lines_of : PrintableItem → ℕ → List Line
  lines_of (line text) n = (n, text) ∷ []
  lines_of (scope s) n = lines_of_scope s n

  pub lines_of_scope : PrintableScope → ℕ → List Line
  lines_of_scope (scope_of prefix suffix prepended items) n = append (line_if_any n prefix) (
      (n, "{")
      ∷ append (lines_of_items prepended (suc n))
          (append (lines_of_items items (suc n)) ((n, "}") ∷ line_if_any n suffix)))

  pub lines_of_items : PrintableItems → ℕ → List Line
  lines_of_items nil n = []
  lines_of_items (cons i is) n = append (lines_of i n) (lines_of_items is n)

show_lines-append : (ls ms : List Line) → show_lines (append ls ms) ≡ show_lines ls ++ show_lines ms
show_lines-append [] ms = sym (nil-append (show_lines ms))
show_lines-append ((n, text) ∷ ls) ms = simp (append_assoc, show_lines-append ls ms)

optional_line-show_lines :
    (n : ℕ) (text : String) → optional_line n text ≡ show_lines (line_if_any n text)
unfolding optional_line
optional_line-show_lines n text = elim (Bool-cases (is_empty text)) [
  | inl q ↦ rw q refl
  | inr q ↦ rw q (ap (λ s. s ++ text ++ "\n") (tabulate-tabs n))
]

brace_line : (s : String) → "{" ++ "\n" ++ s ≡ "{\n" ++ s
brace_line s = sym (append_assoc "{" "\n" s)

close_line : (s : String) → "}" ++ "\n" ++ s ≡ "}\n" ++ s
close_line s = sym (append_assoc "}" "\n" s)

mutual
  unfolding print lines_of

  item-show_lines : (i : PrintableItem) (n : ℕ) → print i n ≡ show_lines (lines_of i n)
  item-show_lines (line text) n = ap (λ s. s ++ text ++ "\n") (tabulate-tabs n)
  item-show_lines (scope s) n = scope-show_lines s n

  scope-show_lines :
      (s : PrintableScope) (n : ℕ) → print_scope s n ≡ show_lines (lines_of_scope s n)
  scope-show_lines (scope_of prefix suffix prepended items) n = simp (
    tabulate-tabs,
    optional_line-show_lines,
    items-show_lines prepended (suc n),
    items-show_lines items (suc n),
    show_lines-append,
    brace_line,
    close_line,
  )

  items-show_lines :
      (is : PrintableItems) (n : ℕ) → print_items is n ≡ show_lines (lines_of_items is n)
  items-show_lines nil n = refl
  items-show_lines (cons i is) n =
      ap (λ s. s ++ print_items is n) (item-show_lines i n)
      ∙ ap (λ s. show_lines (lines_of i n) ++ s) (items-show_lines is n)
      ∙ sym (show_lines-append (lines_of i n) (lines_of_items is n))

-- An item prints as its lines, in order: each has as many tabs as scopes stand around it, and ends
-- with a newline.
pub print-show_lines : (i : PrintableItem) (n : ℕ) → print i n ≡ show_lines (lines_of i n)
print-show_lines i n = item-show_lines i n

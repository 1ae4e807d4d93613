-- ===== src/Printed/Placing.antt =====
-- Where `prependItem` and `appendItem` put what they add.
use Prim.Native.String.{String}
use fcd.Base.{ℕ, suc, ◌≡◌, refl, sym, ap, ◌∙◌, List, [], ◌∷◌, ◌++◌}
use fcd.Printed.Defs.{
  PrintableItem, PrintableScope, PrintableItems, line, scope_of, nil, cons, emplace_back,
  prepend_item, append_item,
}
use fcd.Printed.Lines.{Line, line_if_any, lines_of, lines_of_scope, lines_of_items}

append-append : (xs ys zs : List Line) → (xs ++ ys) ++ zs ≡ xs ++ (ys ++ zs)
append-append [] ys zs = refl
append-append (x ∷ xs) ys zs = ap (λ l. x ∷ l) (append-append xs ys zs)

emplace_back-lines :
    (is : PrintableItems) (i : PrintableItem) (n : ℕ) (rest : List Line)
    → lines_of_items (emplace_back is i) n ++ rest ≡ lines_of_items is n ++ (lines_of i n ++ rest)
unfolding emplace_back lines_of
emplace_back-lines nil i n rest = append-append (lines_of i n) [] rest
emplace_back-lines (cons j js) i n rest =
    append-append (lines_of j n) (lines_of_items (emplace_back js i) n) rest
    ∙ ap (λ l. lines_of j n ++ l) (emplace_back-lines js i n rest)
    ∙ sym (append-append (lines_of j n) (lines_of_items js n) (lines_of i n ++ rest))

-- The lines of a scope, with `lines` between the prepended items and the others, and `more` behind
-- the others.
abbrev pub lines_with : PrintableScope → ℕ → (lines more : List Line) → List Line
lines_with (scope_of prefix suffix prepended items) n lines more =
    line_if_any n prefix
    ++ ((n, "{")
        ∷ (lines_of_items prepended (suc n)
            ++ (lines
                ++ (lines_of_items items (suc n) ++ (more ++ ((n, "}") ∷ line_if_any n suffix))))))

-- `prependItem` adds one line, a level deeper than the scope, behind the lines prepended before and
-- ahead of all items; `appendItem` adds the lines of the item behind all others. Nothing else
-- changes.
pub lines_of_scope-prepend_item :
    (s : PrintableScope) (text : String) (i : PrintableItem) (n : ℕ)
    → (lines_of_scope s n ≡ lines_with s n [] [])
      × (lines_of_scope (prepend_item s text) n ≡ lines_with s n ((suc n, text) ∷ []) [])
      × (lines_of_scope (append_item s i) n ≡ lines_with s n [] (lines_of i (suc n)))
unfolding prepend_item append_item lines_of
lines_of_scope-prepend_item (scope_of prefix suffix prepended items) text i n = (
  refl,
  ap (λ l. line_if_any n prefix ++ ((n, "{") ∷ l))
      (emplace_back-lines prepended (line text) (suc n) _),
  ap (λ l. line_if_any n prefix ++ ((n, "{") ∷ (lines_of_items prepended (suc n) ++ l)))
      (emplace_back-lines items i (suc n) _),
)

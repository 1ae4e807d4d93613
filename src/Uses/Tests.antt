-- ===== src/Uses/Tests.antt =====
-- Use arrays of concrete sizes.
use fcd.Base.{
  List, Option, [], arith, if◌then◌else◌, length, none, refl, some, ℕ, ◌==◌, ◌∷◌, ◌≡◌, ◌≢◌,
}
use fcd.Uses.Waymarks.{
  PrevTag, one_tag, stop, full_stop, prepare_uses, advance, walk_to_end_of_array,
}
use fcd.Uses.Walk.{walk_to_end_of_array-prepare_uses}
use fcd.Uses.Operands.{
  alloc_info, slot, get_operand_use, operands_size, operands_begin, dereference, nth,
}
use fcd.Uses.Linked.{ExpressionUse, UseStore, set_use, replace_all_uses_with, IsUseList}
use fcd.Uses.Moved.{set_use-IsUseList, replace_all_uses_with-IsUseList}
use fcd.Uses.Access.{get_operand_use-nth}

prepare_six : prepare_uses 6 ≡ stop ∷ one_tag ∷ one_tag ∷ stop ∷ one_tag ∷ full_stop ∷ []
unfolding prepare_uses
prepare_six = refl

walk_to_end_of_array-prepare_uses_example :
    (length (prepare_uses 40) ≡ 40)
    × ((at : List PrevTag) × (advance 7 (prepare_uses 40) ≡ some at)
        × (walk_to_end_of_array at ≡ some []))
walk_to_end_of_array-prepare_uses_example = walk_to_end_of_array-prepare_uses 40 7 (omega arith)

get_operand_use-nth_example :
    (get_operand_use (alloc_info 3 3 ∷ []) 2 ≡ some (slot 0 2))
    × (dereference (nth 2 (operands_begin (alloc_info 3 3 ∷ []))) ≡ some (slot 0 2))
get_operand_use-nth_example = get_operand_use-nth 2 (alloc_info 3 3) [] (omega arith) (omega arith)

three_operands : operands_size (alloc_info 2 2 ∷ alloc_info 4 1 ∷ []) ≡ 3
unfolding operands_size
three_operands = refl

abbrev use_of : Option ℕ → Option ℕ → ℕ → ExpressionUse
use_of p n e = record { prev = p; next = n; expression = some e }

-- Expression 100 has the uses 1, 2 and 3, and expression 200 the use 4.
abbrev store : UseStore
store = record {
  use_at = λ x.
      if x == 1
      then use_of none (some 2) 100
      else if x == 2
      then use_of (some 1) (some 3) 100
      else if x == 3
      then use_of (some 2) none 100
      else use_of none none 200;
  first_use = λ e. if e == 100 then some 1 else some 4;
}

three-IsUseList : IsUseList store 100 (1 ∷ 2 ∷ 3 ∷ [])
three-IsUseList = (
  (refl, refl, refl, (refl, refl, refl, (refl, refl, refl, refl))),
  (
    ((λ q. absurd (omega arith)), ((λ q. absurd (omega arith)), tt)),
    (((λ q. absurd (omega arith)), tt), (tt, tt)),
  ),
)

one-IsUseList : IsUseList store 200 (4 ∷ [])
one-IsUseList = ((refl, refl, refl, refl), (tt, tt))

set_use-IsUseList_example :
    IsUseList (set_use store 2 (some 200)) 100 (1 ∷ 3 ∷ [])
    × IsUseList (set_use store 2 (some 200)) 200 (2 ∷ 4 ∷ [])
    × ((e : ℕ) (es : List ℕ)
        → e ≢ 100
        → e ≢ 200
        → IsUseList store e es
        → IsUseList (set_use store 2 (some 200)) e es)
set_use-IsUseList_example =
    set_use-IsUseList store 100 200 2 (1 ∷ []) (3 ∷ []) (4 ∷ []) refl (λ q. absurd (omega arith))
      three-IsUseList one-IsUseList

replace_all_uses_with-IsUseList_example :
    IsUseList (replace_all_uses_with 3 store 100 200) 100 []
    × IsUseList (replace_all_uses_with 3 store 100 200) 200 (3 ∷ 2 ∷ 1 ∷ 4 ∷ [])
replace_all_uses_with-IsUseList_example =
    replace_all_uses_with-IsUseList store 100 200 (1 ∷ 2 ∷ 3 ∷ []) (4 ∷ [])
      (λ q. absurd (omega arith)) three-IsUseList one-IsUseList

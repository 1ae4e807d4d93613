-- ===== src/Uses/Access.antt =====
-- Access by index and iteration agree.
use fcd.Base.{ℕ, zero, suc, ◌+◌, ◌<◌, ◌≤◌, ◌≡◌, ap, ◌∙◌, some, List, ◌∷◌, arith, false, ◌==◌}
use fcd.Uses.Operands.{
  AllocInfo, slot, get_operand_use, operands_begin, increment, dereference, nth,
}

-- inside an array an increment is the next index
nth-inside :
    (n i array : ℕ) (a : AllocInfo) (rest : List AllocInfo)
    → i + n < a.used
    → nth n (record { rest = a ∷ rest; array = array; index = i })
      ≡ record { rest = a ∷ rest; array = array; index = i + n }
unfolding nth increment
nth-inside zero i array a rest h =
    ap (λ (t : ℕ). record { rest = a ∷ rest; array = array; index = t }) (omega arith)
nth-inside (suc n) i array a rest h =
    let inside : (i + 1 == a.used) ≡ false = ground arith in
    rw inside (
      nth-inside n (i + 1) array a rest (omega arith)
      ∙ ap (λ (t : ℕ). record { rest = a ∷ rest; array = array; index = t }) (omega arith))

-- Within the first array, whose used part is within its room, the operand of an index is the one that iteration meets after as many
-- steps, and it lies in the used part of that array.
pub get_operand_use-nth :
    (index : ℕ) (a : AllocInfo) (rest : List AllocInfo)
    → a.used ≤ a.allocated
    → index < a.used
    → (get_operand_use (a ∷ rest) index ≡ some (slot 0 index))
      × (dereference (nth index (operands_begin (a ∷ rest))) ≡ some (slot 0 index))
unfolding get_operand_use operands_begin dereference
get_operand_use-nth index a rest room h =
    let some_room : (a.allocated == 0) ≡ false = ground arith in
    let inside : (0 == a.used) ≡ false = ground arith in
    (
      ground arith,
      rw (some_room, inside)
          (ap dereference (nth-inside index 0 0 a rest (omega arith))
            ∙ ap (λ (t : ℕ). some (slot 0 t)) (omega arith)),
    )

-- ===== src/Types/Apart.antt =====
-- When what is printed behind a word is separated from it, and types in which that holds everywhere.
use Prim.Native.Char.{Char, code}
use Prim.Native.String.{String, ◌++◌}
use text.Mathlib.TextLemmas.{nil-append, cons-append}
use fcd.Base.{ℕ, ◌≡◌, refl, sym, subst, inl, inr, Bool, Bool-cases, true, false, arith}
use fcd.Types.Defs.{
  ExpressionType, Fields, void_type, integer, pointer, array, structure, function, nil, field,
}
use fcd.Types.Printer.{is_bracket, is_empty, print_middle_if_any}
use fcd.Types.Declarations.{is_word, StandsApart, nothing, no_letter, Separates, space, no_space}

-- No tag of a structure is printed right ahead of a name: a structure with a tag stands below a
-- pointer, or what it declares has no name. `apart` says that the text behind the type cannot be
-- taken for a part of the tag.
abbrev mutual
  pub TagsApart : (apart : Bool) → ExpressionType → Type 0
  TagsApart apart void_type = Unit
  TagsApart apart (integer s n) = Unit
  TagsApart apart (pointer t) = TagsApart true t
  TagsApart apart (array t n) = TagsApart apart t
  TagsApart apart (structure fs String.[]) = FieldsApart fs
  TagsApart apart (structure fs (String.◌∷◌ c s)) = apart ≡ true
  TagsApart apart (function r ps) = TagsApart apart r × FieldsApart ps

  pub FieldsApart : Fields → Type 0
  FieldsApart nil = Unit
  FieldsApart (field t name fs) = TagsApart (is_empty name) t × FieldsApart fs

is_bracket-is_word : (c : ℕ) → is_bracket c ≡ true → is_word c ≡ false
is_bracket-is_word c h = ground arith

pub print_middle_if_any-Separates :
    (text : String) → (gap : String) × (print_middle_if_any text ≡ gap ++ text) × Separates gap text
unfolding print_middle_if_any
print_middle_if_any-Separates String.[] = ("", refl, no_space "" nothing)
print_middle_if_any-Separates (String.◌∷◌ c s) = elim (Bool-cases (is_bracket (code c))) [
  | inl q ↦ ("", rw q refl, no_space _ (no_letter c s (is_bracket-is_word (code c) q)))
  | inr q ↦ (" ", rw q refl, space _)
]

pub StandsApart-append : (s t : String) → StandsApart s → StandsApart t → StandsApart (s ++ t)
StandsApart-append s t nothing k = subst StandsApart (sym (nil-append t)) k
StandsApart-append s t (no_letter c u h) k =
    subst StandsApart (sym (cons-append c u t)) (no_letter c (u ++ t) h)

-- behind a text that is not empty the rest does not matter
pub StandsApart-begins :
    (c : Char) (s t : String) → is_word (code c) ≡ false → StandsApart (String.◌∷◌ c s ++ t)
StandsApart-begins c s t h = subst StandsApart (sym (cons-append c s t)) (no_letter c (s ++ t) h)

pub name-StandsApart : (name : String) → is_empty name ≡ true → StandsApart name
name-StandsApart String.[] h = nothing
name-StandsApart (String.◌∷◌ c s) h = cc

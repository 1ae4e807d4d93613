-- ===== src/Print/Declarations.antt =====
-- Where `StatementPrintVisitor::insertDeclarations` of fcd/ast/print.cpp declares a variable. A user
-- is an item that the variable is printed in: the scopes around it, from the root on, and its text
-- when it is a line. A scope is known by its address.
use Prim.Native.Char.{code}
use Prim.Native.String.{String, ◌++◌}
use fcd.Base.{ℕ, zero, suc, Option, none, some, List, [], ◌∷◌, length, ltb, ◌==◌, if◌then◌else◌}
use fcd.Types.Defs.{ExpressionType}
use fcd.Types.Printer.{declare}

pub record User : Type 0 where
  pub parents : List ℕ
  pub line : Option String

-- `mismatch`, and what is left of the second text when it begins with the first
unfoldable pub after_prefix : String → String → Option String
after_prefix String.[] text = some text
after_prefix (String.◌∷◌ c s) String.[] = none
after_prefix (String.◌∷◌ c s) (String.◌∷◌ d t) =
    let rest = after_prefix s t in if code c == code d then rest else none

-- What a line assigns to the variable, when it does.
abbrev pub assigned : String → Option String → Option String
assigned variable none = none
assigned variable (some line) = after_prefix (variable ++ " = ") line

-- The first assignment, its number among the users, and what it assigns.
pub record Assignment : Type 0 where
  pub index : ℕ
  pub user : User
  pub value : String

abbrev pub later : Option Assignment → Option Assignment
later none = none
later (some a) = some (record a { index = suc a.index })

abbrev pub assignment_or : User → Option String → Option Assignment → Option Assignment
assignment_or u (some value) rest = some (record { index = 0; user = u; value = value })
assignment_or u none rest = later rest

unfoldable pub first_assignment : String → List User → Option Assignment
unfolding after_prefix
first_assignment variable [] = none
first_assignment variable (u ∷ us) =
    assignment_or u (assigned variable u.line) (first_assignment variable us)

-- `mismatch` of two lists of parents, the first one up to `count`: how many agree
unfoldable pub mismatch : (count : ℕ) → List ℕ → List ℕ → ℕ
mismatch zero ps qs = 0
mismatch (suc n) (p ∷ ps) (q ∷ qs) = let rest = mismatch n ps qs in if p == q then suc rest else 0
mismatch (suc n) ps qs = 0

abbrev pub min : ℕ → ℕ → ℕ
min a b = if ltb b a then b else a

-- The loop over the users; `skipped` is the number of the first assignment, counted from here on, as
-- long as it is ahead.
unfoldable pub common_ancestors :
    (parents : List ℕ) → (count : ℕ) → (skipped : Option ℕ) → List User → ℕ
unfolding mismatch
common_ancestors parents count skipped [] = count
common_ancestors parents count (some zero) (u ∷ us) = common_ancestors parents count none us
common_ancestors parents count (some (suc i)) (u ∷ us) =
    common_ancestors parents (min count (mismatch count parents u.parents)) (some i) us
common_ancestors parents count none (u ∷ us) =
    common_ancestors parents (min count (mismatch count parents u.parents)) none us

-- The parents looked at, and `onePastCommonAncestor`, counted from their beginning.
pub record Place : Type 0 where
  pub parents : List ℕ
  pub count : ℕ

-- A variable without a user has no place.
abbrev pub place_by : List User → Option Assignment → Option Place
place_by [] none = none
place_by (u ∷ us) none = some (record { parents = u.parents; count = 1 })
place_by us (some a) = some (record {
  parents = a.user.parents;
  count = common_ancestors a.user.parents (length a.user.parents) (some a.index) us;
})

unfoldable pub place : String → List User → Option Place
unfolding first_assignment common_ancestors
place variable users = place_by users (first_assignment variable users)

-- What is written: the first assignment becomes a definition when its scope is the common one.
pub data Edit : Type 0 where
  define : (assignment_index : ℕ) → (line : String) → Edit
  prepend : (scope : ℕ) → (line : String) → Edit

-- `*(onePastCommonAncestor - 1)`
abbrev pub ancestor : List ℕ → (count : ℕ) → Option ℕ
ancestor ps zero = none
ancestor [] (suc n) = none
ancestor (p ∷ ps) (suc zero) = some p
ancestor (p ∷ ps) (suc (suc n)) = ancestor ps (suc n)

abbrev pub prepend_to : String → Option ℕ → Option Edit
prepend_to text none = none
prepend_to text (some s) = some (prepend s text)

abbrev pub edit_of : String → Place → Option Assignment → Option Edit
edit_of declaration p none = prepend_to (declaration ++ ";") (ancestor p.parents p.count)
edit_of declaration p (some a) =
    if p.count == length p.parents
    then some (define a.index (declaration ++ " = " ++ a.value))
    else prepend_to (declaration ++ ";") (ancestor p.parents p.count)

abbrev pub edit_at : String → Option Assignment → Option Place → Option Edit
edit_at declaration a none = none
edit_at declaration a (some p) = edit_of declaration p a

-- one round of the loop over the variables
unfoldable pub insert_declaration :
    (ℕ → String) → ExpressionType → (variable : String) → List User → Option Edit
unfolding place declare
insert_declaration show t variable users =
    edit_at (declare show t variable) (first_assignment variable users) (place variable users)

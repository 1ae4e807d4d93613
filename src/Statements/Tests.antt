-- ===== src/Statements/Tests.antt =====
-- The list 100 of the statements 1 and 2, the list 200 of the statements 3 and 4, and a free one.
use fcd.Base.{ℕ, ◌≡◌, ◌≢◌, refl, Option, none, some, List, [], ◌∷◌, ◌==◌, if◌then◌else◌, arith}
use fcd.Statements.Defs.{
  push_back, push_front, push_back_list, push_front_list, move_construct, Statement, Store,
  new_statement, new_list, insert, erase_at, insert_list,
}
use fcd.Statements.Chain.{IsList}
use fcd.Statements.Relink.{Keeps}
use fcd.Statements.Insert.{insert-IsList}
use fcd.Statements.Erase.{erase_at-IsList}
use fcd.Statements.Push.{push_back-IsList, push_front-IsList}
use fcd.Statements.Concat.{push_back_list-IsList}
use fcd.Statements.Splice.{insert_list-IsList}
use fcd.Statements.Moves.{move_construct-IsList}
use fcd.Statements.Prepend.{MovesToFront, push_front_list-IsList}

abbrev placed : ℕ → (previous next : Option ℕ) → Statement
placed l p n = record { list = some l; previous = p; next = n }

abbrev store : Store
store = record {
  statement_at = λ x.
      if x == 1
      then placed 100 none (some 2)
      else if x == 2
      then placed 100 (some 1) none
      else if x == 3
      then placed 200 none (some 4)
      else if x == 4
      then placed 200 (some 3) none
      else new_statement;
  list_at = λ l.
      if l == 100
      then record { first = some 1; last = some 2 }
      else if l == 200
      then record { first = some 3; last = some 4 }
      else new_list;
}

one_two : IsList store 100 (1 ∷ 2 ∷ [])
one_two = (refl, (refl, (refl, tt)), ((λ e. omega arith, tt), (tt, tt)))

three_four : IsList store 200 (3 ∷ 4 ∷ [])
three_four = (refl, (refl, (refl, tt)), ((λ e. omega arith, tt), (tt, tt)))

insert-IsList_example :
    (g : Store) × (insert 100 (some 2) 5 store ≡ some g)
    × IsList g 100 (1 ∷ 5 ∷ 2 ∷ [])
    × Keeps store g 100
insert-IsList_example = insert-IsList store 100 5 (1 ∷ []) (2 ∷ []) one_two refl

erase_at-IsList_example :
    ((erase_at 100 1 store).0 ≡ some 2)
    × IsList (erase_at 100 1 store).1 100 (2 ∷ [])
    × ((erase_at 100 1 store).1.statement_at 1 ≡ new_statement)
    × Keeps store (erase_at 100 1 store).1 100
erase_at-IsList_example = erase_at-IsList store 100 1 [] (2 ∷ []) one_two

insert_list-IsList_example :
    (g : Store) × (insert_list 2 100 (some 2) 200 store ≡ some g)
    × IsList g 100 (1 ∷ 3 ∷ 4 ∷ 2 ∷ [])
    × IsList g 200 []
    × ((m : ℕ) (us : List ℕ) → m ≢ 100 → m ≢ 200 → IsList store m us → IsList g m us)
insert_list-IsList_example =
    insert_list-IsList store 2 100 200 (1 ∷ []) (2 ∷ []) (3 ∷ 4 ∷ []) (λ e. omega arith)
      (omega arith) one_two three_four

-- pushing the free statement, and the second list, to the end of the first list
push_back-one_two :
    (g : Store) × (push_back 100 5 store ≡ some g)
    × IsList g 100 (1 ∷ 2 ∷ 5 ∷ [])
    × Keeps store g 100
push_back-one_two = push_back-IsList store 100 5 (1 ∷ 2 ∷ []) one_two refl

push_front-one_two :
    (g : Store) × (push_front 100 5 store ≡ some g)
    × IsList g 100 (5 ∷ 1 ∷ 2 ∷ [])
    × Keeps store g 100
push_front-one_two = push_front-IsList store 100 5 (1 ∷ 2 ∷ []) one_two refl

push_back_list-one_two :
    (g : Store) × (push_back_list 2 100 200 store ≡ some g)
    × IsList g 100 (1 ∷ 2 ∷ 3 ∷ 4 ∷ [])
    × IsList g 200 []
    × ((m : ℕ) (us : List ℕ) → m ≢ 100 → m ≢ 200 → IsList store m us → IsList g m us)
push_back_list-one_two =
    push_back_list-IsList store 2 100 200 (1 ∷ 2 ∷ []) (3 ∷ 4 ∷ []) (λ e. omega arith) (omega arith)
      one_two three_four

push_front_list-IsList_example :
    MovesToFront store (push_front_list 2 100 200 store) 100 200 (1 ∷ 2 ∷ []) (3 ∷ 4 ∷ [])
push_front_list-IsList_example =
    push_front_list-IsList store 2 100 200 (1 ∷ 2 ∷ []) (3 ∷ 4 ∷ []) (λ e. omega arith)
      (omega arith) one_two three_four

move_construct-IsList_example :
    (g : Store) × (move_construct 2 300 200 store ≡ some g)
    × IsList g 300 (3 ∷ 4 ∷ [])
    × IsList g 200 []
    × ((m : ℕ) (us : List ℕ) → m ≢ 300 → m ≢ 200 → IsList store m us → IsList g m us)
move_construct-IsList_example =
    move_construct-IsList store 2 300 200 (3 ∷ 4 ∷ []) (λ e. omega arith) (omega arith) three_four

-- ===== src/Statements/Defs.antt =====
-- The statement lists of fcd/ast/statements.h and statements.cpp. Statements and lists are known by
-- their addresses, and a null pointer is `none`; a failed assertion or a null that is read is `none`.
use fcd.Base.{ℕ, zero, suc, Bool, true, false, ◌&&◌, Option, none, some, ◌==◌, if◌then◌else◌}

pub record Statement : Type 0 where
  pub list : Option ℕ
  pub previous : Option ℕ
  pub next : Option ℕ

pub record StatementList : Type 0 where
  pub first : Option ℕ
  pub last : Option ℕ

pub record Store : Type 0 where
  pub statement_at : ℕ → Statement
  pub list_at : ℕ → StatementList

-- as the constructors make them
abbrev pub new_statement : Statement
new_statement = record { list = none; previous = none; next = none }

abbrev pub new_list : StatementList
new_list = record { first = none; last = none }

abbrev pub updated {ℓ} : {A : Type ℓ} → (ℕ → A) → ℕ → A → ℕ → A
updated f a v x = if x == a then v else f x

abbrev pub write_statement : ℕ → Statement → Store → Store
write_statement s v h = record h { statement_at = updated h.statement_at s v }

abbrev pub set_previous : ℕ → Option ℕ → Store → Store
set_previous s p h = write_statement s (record (h.statement_at s) { previous = p }) h

abbrev pub set_next : ℕ → Option ℕ → Store → Store
set_next s n h = write_statement s (record (h.statement_at s) { next = n }) h

abbrev pub set_list : ℕ → Option ℕ → Store → Store
set_list s l h = write_statement s (record (h.statement_at s) { list = l }) h

abbrev pub set_first : ℕ → Option ℕ → Store → Store
set_first l s h = record h { list_at = updated h.list_at l (record (h.list_at l) { first = s }) }

abbrev pub set_last : ℕ → Option ℕ → Store → Store
set_last l s h = record h { list_at = updated h.list_at l (record (h.list_at l) { last = s }) }

abbrev pub is_null : Option ℕ → Bool
is_null none = true
is_null (some _) = false

-- `(p == nullptr ? first : p->next) = n` and its mirror image
abbrev pub set_first_or_next : ℕ → (p n : Option ℕ) → Store → Store
set_first_or_next l none n h = set_first l n h
set_first_or_next l (some p) n h = set_next p n h

abbrev pub set_last_or_previous : ℕ → (n p : Option ℕ) → Store → Store
set_last_or_previous l none p h = set_last l p h
set_last_or_previous l (some n) p h = set_previous n p h

-- after the last statement, if there is one
abbrev pub insert_after : (last : Option ℕ) → ℕ → (s : ℕ) → Store → Store
insert_after none l s h = set_last l (some s) (set_first l (some s) h)
insert_after (some old) l s h =
    set_last l (some s) (set_next old (some s) (set_previous s (some old) h))

-- before the statement `n`, between it and the previous one or else before the first of the list
abbrev pub insert_before : (prev first : Option ℕ) → ℕ → (n s : ℕ) → Store → Option Store
insert_before (some p) first l n s h = some (
    set_next s (some n) (set_previous s (some p) (set_previous n (some s) (set_next p (some s) h))))
insert_before none none l n s h = none
insert_before none (some f) l n s h =
    some (set_first l (some s) (set_next s (some f) (set_previous f (some s) h)))

abbrev pub put_at : ℕ → (at : Option ℕ) → (s : ℕ) → Store → Option Store
put_at l none s h = some (insert_after (h.list_at l).last l s h)
put_at l (some n) s h = insert_before (h.statement_at n).previous (h.list_at l).first l n s h

abbrev pub joined : ℕ → (s : ℕ) → Option Store → Option Store
joined l s none = none
joined l s (some h) = some (set_list s (some l) h)

-- `insert(iterator, Statement)` of the list `l`
unfoldable pub insert : ℕ → (at : Option ℕ) → (s : ℕ) → Store → Option Store
insert l at s h = if is_null (h.statement_at s).list then joined l s (put_at l at s h) else none

-- the statement leaves the place between its two neighbours
abbrev pub erase_between : ℕ → (s : ℕ) → (old_prev old_next : Option ℕ) → Store → Store
erase_between l s old_prev old_next h =
    write_statement s new_statement
      (set_last_or_previous l old_next old_prev (set_first_or_next l old_prev old_next h))

-- `erase(iterator)`: the statement after the erased one
unfoldable pub erase_at : ℕ → (s : ℕ) → Store → Option ℕ × Store
erase_at l s h =
    let old_next = (h.statement_at s).next in
    (old_next, erase_between l s (h.statement_at s).previous old_next h)

-- the static `erase`
unfoldable pub erase : (s : ℕ) → Store → Store
unfolding erase_at
erase s h = elim (h.statement_at s).list [ none ↦ h | some l ↦ (erase_at l s h).1 ]

unfoldable pub pop_front : ℕ → Store → Option (ℕ × Store)
pop_front l h = elim (h.list_at l).first [
  | none ↦ none
  | some s ↦
      let n = (h.statement_at s).next in
      some (s, write_statement s new_statement (set_last_or_previous l n none (set_first l n h)))
]

unfoldable pub pop_back : ℕ → Store → Option (ℕ × Store)
pop_back l h = elim (h.list_at l).last [
  | none ↦ none
  | some s ↦
      let p = (h.statement_at s).previous in
      some (s, write_statement s new_statement (set_first_or_next l p none (set_last l p h)))
]

-- what is asserted of a statement that is pushed
abbrev pub is_free : Statement → Bool
is_free v = is_null v.list && (is_null v.previous && is_null v.next)

abbrev pub push_after : (last : Option ℕ) → ℕ → (s : ℕ) → Store → Store
push_after none l s h = set_last l (some s) (set_first l (some s) (set_list s (some l) h))
push_after (some old) l s h =
    set_last l (some s) (set_previous s (some old) (set_next old (some s) (set_list s (some l) h)))

unfoldable pub push_back : ℕ → (s : ℕ) → Store → Option Store
push_back l s h =
    if is_free (h.statement_at s) then some (push_after (h.list_at l).last l s h) else none

abbrev pub push_before : (first : Option ℕ) → ℕ → (s : ℕ) → Store → Store
push_before none l s h = set_first l (some s) (set_last l (some s) (set_list s (some l) h))
push_before (some old) l s h =
    set_first l (some s) (set_next s (some old) (set_previous old (some s) (set_list s (some l) h)))

unfoldable pub push_front : ℕ → (s : ℕ) → Store → Option Store
push_front l s h =
    if is_free (h.statement_at s) then some (push_before (h.list_at l).first l s h) else none

-- `insert(iterator, StatementList&&)`, a loop over the statements of `from`
unfoldable pub insert_list : (rounds : ℕ) → ℕ → (at : Option ℕ) → (from : ℕ) → Store → Option Store
unfolding insert erase
insert_list zero l at from h = if is_null (h.list_at from).first then some h else none
insert_list (suc n) l at from h = elim (h.list_at from).first [
  | none ↦ some h
  | some s ↦ elim (insert l at s (erase s h)) [ none ↦ none | some g ↦ insert_list n l at from g ]
]

abbrev pub pushed : ℕ → Option (ℕ × Store) → Option Store
unfolding push_back
pushed l none = none
pushed l (some (s, h)) = push_back l s h

-- `push_back(StatementList&&)`, a loop over the statements of `from`
unfoldable pub push_back_list : (rounds : ℕ) → ℕ → (from : ℕ) → Store → Option Store
unfolding pop_front push_back
push_back_list zero l from h = if is_null (h.list_at from).first then some h else none
push_back_list (suc n) l from h = elim (h.list_at from).first [
  | none ↦ some h
  | some _ ↦ elim (pushed l (pop_front from h)) [ none ↦ none | some g ↦ push_back_list n l from g ]
]

abbrev pub pushed_front : ℕ → Option (ℕ × Store) → Option Store
unfolding push_front
pushed_front l none = none
pushed_front l (some (s, h)) = push_front l s h

-- `push_front(StatementList&&)`, a loop over the statements of `from`
unfoldable pub push_front_list : (rounds : ℕ) → ℕ → (from : ℕ) → Store → Option Store
unfolding pop_back push_front
push_front_list zero l from h = if is_null (h.list_at from).first then some h else none
push_front_list (suc n) l from h = elim (h.list_at from).first [
  | none ↦ some h
  | some _ ↦ elim (pushed_front l (pop_back from h)) [
    | none ↦ none
    | some g ↦ push_front_list n l from g
  ]
]

-- the statements from `at` on come to stand in the list `l`
abbrev pub relist : (rounds : ℕ) → ℕ → (at : Option ℕ) → Store → Option Store
relist rounds l none h = some h
relist zero l (some s) h = none
relist (suc n) l (some s) h = let g = set_list s (some l) h in relist n l (g.statement_at s).next g

-- the list `l` becomes what the list `from` is, which loses its statements
abbrev pub take_ends : ℕ → (from : ℕ) → Store → Store
take_ends l from h =
    let v = h.list_at from in
    set_last from none (set_first from none (set_last l v.last (set_first l v.first h)))

-- the constructor from another list
unfoldable pub move_construct : (rounds : ℕ) → ℕ → (from : ℕ) → Store → Option Store
move_construct rounds l from h = let g = take_ends l from h in relist rounds l (g.list_at l).first g

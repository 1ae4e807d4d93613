-- ===== src/Statements/Moves.antt =====
-- A list that is constructed from another one takes its statements.
use fcd.Base.{
  ℕ, zero, suc, ◌≤◌, ◌≡◌, ◌≢◌, refl, sym, ap, ◌∙◌, true, false, Option, none, some, List, [], ◌∷◌,
  length, arith, All-map, ==_refl, ◌==◌,
}
use fcd.Statements.Defs.{
  Statement, StatementList, Store, set_list, relist, take_ends, move_construct,
}
use fcd.Statements.Chain.{head_or, Chain, Chain-frame, Absent, Distinct, IsList}
use fcd.Statements.Relink.{Chain-lists, Chain-Absent}

abbrev in_list : ℕ → Statement → Statement
in_list l v = record v { list = some l }

-- What the loop leaves: the statements stand in the new list, and nothing else changes.
record Relisted (h : Store) (r : Option Store) (l : ℕ) (before : Option ℕ) (zs : List ℕ)
    : Type 0 where
  result : Store
  returned : r ≡ some result
  chain : Chain result l before zs none
  other_statements : (x : ℕ) → Absent x zs → result.statement_at x ≡ h.statement_at x
  lists : (m : ℕ) → result.list_at m ≡ h.list_at m

relist-Relisted :
    (h : Store) (rounds l from : ℕ) (before : Option ℕ) (zs : List ℕ)
    → length zs ≤ rounds
    → Chain h from before zs none
    → Distinct zs
    → Relisted h (relist rounds l (head_or zs none) h) l before zs
relist-Relisted h rounds l from before [] enough chain distinct = record {
  result = h;
  returned = refl;
  chain = tt;
  other_statements = λ x a. refl;
  lists = λ m. refl;
}
relist-Relisted h zero l from before (z ∷ zs) enough chain distinct = absurd (omega arith)
relist-Relisted h (suc n) l from before (z ∷ zs) enough chain distinct =
    let g = set_list z (some l) h in
    let here : (z == z) ≡ true = ==_refl z in
    let now : g.statement_at z
        ≡ record { list = some l; previous = before; next = head_or zs none } =
      rw here (ap (in_list l) chain.0) in
    let untouched : (x : ℕ) → z ≢ x → g.statement_at x ≡ h.statement_at x =
      λ x e. let no : (x == z) ≡ false = ground arith in rw no refl in
    let rest =
      relist-Relisted g n l from (some z) zs (omega arith)
        (Chain-frame h g from (some z) zs none
          (All-map _ _ zs (λ x e. untouched x (λ q. e (sym q))) distinct.0) chain.1)
        distinct.1 in
    let next : (g.statement_at z).next ≡ head_or zs none = ap (λ (v : Statement). v.next) now in
    record {
      result = rest.result;
      returned = ap (λ o. relist n l o g) next ∙ rest.returned;
      chain = (rest.other_statements z distinct.0 ∙ now, rest.chain);
      other_statements = λ x a. rest.other_statements x a.1 ∙ untouched x a.0;
      lists = rest.lists;
    }

-- A list that is constructed from another one has its statements, in their order, and the other one
-- is empty; the loop ends after as many rounds as there are statements, and the lists besides the
-- two stay as they are.
pub move_construct-IsList :
    (h : Store) (rounds l from : ℕ) (zs : List ℕ)
    → l ≢ from
    → length zs ≤ rounds
    → IsList h from zs
    → (g : Store) × (move_construct rounds l from h ≡ some g)
      × IsList g l zs
      × IsList g from []
      × ((m : ℕ) (us : List ℕ) → m ≢ l → m ≢ from → IsList h m us → IsList g m us)
unfolding move_construct
move_construct-IsList h rounds l from zs apart enough (ends, chain, distinct) =
    let start = take_ends l from h in
    let this : (l == l) ≡ true = ==_refl l in
    let that : (from == from) ≡ true = ==_refl from in
    let not_that : (l == from) ≡ false = ground arith in
    let new_ends : start.list_at l ≡ h.list_at from = ground arith in
    let no_ends : start.list_at from ≡ record { first = none; last = none } = ground arith in
    let same : (m : ℕ) → m ≢ l → m ≢ from → start.list_at m ≡ h.list_at m = λ m p q. ground arith in
    let first : (start.list_at l).first ≡ head_or zs none =
      ap (λ (v : StatementList). v.first) (new_ends ∙ ends) in
    let r = relist-Relisted start rounds l from none zs enough chain distinct in
    let absent : (x m : ℕ) → m ≢ from → (h.statement_at x).list ≡ some m → Absent x zs =
      λ x m q listed. Chain-Absent h from none zs none x (λ e. q (cc)) chain in
    (
      r.result,
      ap (λ o. relist rounds l o start) first ∙ r.returned,
      (r.lists l ∙ new_ends ∙ ends, r.chain, distinct),
      (r.lists from ∙ no_ends, tt, tt),
      λ m us p q k. (
        r.lists m ∙ same m p q ∙ k.0,
        Chain-frame h r.result m none us none
            (All-map _ _ us (λ x listed. r.other_statements x (absent x m q listed))
              (Chain-lists h m none us none k.1))
            k.1,
        k.2,
      ),
    )

-- ===== src/Liveness/Ranges.antt =====
-- The numbers of statements are those of the tree's preorder.
use mathlib.Core.List.{append_assoc, append-nil}
use fcd.Base.{
  ℕ, zero, suc, ◌+◌, ◌≡◌, refl, sym, ap, ◌∙◌, some, List, [], ◌∷◌, ◌++◌, length, length-append,
  get_elem?, All, All-append, All-map, arith,
}
use fcd.Expr.Defs.{Expression}
use fcd.Combine.Tree.{
  Statement, Statements, expr, keyword, if_else, loop, nil, cons, size, statement_size,
}
use fcd.Liveness.Indices.{
  Use, with_assignments, Range, Analysis, new_analysis, start_statement, end_statement,
  add_memory_operation, collect_statement_indices, collect_statement,
}

-- The statements of a tree, each ahead of the ones inside it.
unfoldable mutual
  pub preorder : Statements → List Statement
  preorder nil = []
  preorder (cons x s) = x ∷ (inside x ++ preorder s)

  pub inside : Statement → List Statement
  inside (expr e) = []
  inside (keyword n o) = []
  inside (if_else c s t) = preorder s ++ preorder t
  inside (loop c p s) = preorder s

mutual
  unfolding preorder size

  length-preorder : (s : Statements) → length (preorder s) ≡ size s
  length-preorder nil = refl
  length-preorder (cons x s) =
      let here = length-inside x in
      let rest = length-preorder s in omega (arith, length-append (inside x) (preorder s))

  length-inside : (x : Statement) → suc (length (inside x)) ≡ statement_size x
  length-inside (expr e) = refl
  length-inside (keyword n o) = refl
  length-inside (if_else c s t) =
      let first = length-preorder s in
      let second = length-preorder t in omega (arith, length-append (preorder s) (preorder t))
  length-inside (loop c p s) = ap suc (length-preorder s)

-- The statement has the number of its start, and its range is as long as there are statements in it.
abbrev pub IsRange : List Statement → Range → Type 0
IsRange flat r =
    (get_elem? flat r.start ≡ some r.statement) × (r.end ≡ r.start + statement_size r.statement)

abbrev pub IsExpr : List Statement → ℕ → Type 0
IsExpr flat i = (e : Expression) × (get_elem? flat i ≡ some (expr e))

get_elem?-append :
    (xs ys : List Statement) (i : ℕ) (x : Statement)
    → get_elem? xs i ≡ some x
    → get_elem? (xs ++ ys) i ≡ some x
get_elem?-append [] ys i x h = cc
get_elem?-append (z ∷ xs) ys zero x h = h
get_elem?-append (z ∷ xs) ys (suc i) x h = get_elem?-append xs ys i x h

get_elem?-last :
    (xs ys : List Statement) (x : Statement) → get_elem? (xs ++ x ∷ ys) (length xs) ≡ some x
get_elem?-last [] ys x = refl
get_elem?-last (z ∷ xs) ys x = get_elem?-last xs ys x

-- What holds of the analysis all the time.
pub record IsNumbered (a : Analysis) : Type 0 where
  pub ranges_numbered : All (IsRange a.flat_statements) a.ranges
  pub memory_numbered : All (IsExpr a.flat_statements) a.memory_operations

-- what a step adds to the flat statements
pub record Adds (a b : Analysis) (xs : List Statement) : Type 0 where
  pub numbered : IsNumbered b
  pub flat_added : b.flat_statements ≡ a.flat_statements ++ xs

start-IsNumbered : (x : Statement) (a : Analysis) → IsNumbered a → IsNumbered (start_statement x a)
start-IsNumbered x a h = record {
  ranges_numbered =
      All-map (IsRange a.flat_statements) _ a.ranges
        (λ r k. (get_elem?-append a.flat_statements (x ∷ []) r.start r.statement k.0, k.1))
        h.ranges_numbered;
  memory_numbered =
      All-map (IsExpr a.flat_statements) _ a.memory_operations
        (λ i k. (k.0, get_elem?-append a.flat_statements (x ∷ []) i (expr k.0) k.1))
        h.memory_numbered;
}

end-Adds :
    (x : Statement) (a b : Analysis)
    → Adds (start_statement x a) b (inside x)
    → Adds a (end_statement x (length a.flat_statements) b) (x ∷ inside x)
end-Adds x a b h =
    let flat : b.flat_statements ≡ a.flat_statements ++ x ∷ inside x =
      h.flat_added ∙ append_assoc a.flat_statements (x ∷ []) (inside x) in
    record {
      numbered = record {
        ranges_numbered =
            All-append (IsRange b.flat_statements) b.ranges _ h.numbered.ranges_numbered (
              (
                ap (λ (l : List Statement). get_elem? l (length a.flat_statements)) flat
                    ∙ get_elem?-last a.flat_statements (inside x) x,
                ap length flat
                    ∙ length-append a.flat_statements (x ∷ inside x)
                    ∙ ap (λ n. length a.flat_statements + n) (length-inside x),
              ),
              tt,
            );
        memory_numbered = h.numbered.memory_numbered;
      };
      flat_added = flat;
    }

Adds-none : (a : Analysis) → IsNumbered a → Adds a a []
Adds-none a h = record { numbered = h; flat_added = sym (append-nil a.flat_statements) }

Adds-trans :
    (a b c : Analysis) (xs ys : List Statement) → Adds a b xs → Adds b c ys → Adds a c (xs ++ ys)
Adds-trans a b c xs ys h k = record {
  numbered = k.numbered;
  flat_added =
      k.flat_added
      ∙ ap (λ (l : List Statement). l ++ ys) h.flat_added
      ∙ append_assoc a.flat_statements xs ys;
}

memory-Adds :
    (uses : ℕ → List Use) (e : Expression) (a : Analysis)
    → IsNumbered a
    → Adds
        (start_statement (expr e) a)
        (add_memory_operation
          (length a.flat_statements)
          (with_assignments uses e (start_statement (expr e) a)))
        []
unfolding with_assignments
memory-Adds uses e a h =
    let started = start-IsNumbered (expr e) a h in
    record {
      numbered = record {
        ranges_numbered = started.ranges_numbered;
        memory_numbered =
            All-append (IsExpr (a.flat_statements ++ expr e ∷ [])) a.memory_operations _
              started.memory_numbered ((e, get_elem?-last a.flat_statements [] (expr e)), tt);
      };
      flat_added = sym (append-nil (a.flat_statements ++ expr e ∷ []));
    }

module _ (uses : ℕ → List Use) where
  mutual
    unfolding collect_statement_indices preorder

    collect-Adds :
        (s : Statements) (a : Analysis)
        → IsNumbered a
        → Adds a (collect_statement_indices uses s a) (preorder s)
    collect-Adds nil a h = Adds-none a h
    collect-Adds (cons x s) a h =
        let here = collect_statement-Adds x a h in
        Adds-trans a (collect_statement uses x a) _ (x ∷ inside x) (preorder s) here
          (collect-Adds s (collect_statement uses x a) here.numbered)

    collect_statement-Adds :
        (x : Statement) (a : Analysis)
        → IsNumbered a
        → Adds a (collect_statement uses x a) (x ∷ inside x)
    collect_statement-Adds (expr e) a h = end-Adds (expr e) a _ (memory-Adds uses e a h)
    collect_statement-Adds (keyword n o) a h =
        end-Adds (keyword n o) a _ (Adds-none _ (start-IsNumbered (keyword n o) a h))
    collect_statement-Adds (if_else c s t) a h =
        let x = if_else c s t in
        let first = collect-Adds s (start_statement x a) (start-IsNumbered x a h) in
        end-Adds x a _
          (Adds-trans _ _ _ (preorder s) (preorder t) first (collect-Adds t _ first.numbered))
    collect_statement-Adds (loop c p s) a h =
        let x = loop c p s in
        end-Adds x a _ (collect-Adds s (start_statement x a) (start-IsNumbered x a h))

  -- `collectStatementIndices` numbers the statements of a function in the order of its text, each
  -- ahead of the ones inside it. Each range that it records begins at the number of its statement and
  -- is as long as there are statements in it, and each memory operation is an expression statement.
  pub collect_statement_indices-preorder :
      (s : Statements)
      → ((collect_statement_indices uses s new_analysis).flat_statements ≡ preorder s)
        × IsNumbered (collect_statement_indices uses s new_analysis)
  collect_statement_indices-preorder s =
      let h = collect-Adds s new_analysis (record { ranges_numbered = tt; memory_numbered = tt }) in
      (h.flat_added, h.numbered)

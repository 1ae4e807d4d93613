-- ===== src/Simplify/Terms.antt =====
-- `collectExpressionTerms` and `removeIdenticalTerms` of fcd/ast/pass_simplifyexpressions.cpp. They
-- compare pointers, and change no expression: the result is new or one of the old ones.
use fcd.Base.{
  ℕ, ◌+◌, Bool, false, ◌||◌, Option, none, some, List, [], ◌∷◌, ◌++◌, ◌==◌, if◌then◌else◌,
}
use fcd.Expr.Defs.{
  NAryOperator, short_circuit_and, short_circuit_or, nary_code, nary, Expression, Operands, node,
  nil, cons, address,
}
use fcd.Expr.Negate.{Constants, negate, count_negation_depth}

pub record Terms : Type 0 where
  pub true_terms : List Expression
  pub false_terms : List Expression

-- `find` over pointers
abbrev pub has : ℕ → List Expression → Bool
has p [] = false
has p (e ∷ es) = address e == p || has p es

abbrev pub push_absent : Expression → List Expression → List Expression
push_absent e es = if has (address e) es then es else es ++ e ∷ []

abbrev pub add_term : Expression → Terms → Terms
add_term e t =
    let n = count_negation_depth e in
    if n.is_negated
    then record t { false_terms = push_absent n.canonical t.false_terms }
    else record t { true_terms = push_absent n.canonical t.true_terms }

abbrev pub same_operator : NAryOperator → NAryOperator → Bool
same_operator a b = nary_code a == nary_code b

unfoldable mutual
  pub collect_expression_terms : NAryOperator → Operands → Terms → Terms
  collect_expression_terms op nil t = t
  collect_expression_terms op (cons e es) t = collect_expression_terms op es (collect_term op e t)

  -- Operands of the same operator are flattened.
  pub collect_term : NAryOperator → Expression → Terms → Terms
  collect_term op (node p (nary op') es) t =
      let inner = collect_expression_terms op es t in
      if same_operator op' op then inner else add_term (node p (nary op') es) t
  collect_term op e t = add_term e t

-- A loop over the terms returns one of the constants, or keeps some expressions.
pub data Removal : Type 0 where
  returned : Expression → Removal
  kept : List Expression → Removal

abbrev pub keep : Expression → Removal → Removal
keep e (returned r) = returned r
keep e (kept es) = kept (e ∷ es)

abbrev pub is_or : NAryOperator → Bool
is_or op = same_operator op short_circuit_or

abbrev pub is_and : NAryOperator → Bool
is_and op = same_operator op short_circuit_and

-- `fresh` is the address of the first negation that is made.
unfoldable pub keep_false_terms :
    Constants
    → NAryOperator
    → (true_terms : List Expression) → (fresh : ℕ) → List Expression
    → Removal
keep_false_terms c op ts fresh [] = kept []
keep_false_terms c op ts fresh (f ∷ fs) =
    let rest = keep_false_terms c op ts (fresh + 1) fs in
    if has (address f) ts
    then returned (if is_or op then c.expression_for_true else c.expression_for_false)
    else if address f == address c.expression_for_true
    then (if is_and op then returned c.expression_for_false else rest)
    else if address f == address c.expression_for_false
    then (if is_or op then returned c.expression_for_true else rest)
    else keep (negate c fresh f) rest

unfoldable pub keep_true_terms : Constants → NAryOperator → List Expression → Removal
keep_true_terms c op [] = kept []
keep_true_terms c op (t ∷ ts) =
    let rest = keep_true_terms c op ts in
    if address t == address c.expression_for_true
    then (if is_or op then returned c.expression_for_true else rest)
    else if address t == address c.expression_for_false
    then (if is_and op then returned c.expression_for_false else rest)
    else keep t rest

abbrev pub to_operands : List Expression → Operands
to_operands [] = nil
to_operands (e ∷ es) = cons e (to_operands es)

-- `ctx.nary(type, begin, end)` asserts that there is an operand.
abbrev pub nary_of : (fresh : ℕ) → NAryOperator → List Expression → Option Expression
nary_of fresh op [] = none
nary_of fresh op (e ∷ es) = some (node fresh (nary op) (to_operands (e ∷ es)))

-- The false terms first, then the true ones.
abbrev pub finish : (fresh : ℕ) → NAryOperator → Removal → Removal → Option Expression
finish fresh op (returned r) m = some r
finish fresh op (kept es) (returned r) = some r
finish fresh op (kept es) (kept fs) = nary_of fresh op (es ++ fs)

abbrev pub no_terms : Terms
no_terms = record { true_terms = []; false_terms = [] }

unfoldable pub removal : Constants → (fresh : ℕ) → NAryOperator → Terms → Option Expression
unfolding keep_false_terms keep_true_terms
removal c fresh op t =
    finish fresh op (keep_false_terms c op t.true_terms (fresh + 1) t.false_terms)
      (keep_true_terms c op t.true_terms)

-- `fresh` and what follows it are the addresses of the expressions that are made.
unfoldable pub remove_identical_terms : Constants → (fresh : ℕ) → Expression → Option Expression
unfolding collect_expression_terms removal
remove_identical_terms c fresh (node p (nary op) es) =
    if is_or op || is_and op
    then removal c fresh op (collect_expression_terms op es no_terms)
    else some (node p (nary op) es)
remove_identical_terms c fresh e = some e

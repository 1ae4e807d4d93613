-- ===== src/Simplify/Typing.antt =====
-- The local rewriting keeps the type of the expression.
use fcd.Base.{inl, inr, subst, sym, ◌∙◌, Option-cases, ℕ, zero, ◌≡◌, refl, ap, Option, none, some}
use fcd.Types.Defs.{ExpressionType}
use fcd.Expr.Defs.{
  UnaryOperator, address_of, dereference, logical_negate, smaller_than, greater_or_equal_to,
  greater_than, smaller_or_equal_to, equal, not_equal, bitwise_and, unary, nary, numeric, subscript,
  Expression, node, nil, cons,
}
use fcd.Expr.TypeOf.{then_type, unary_type, element_type, get_expression_type}
use fcd.Simplify.Local.{match_unary, flip_comparison, visit_unary_operator, visit_subscript}

negated_type : (t : Option ExpressionType) → then_type t (unary_type logical_negate) ≡ t
negated_type none = refl
negated_type (some t) = refl

address_type :
    (t : Option ExpressionType)
    → then_type (then_type t (unary_type address_of)) (unary_type dereference) ≡ t
address_type none = refl
address_type (some t) = refl

address_element :
    (t : Option ExpressionType) → then_type (then_type t (unary_type address_of)) element_type ≡ t
address_element none = refl
address_element (some t) = refl

module _ (type_at : ℕ → ExpressionType) where
  abbrev o_type : Option Expression → Option ExpressionType
  o_type none = none
  o_type (some e) = get_expression_type type_at e

  match_unary-negation :
      (e inner : Expression)
      → match_unary logical_negate e ≡ some inner
      → get_expression_type type_at e
        ≡ then_type (get_expression_type type_at inner) (unary_type logical_negate)
  unfolding match_unary get_expression_type
  match_unary-negation (node p (unary logical_negate) (cons e es)) inner h =
      ap (λ o. then_type (o_type o) (unary_type logical_negate)) h
  match_unary-negation (node p (unary _) (cons e es)) inner h = cc
  match_unary-negation (node p (unary _) nil) inner h = cc
  match_unary-negation (node p k es) inner h = cc

  match_unary-address :
      (e inner : Expression)
      → match_unary address_of e ≡ some inner
      → get_expression_type type_at e
        ≡ then_type (get_expression_type type_at inner) (unary_type address_of)
  unfolding match_unary get_expression_type
  match_unary-address (node p (unary address_of) (cons e es)) inner h =
      ap (λ o. then_type (o_type o) (unary_type address_of)) h
  match_unary-address (node p (unary _) (cons e es)) inner h = cc
  match_unary-address (node p (unary _) nil) inner h = cc
  match_unary-address (node p k es) inner h = cc

  flip_comparison-type :
      (fresh : ℕ) (e r : Expression)
      → flip_comparison fresh e ≡ some r
      → get_expression_type type_at r ≡ get_expression_type type_at e
  unfolding flip_comparison get_expression_type
  flip_comparison-type fresh (node p (nary smaller_than) (cons a (cons b nil))) r h =
      sym (ap o_type h)
  flip_comparison-type fresh (node p (nary greater_or_equal_to) (cons a (cons b nil))) r h =
      sym (ap o_type h)
  flip_comparison-type fresh (node p (nary greater_than) (cons a (cons b nil))) r h =
      sym (ap o_type h)
  flip_comparison-type fresh (node p (nary smaller_or_equal_to) (cons a (cons b nil))) r h =
      sym (ap o_type h)
  flip_comparison-type fresh (node p (nary equal) (cons a (cons b nil))) r h = sym (ap o_type h)
  flip_comparison-type fresh (node p (nary not_equal) (cons a (cons b nil))) r h = sym (ap o_type h)
  flip_comparison-type fresh (node p (nary bitwise_and) (cons a (cons b nil))) r h =
      sym (ap o_type h)
  flip_comparison-type fresh (node p (nary _) (cons a (cons b nil))) r h = cc
  flip_comparison-type fresh (node p (nary op) nil) r h = cc
  flip_comparison-type fresh (node p (nary op) (cons a nil)) r h = cc
  flip_comparison-type fresh (node p (nary op) (cons a (cons b (cons d es)))) r h = cc
  flip_comparison-type fresh (node p k es) r h = cc

  -- Where `visitUnaryOperator` replaces an operator on `e`, what it puts in has the type of the
  -- replaced expression.
  pub get_expression_type-visit_unary_operator :
      (fresh p : ℕ) (op : UnaryOperator) (e result : Expression)
      → visit_unary_operator fresh op e ≡ some result
      → get_expression_type type_at result
        ≡ get_expression_type type_at (node p (unary op) (cons e nil))
  unfolding visit_unary_operator get_expression_type
  get_expression_type-visit_unary_operator fresh p logical_negate e result h =
      let step : Option Expression → Type 0 =
        λ m. elim m [ some inner ↦ some inner | none ↦ flip_comparison fresh e ] ≡ some result in
      elim (Option-cases (match_unary logical_negate e)) [
        | inl q ↦ flip_comparison-type fresh e result (subst step q h) ∙ sym (negated_type _)
        | inr (inner, q) ↦
            let same : some inner ≡ some result = subst step q h in
            sym (ap o_type same)
            ∙ sym (negated_type _ ∙ match_unary-negation e inner q ∙ negated_type _)
      ]
  get_expression_type-visit_unary_operator fresh p dereference e result h =
      let x = match_unary-address e result h in
      sym (
        ap (λ t. then_type t (unary_type dereference)) x
        ∙ address_type (get_expression_type type_at result))
  get_expression_type-visit_unary_operator fresh p _ e result h = cc

  -- Where `visitSubscript` replaces `pointer[index]`, what it puts in has the type of the subscript.
  pub get_expression_type-visit_subscript :
      (p : ℕ) (base index result : Expression)
      → visit_subscript base index ≡ some result
      → get_expression_type type_at result
        ≡ get_expression_type type_at (node p subscript (cons base (cons index nil)))
  unfolding visit_subscript get_expression_type
  get_expression_type-visit_subscript p base (node q (numeric t zero) es) result h =
      let x = match_unary-address base result h in
      sym (
        ap (λ t. then_type t element_type) x ∙ address_element (get_expression_type type_at result))
  get_expression_type-visit_subscript p base _ result h = cc

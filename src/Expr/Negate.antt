-- ===== src/Expr/Negate.antt =====
-- `AstContext::negate` of fcd/ast/ast_context.cpp, and `countNegationDepth`, which
-- fcd/ast/pass_simplifyexpressions.cpp and pass_consecutivecombine.cpp both have.
use Prim.Native.String.{String}
use text.Mathlib.Text.{◌==◌ as str_eq}
use text.Mathlib.TextEquality.{eq_iff}
use fcd.Base.{
  ℕ, ◌≡◌, refl, sym, ◌∙◌, ap, inl, inr, Bool, Bool-cases, true, false, not, if◌then◌else◌,
}
use fcd.Expr.Defs.{logical_negate, unary, token, Expression, Operands, node, nil, cons}

-- The context's constants.
pub record Constants : Type 0 where
  pub expression_for_true : Expression
  pub expression_for_false : Expression

abbrev negation : ℕ → Expression → Expression
negation fresh e = node fresh (unary logical_negate) (cons e nil)

-- `fresh` is the address of the operator that `negate` may make. The operand is read without a
-- test, so a negation without one is left as it is here.
unfoldable pub negate : Constants → (fresh : ℕ) → Expression → Expression
negate c fresh (node p (unary logical_negate) (cons e es)) = e
negate c fresh (node p (token t s) es) =
    if str_eq s "true"
    then c.expression_for_false
    else if str_eq s "false"
    then c.expression_for_true
    else negation fresh (node p (token t s) es)
negate c fresh e = negation fresh e

-- The loop of `countNegationDepth`, from the flag so far.
unfoldable pub count_negations :
    Bool → Expression → record { canonical : Expression; is_negated : Bool }
count_negations negated (node p (unary logical_negate) (cons e es)) =
    count_negations (not negated) e
count_negations negated e = record { canonical = e; is_negated = negated }

unfoldable pub count_negation_depth :
    Expression → record { canonical : Expression; is_negated : Bool }
unfolding count_negations
count_negation_depth e = count_negations false e

-- A reading of expressions as conditions: `!` negates, and the tokens `true` and `false` are what
-- they say.
pub record IsReading (c : Constants) (truth : Expression → Bool) : Type 0 where
  pub negates :
      (p : ℕ) (e : Expression) (es : Operands)
      → truth (node p (unary logical_negate) (cons e es)) ≡ not (truth e)
  pub is_true : (p t : ℕ) (es : Operands) → truth (node p (token t "true") es) ≡ true
  pub is_false : (p t : ℕ) (es : Operands) → truth (node p (token t "false") es) ≡ false
  pub for_true : truth c.expression_for_true ≡ true
  pub for_false : truth c.expression_for_false ≡ false

not-not : (b : Bool) → not (not b) ≡ b
not-not true = refl
not-not false = refl

abbrev pub negate_if : Bool → Bool → Bool
negate_if true b = not b
negate_if false b = b

negate_if-not : (a b : Bool) → negate_if (not a) b ≡ negate_if a (not b)
negate_if-not true b = sym (not-not b)
negate_if-not false b = refl

module _ {c : Constants} {truth : Expression → Bool} (r : IsReading c truth) where
  token-truth :
      (fresh p t : ℕ) (s : String) (es : Operands)
      → truth (negate c fresh (node p (token t s) es)) ≡ not (truth (node p (token t s) es))
  unfolding negate
  token-truth fresh p t s es = elim (Bool-cases (str_eq s "true")) [
    | inl e ↦ rw ((eq_iff s "true").0 e) (r.for_false ∙ sym (ap not (r.is_true p t es)))
    | inr d ↦ rw d (elim (Bool-cases (str_eq s "false")) [
      | inl e ↦ rw ((eq_iff s "false").0 e) (r.for_true ∙ sym (ap not (r.is_false p t es)))
      | inr f ↦ rw f (r.negates fresh _ nil)
    ])
  ]

  -- For a reading that gives `!` and the constants their meaning, `negate` gives the opposite
  -- condition on each of its paths: a negation stripped, a constant exchanged, a new operator.
  pub truth-negate : (fresh : ℕ) (e : Expression) → truth (negate c fresh e) ≡ not (truth e)
  unfolding negate
  truth-negate fresh (node p (unary logical_negate) (cons e es)) =
      sym (not-not (truth e)) ∙ sym (ap not (r.negates p e es))
  truth-negate fresh (node p (token t s) es) = token-truth fresh p t s es
  truth-negate fresh e = r.negates fresh e nil

  count_negations-truth :
      (b : Bool) (e : Expression)
      → negate_if (count_negations b e).is_negated (truth (count_negations b e).canonical)
        ≡ negate_if b (truth e)
  unfolding count_negations
  count_negations-truth b (node p (unary logical_negate) (cons e es)) =
      count_negations-truth (not b) e
      ∙ negate_if-not b (truth e)
      ∙ sym (ap (negate_if b) (r.negates p e es))
  count_negations-truth b _ = refl

  -- For a reading that gives `!` its meaning, a condition is worth what its canonical form is, or
  -- the opposite where the flag says so.
  pub truth-count_negation_depth :
      (e : Expression)
      → truth e
        ≡ negate_if (count_negation_depth e).is_negated (truth (count_negation_depth e).canonical)
  unfolding count_negation_depth
  truth-count_negation_depth e = sym (count_negations-truth false e)

-- ===== src/Expr/Erase.antt =====
-- What `operator==` sees of an expression. `erase` forgets every address, the operator of an n-ary
-- expression, the types of tokens, numbers, casts, aggregates and assembly, and whether a variable
-- is addressable.
use Prim.Native.String.{String}
use text.Mathlib.TextEquality.{eq_iff}
use fcd.Base.{
  ℕ, suc, ◌≡◌, refl, ◌↔◌, ap, inl, inr, Bool, true, false, ◌&&◌, Option, some, arith, ◌==◌,
  Bool-cases,
}
use fcd.Expr.Defs.{
  UnaryOperator, add, unary_code, Kind, token, unary, nary, member_access, pointer_access, call,
  cast, numeric, ternary, aggregate, subscript, assembly, assignable, Expression, Operands, node,
  nil, cons, user_type, operands_size, arity_ok,
}
use fcd.Expr.Equality.{
  and_also, unwrap, same_unary, same_number, same_token, same_assembly, same_assignable,
  same_member, shape_check,
}

abbrev pub erase_kind : Kind → Kind
erase_kind (token t s) = token 0 s
erase_kind (nary op) = nary add
erase_kind (cast t) = cast 0
erase_kind (numeric t n) = numeric 0 n
erase_kind (aggregate t) = aggregate 0
erase_kind (assembly t s) = assembly 0 s
erase_kind (assignable t s b) = assignable t s false
erase_kind k = k

unfoldable mutual
  pub erase : Expression → Expression
  erase (node p k es) = node 0 (erase_kind k) (erase_operands es)

  pub erase_operands : Operands → Operands
  erase_operands nil = nil
  erase_operands (cons e es) = cons (erase e) (erase_operands es)

abbrev pub is_single : Kind → Operands → Bool
is_single (nary op) (cons e nil) = true
is_single k es = false

-- An expression in the store `at`, as its constructors make it, where no n-ary operator has a
-- single operand.
mutual
  pub data IsPlain (at : ℕ → Expression) : Expression → Type 0 where
    plain :
        {p : ℕ} {k : Kind} {es : Operands}
        → at p ≡ node p k es
        → arity_ok k (operands_size es) ≡ true
        → is_single k es ≡ false
        → ArePlain at es
        → IsPlain at (node p k es)

  pub data ArePlain (at : ℕ → Expression) : Operands → Type 0 where
    none_left : ArePlain at nil
    one_more :
        {e : Expression} {es : Operands} → IsPlain at e → ArePlain at es → ArePlain at (cons e es)

-- The test ends, and decides the statement.
abbrev pub Decides : Type 0 → Option Bool → Type 0
Decides P o = (r : Bool) × (o ≡ some r) × ((r ≡ true) ↔ P)

pub Decides-and :
    {P Q : Type 0} (m n : Option Bool)
    → Decides P m
    → (P → Decides Q n)
    → Decides (P × Q) (and_also m n)
Decides-and m n (true, e, i) next =
    let (r, f, j) = next (i.0 refl) in (r, rw e f, (λ h. (i.0 refl, j.0 h), λ pq. j.1 pq.1))
Decides-and m n (false, e, i) next = (false, rw e, (λ h. cc, λ pq. i.1 pq.0))

pub Decides-iff : {P Q : Type 0} (m : Option Bool) → Decides P m → P ↔ Q → Decides Q m
Decides-iff m (r, e, i) j = (r, e, (λ h. j.0 (i.0 h), λ q. i.1 (j.1 q)))

pub unwrap_plain :
    (p : ℕ) (k : Kind) (es : Operands) → is_single k es ≡ false → unwrap (node p k es) ≡ node p k es
unfolding unwrap
unwrap_plain p (nary op) nil h = refl
unwrap_plain p (nary op) (cons e nil) h = cc
unwrap_plain p (nary op) (cons e (cons f fs)) h = refl
unwrap_plain p _ es h = refl

pub erase_operands-size :
    (es fs : Operands) → erase_operands es ≡ erase_operands fs → operands_size es ≡ operands_size fs
unfolding erase_operands operands_size
erase_operands-size nil nil h = refl
erase_operands-size nil (cons f fs) h = cc
erase_operands-size (cons e es) nil h = cc
erase_operands-size (cons e es) (cons f fs) h = ap suc (erase_operands-size es fs (cc))

pub node_iff :
    (p q : ℕ) (k l : Kind) (es fs : Operands)
    → (erase (node p k es) ≡ erase (node q l fs))
      ↔ ((erase_kind k ≡ erase_kind l) × (erase_operands es ≡ erase_operands fs))
unfolding erase
node_iff p q k l es fs = (λ h. (cc, cc), λ h. cc)

-- The shape test decides that the user types and the erased operands are the same.
pub shape-Decides :
    (k : Kind) (es : Operands) (l : Kind) (fs : Operands) (m : Option Bool)
    → (operands_size es ≡ operands_size fs → Decides (erase_operands es ≡ erase_operands fs) m)
    → Decides
        ((user_type k ≡ user_type l) × (erase_operands es ≡ erase_operands fs))
        (shape_check k es l fs m)
shape-Decides k es l fs m rest = elim (Bool-cases (user_type k == user_type l)) [
  | inr e ↦ rw e (false, refl, (λ h. cc, λ h. ground arith))
  | inl e ↦ elim (Bool-cases (operands_size es == operands_size fs)) [
    | inr d ↦ rw (e, d) (false, refl, (λ h. cc, λ h. ground (arith, erase_operands-size es fs h.1)))
    | inl d ↦
        rw (e, d)
          (let (r, f, i) = rest (ground arith) in
            (r, f, (λ h. (ground arith, i.0 h), λ h. i.1 h.1)))
  ]
]

-- The kinds that `operator==` tells apart by their user type alone.
abbrev pub is_shape : Kind → Bool
is_shape (nary op) = true
is_shape call = true
is_shape (cast t) = true
is_shape ternary = true
is_shape (aggregate t) = true
is_shape subscript = true
is_shape _ = false

pub shape_iff :
    (k l : Kind) → is_shape k ≡ true → (user_type k ≡ user_type l) ↔ (erase_kind k ≡ erase_kind l)
shape_iff (nary op) l h = (λ e. ground arith, λ e. ground arith)
shape_iff call l h = (λ e. ground arith, λ e. ground arith)
shape_iff (cast t) l h = (λ e. ground arith, λ e. ground arith)
shape_iff ternary l h = (λ e. ground arith, λ e. ground arith)
shape_iff (aggregate t) l h = (λ e. ground arith, λ e. ground arith)
shape_iff subscript l h = (λ e. ground arith, λ e. ground arith)
shape_iff _ l h = cc

pub token_iff :
    (t : ℕ) (s : String) (l : Kind)
    → (same_token s l ≡ true) ↔ (erase_kind (token t s) ≡ erase_kind l)
token_iff t s (token t' s') = (λ h. ap (token 0) ((eq_iff s s').0 h), λ h. (eq_iff s s').1 (cc))
token_iff t s _ = (λ h. cc, λ h. cc)

pub assembly_iff :
    (t : ℕ) (s : String) (l : Kind)
    → (same_assembly s l ≡ true) ↔ (erase_kind (assembly t s) ≡ erase_kind l)
assembly_iff t s (assembly t' s') =
    (λ h. ap (assembly 0) ((eq_iff s s').0 h), λ h. (eq_iff s s').1 (cc))
assembly_iff t s _ = (λ h. cc, λ h. cc)

pub number_iff :
    (t n : ℕ) (l : Kind) → (same_number n l ≡ true) ↔ (erase_kind (numeric t n) ≡ erase_kind l)
number_iff t n (numeric t' m) = (λ h. ground arith, λ h. ground arith)
number_iff t n _ = (λ h. cc, λ h. cc)

pub assignable_iff :
    (t : ℕ) (s : String) (b : Bool) (l : Kind)
    → (same_assignable t s l ≡ true) ↔ (erase_kind (assignable t s b) ≡ erase_kind l)
assignable_iff t s b (assignable t' s' b') =
    (λ h. ground (arith, eq_iff s s'), λ h. ground (arith, eq_iff s s'))
assignable_iff t s b _ = (λ h. cc, λ h. cc)

unary_code-inj : (a b : UnaryOperator) → unary_code a ≡ unary_code b → a ≡ b
unary_code-inj a b h = ground arith

pub unary_iff :
    (op : UnaryOperator) (l : Kind)
    → (same_unary op l ≡ true) ↔ (erase_kind (unary op) ≡ erase_kind l)
unary_iff op (unary op') = (λ h. ap unary (unary_code-inj op op' (ground arith)), λ h. ground arith)
unary_iff op _ = (λ h. cc, λ h. cc)

pub member_iff :
    (s i : ℕ) (l : Kind)
    → user_type (member_access s i) ≡ user_type l
    → Decides (erase_kind (member_access s i) ≡ erase_kind l) (same_member s i l)
member_iff s i (member_access s' i') h =
    (i' == i && s' == s, refl, (λ e. ground arith, λ e. ground arith))
member_iff s i _ h = absurd (omega arith)

pub pointer_iff :
    (s i : ℕ) (l : Kind)
    → user_type (pointer_access s i) ≡ user_type l
    → Decides (erase_kind (pointer_access s i) ≡ erase_kind l) (same_member s i l)
pointer_iff s i (pointer_access s' i') h =
    (i' == i && s' == s, refl, (λ e. ground arith, λ e. ground arith))
pointer_iff s i _ h = absurd (omega arith)

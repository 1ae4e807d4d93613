-- ===== src/Expr/Exact.antt =====
-- `operator==` decides exactly whether two expressions have the same erased form.
use fcd.Base.{
  ℕ, zero, suc, ◌≡◌, refl, sym, ap, ◌∙◌, ◌↔◌, inl, inr, Bool, true, false, Option, some, arith,
  ◌==◌, Bool-cases, if◌then◌else◌,
}
use fcd.Expr.Defs.{
  UnaryOperator, Kind, token, unary, nary, member_access, pointer_access, call, cast, numeric,
  ternary, aggregate, subscript, assembly, assignable, Expression, Operands, node, nil, cons,
  user_type, operands_size, address, arity_ok,
}
use fcd.Expr.Equality.{
  and_also, same_unary, same_member, shape_check, equals, equals_operands, equals_operand,
}
use fcd.Expr.Erase.{
  erase_kind, erase, erase_operands, is_single, IsPlain, ArePlain, plain, none_left, one_more,
  Decides, Decides-and, Decides-iff, unwrap_plain, node_iff, shape-Decides, is_shape, shape_iff,
  token_iff, assembly_iff, number_iff, assignable_iff, unary_iff, member_iff, pointer_iff,
}

arity-erase_kind : (k : Kind) (n : ℕ) → arity_ok (erase_kind k) n ≡ arity_ok k n
arity-erase_kind (nary op) zero = refl
arity-erase_kind (nary op) (suc n) = refl
arity-erase_kind _ n = refl

same_arity : (k l : Kind) (n : ℕ) → erase_kind k ≡ erase_kind l → arity_ok k n ≡ arity_ok l n
same_arity k l n h =
    sym (arity-erase_kind k n) ∙ ap (λ (x : Kind). arity_ok x n) h ∙ arity-erase_kind l n

nil_of_size : (es : Operands) → operands_size es ≡ 0 → es ≡ nil
unfolding operands_size
nil_of_size nil h = refl
nil_of_size (cons e es) h = absurd (omega arith)

-- Both parts of a node's erased form.
abbrev Same : Kind → Operands → Kind → Operands → Type 0
Same k es l fs = (erase_kind k ≡ erase_kind l) × (erase_operands es ≡ erase_operands fs)

module _ (k : Kind) (es : Operands) (l : Kind) (fs : Operands)
    (ak : arity_ok k (operands_size es) ≡ true) (al : arity_ok l (operands_size fs) ≡ true) where
  -- a kind with no operand
  leaf-Decides :
      (b : Bool)
      → ((n : ℕ) → arity_ok k n ≡ true → n ≡ 0)
      → ((b ≡ true) ↔ (erase_kind k ≡ erase_kind l))
      → Decides (Same k es l fs) (some b)
  leaf-Decides b leaf i = (
    b,
    refl,
    (
      λ h. (
        i.0 h,
        ap erase_operands (
            nil_of_size es (leaf _ ak)
            ∙ sym (nil_of_size fs (leaf _ (same_arity k l (operands_size fs) (i.0 h) ∙ al)))),
      ),
      λ h. i.1 h.0,
    ),
  )

  module _
      (rest : operands_size es ≡ operands_size fs
        → Decides (erase_operands es ≡ erase_operands fs) (equals_operands es fs)) where
    kind-Decides :
        is_shape k ≡ true → Decides (Same k es l fs) (shape_check k es l fs (equals_operands es fs))
    kind-Decides h =
        let i = shape_iff k l h in
        Decides-iff _ (shape-Decides k es l fs (equals_operands es fs) rest)
          ((λ x. (i.0 x.0, x.1)), λ x. (i.1 x.0, x.1))

    -- the user type and the operands first, then the fields
    access-Decides :
        (s i : ℕ)
        → (user_type k ≡ user_type l → Decides (erase_kind k ≡ erase_kind l) (same_member s i l))
        → (erase_kind k ≡ erase_kind l → user_type k ≡ user_type l)
        → Decides
            (Same k es l fs)
            (and_also (shape_check k es l fs (equals_operands es fs)) (same_member s i l))
    access-Decides s i fields back =
        Decides-iff _
          (Decides-and _ _ (shape-Decides k es l fs (equals_operands es fs) rest) (λ x. fields x.0))
          ((λ x. (x.1, x.0.1)), λ x. ((back x.0, x.1), x.0))

-- the operator, and then the one operand
unary-Decides :
    (op : UnaryOperator) (es : Operands) (l : Kind) (fs : Operands) (m : Option Bool)
    → arity_ok (unary op) (operands_size es) ≡ true
    → arity_ok l (operands_size fs) ≡ true
    → (operands_size es ≡ 1
        → operands_size fs ≡ 1
        → Decides (erase_operands es ≡ erase_operands fs) m)
    → Decides (Same (unary op) es l fs) (if same_unary op l then m else some false)
unary-Decides op es l fs m ak al first =
    let i = unary_iff op l in
    elim (Bool-cases (same_unary op l)) [
      | inr d ↦ rw d (false, refl, (λ h. cc, λ h. cc (i.1 h.0)))
      | inl d ↦
          let one : arity_ok (unary op) (operands_size fs) ≡ true =
            same_arity (unary op) l (operands_size fs) (i.0 d) ∙ al in
          rw d (Decides-iff m (first (ground arith) (ground arith)) (λ x. (i.0 d, x), λ x. x.1))
    ]

module _ (p q : ℕ) (l : Kind) (fs : Operands) (al : arity_ok l (operands_size fs) ≡ true)
    (sl : is_single l fs ≡ false) where
  node-Same :
      (k : Kind) (es : Operands)
      → arity_ok k (operands_size es) ≡ true
      → is_single k es ≡ false
      → (operands_size es ≡ operands_size fs
          → Decides (erase_operands es ≡ erase_operands fs) (equals_operands es fs))
      → (operands_size es ≡ 1
          → operands_size fs ≡ 1
          → Decides (erase_operands es ≡ erase_operands fs) (equals_operand es fs))
      → Decides (Same k es l fs) (equals (node p k es) (node q l fs))
  unfolding equals operands_size
  node-Same (token t s) es ak sk rest first =
      leaf-Decides (token t s) es l fs ak al _ (λ n h. ground arith) (token_iff t s l)
  node-Same (numeric t n) es ak sk rest first =
      leaf-Decides (numeric t n) es l fs ak al _ (λ n h. ground arith) (number_iff t n l)
  node-Same (assembly t s) es ak sk rest first =
      leaf-Decides (assembly t s) es l fs ak al _ (λ n h. ground arith) (assembly_iff t s l)
  node-Same (assignable t s b) es ak sk rest first =
      leaf-Decides (assignable t s b) es l fs ak al _ (λ n h. ground arith) (assignable_iff t s b l)
  node-Same (unary op) es ak sk rest first =
      unary-Decides op es l fs (equals_operand es fs) ak al first
  node-Same (member_access s i) es ak sk rest first = rw (unwrap_plain q l fs sl) (
      access-Decides (member_access s i) es l fs ak al rest s i (member_iff s i l)
        (λ h. ground arith))
  node-Same (pointer_access s i) es ak sk rest first = rw (unwrap_plain q l fs sl) (
      access-Decides (pointer_access s i) es l fs ak al rest s i (pointer_iff s i l)
        (λ h. ground arith))
  node-Same (nary op) nil ak sk rest first = cc
  node-Same (nary op) (cons e nil) ak sk rest first = cc
  node-Same (nary op) (cons e (cons f r)) ak sk rest first =
      rw (unwrap_plain q l fs sl) (kind-Decides (nary op) (cons e (cons f r)) l fs ak al rest refl)
  node-Same call es ak sk rest first =
      rw (unwrap_plain q l fs sl) (kind-Decides call es l fs ak al rest refl)
  node-Same (cast t) es ak sk rest first =
      rw (unwrap_plain q l fs sl) (kind-Decides (cast t) es l fs ak al rest refl)
  node-Same ternary es ak sk rest first =
      rw (unwrap_plain q l fs sl) (kind-Decides ternary es l fs ak al rest refl)
  node-Same (aggregate t) es ak sk rest first =
      rw (unwrap_plain q l fs sl) (kind-Decides (aggregate t) es l fs ak al rest refl)
  node-Same subscript es ak sk rest first =
      rw (unwrap_plain q l fs sl) (kind-Decides subscript es l fs ak al rest refl)

stored : {at : ℕ → Expression} {e : Expression} → IsPlain at e → at (address e) ≡ e
stored (plain h ak sk pk) = h

-- Equal pointers are equal expressions, so the shortcut decides the same.
pointer-Decides :
    {at : ℕ → Expression} {e f : Expression}
    → IsPlain at e
    → IsPlain at f
    → Decides (erase e ≡ erase f) (equals e f)
    → Decides (erase e ≡ erase f) (if address e == address f then some true else equals e f)
pointer-Decides {at} {e} {f} pe pf d = elim (Bool-cases (address e == address f)) [
  | inr h ↦ rw h d
  | inl h ↦
      let same : address e ≡ address f = ground arith in
      rw h (true, refl, (λ _. ap erase (sym (stored pe) ∙ ap at same ∙ stored pf), λ _. refl))
]

mutual
  unfolding equals erase operands_size

  node-Decides :
      {at : ℕ → Expression} {a b : Expression}
      → IsPlain at a
      → IsPlain at b
      → Decides (erase a ≡ erase b) (equals a b)
  node-Decides (plain {p} {k} {es} ha ak sk pk) (plain {p = q} {k = l} {es = fs} hb al sl pl) =
      let i = node_iff p q k l es fs in
      Decides-iff _
        (node-Same p q l fs al sl k es ak sk (operands-Decides pk pl) (operand-Decides pk pl))
        (i.1, i.0)

  operands-Decides :
      {at : ℕ → Expression} {es fs : Operands}
      → ArePlain at es
      → ArePlain at fs
      → operands_size es ≡ operands_size fs
      → Decides (erase_operands es ≡ erase_operands fs) (equals_operands es fs)
  operands-Decides none_left none_left h = (true, refl, (λ _. refl, λ _. refl))
  operands-Decides none_left (one_more pf pfs) h = absurd (omega arith)
  operands-Decides (one_more pe pes) none_left h = absurd (omega arith)
  operands-Decides (one_more pe pes) (one_more pf pfs) h =
      Decides-iff _
        (Decides-and _ _ (pointer-Decides pe pf (node-Decides pe pf))
          (λ _. operands-Decides pes pfs (omega arith)))
        ((λ x. cc (x.0, x.1)), λ x. (cc, cc))

  operand-Decides :
      {at : ℕ → Expression} {es fs : Operands}
      → ArePlain at es
      → ArePlain at fs
      → operands_size es ≡ 1
      → operands_size fs ≡ 1
      → Decides (erase_operands es ≡ erase_operands fs) (equals_operand es fs)
  operand-Decides none_left pfs h g = absurd (omega arith)
  operand-Decides (one_more pe pes) none_left h g = absurd (omega arith)
  operand-Decides (one_more {es = es} pe pes) (one_more {es = fs} pf pfs) h g =
      let left : es ≡ nil = nil_of_size es (omega arith) in
      let right : fs ≡ nil = nil_of_size fs (omega arith) in
      Decides-iff _ (node-Decides pe pf) ((λ x. rw (left, right) (cc x)), λ x. cc)

-- On expressions of one store, made as their constructors make them and without n-ary operators of
-- a single operand, `operator==` ends with no failed cast, and it holds exactly when the two have
-- the same erased form.
pub equals-erase :
    (at : ℕ → Expression) (a b : Expression)
    → IsPlain at a
    → IsPlain at b
    → (r : Bool) × (equals a b ≡ some r) × ((r ≡ true) ↔ (erase a ≡ erase b))
equals-erase at a b ha hb = node-Decides ha hb

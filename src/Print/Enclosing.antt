-- ===== src/Print/Enclosing.antt =====
-- The scope that a variable is declared in is around all its uses, and the innermost such scope.
use Prim.Native.String.{String}
use fcd.Base.{
  ℕ, zero, suc, ◌≤◌, ◌≡◌, refl, sym, subst, ap, ◌∙◌, Option, none, some, List, [], ◌∷◌, length, All,
  arith,
}
use fcd.Print.Declarations.{
  User, Assignment, assigned, assignment_or, first_assignment, common_ancestors, Place, place_by,
  place,
}
use fcd.Print.Ancestors.{
  Agree, Agree-refl, Agree-le, Others, Shares, common-le, common-Shares, common-greatest,
}

abbrev IsAt : ℕ → List User → User → Type 0
IsAt i [] v = ⊥
IsAt zero (u ∷ us) v = u ≡ v
IsAt (suc i) (u ∷ us) v = IsAt i us v

abbrev Stands : List User → Option Assignment → Type 0
Stands us none = Unit
Stands us (some a) = IsAt a.index us a.user

assignment_or-Stands :
    (u : User) (us : List User) (o : Option String) (rest : Option Assignment)
    → Stands us rest
    → Stands (u ∷ us) (assignment_or u o rest)
assignment_or-Stands u us (some value) rest h = refl
assignment_or-Stands u us none none h = tt
assignment_or-Stands u us none (some a) h = h

first_assignment-Stands :
    (variable : String) (us : List User) → Stands us (first_assignment variable us)
unfolding first_assignment
first_assignment-Stands variable [] = tt
first_assignment-Stands variable (u ∷ us) =
    assignment_or-Stands u us (assigned variable u.line) _ (first_assignment-Stands variable us)

Others-All : (P : User → Type 0) (us : List User) → Others P none us → All P us
Others-All P [] h = tt
Others-All P (u ∷ us) h = (h.0, Others-All P us h.1)

All-Others :
    (P : User → Type 0) (i : ℕ) (us : List User) (v : User)
    → IsAt i us v
    → P v
    → Others P (some i) us
    → All P us
All-Others P zero [] v e p h = elim e [ ]
All-Others P (suc i) [] v e p h = elim e [ ]
All-Others P zero (u ∷ us) v e p h = (subst P (sym e) p, Others-All P us h)
All-Others P (suc i) (u ∷ us) v e p h = (h.0, All-Others P i us v e p h.1)

abbrev pub HasRoot : ℕ → User → Type 0
HasRoot root u = Agree 1 (root ∷ []) u.parents

-- The chosen scopes, from the root on, are around every user.
pub record Encloses (us : List User) (p : Place) : Type 0 where
  pub has_root : 1 ≤ p.count
  pub around_all : All (λ (u : User). Agree p.count p.parents u.parents) us

All-HasRoot :
    (root : ℕ) (v : User) (us : List User)
    → HasRoot root v
    → All (HasRoot root) us
    → All (λ (u : User). Agree 1 v.parents u.parents) us
All-HasRoot root v [] h k = tt
All-HasRoot root v (u ∷ us) h k = (two_roots v.parents u.parents h k.0, All-HasRoot root v us h k.1)
  where
    two_roots : (ps qs : List ℕ) → Agree 1 (root ∷ []) ps → Agree 1 (root ∷ []) qs → Agree 1 ps qs
    two_roots [] qs h k = h
    two_roots (p ∷ ps) [] h k = k
    two_roots (p ∷ ps) (q ∷ qs) h k = (sym h.0 ∙ k.0, tt)

HasRoot-at :
    (root i : ℕ) (us : List User) (v : User) → IsAt i us v → All (HasRoot root) us → HasRoot root v
HasRoot-at root i [] v e h = elim e [ ]
HasRoot-at root zero (u ∷ us) v e h = subst (HasRoot root) e h.0
HasRoot-at root (suc i) (u ∷ us) v e h = HasRoot-at root i us v e h.1

root_length : (root : ℕ) (ps : List ℕ) → Agree 1 (root ∷ []) ps → 1 ≤ length ps
root_length root [] h = absurd h
root_length root (p ∷ ps) h = omega arith

assigned-Encloses :
    (root : ℕ) (us : List User) (a : Assignment)
    → IsAt a.index us a.user
    → All (HasRoot root) us
    → Encloses us (record {
      parents = a.user.parents;
      count = common_ancestors a.user.parents (length a.user.parents) (some a.index) us;
    })
assigned-Encloses root us a e h =
    let ps = a.user.parents in
    let hv = HasRoot-at root a.index us a.user e h in
    record {
      has_root =
          common-greatest ps (some a.index) us 1 (length ps) (root_length root ps hv)
            (All-HasRoot root a.user us hv h);
      around_all =
          All-Others (Shares ps (common_ancestors ps (length ps) (some a.index) us)) a.index us
            a.user e
            (Agree-le _ (length ps) ps ps (common-le ps (length ps) (some a.index) us)
              (Agree-refl ps))
            (common-Shares ps (length ps) (some a.index) us);
    }

place_by-Encloses :
    (root : ℕ) (u : User) (us : List User) (o : Option Assignment)
    → Stands (u ∷ us) o
    → All (HasRoot root) (u ∷ us)
    → (p : Place) × (place_by (u ∷ us) o ≡ some p) × Encloses (u ∷ us) p
place_by-Encloses root u us none s h = (
  record { parents = u.parents; count = 1 },
  refl,
  record { has_root = omega arith; around_all = All-HasRoot root u (u ∷ us) h.0 h },
)
place_by-Encloses root u us (some a) s h = (_, refl, assigned-Encloses root (u ∷ us) a s h)

-- A variable with a user, whose users are all in the same root scope, gets a declaration, in a scope
-- that is around every one of its users.
pub place-Encloses :
    (variable : String) (root : ℕ) (u : User) (us : List User)
    → All (HasRoot root) (u ∷ us)
    → (p : Place) × (place variable (u ∷ us) ≡ some p) × Encloses (u ∷ us) p
unfolding place
place-Encloses variable root u us h =
    place_by-Encloses root u us (first_assignment variable (u ∷ us))
      (first_assignment-Stands variable (u ∷ us)) h

some-inj : (p q : Place) → some p ≡ some q → p ≡ q
some-inj p q h = cc

innermost :
    (us : List User) (a : Assignment) (p : Place) (n : ℕ)
    → place_by us (some a) ≡ some p
    → n ≤ length p.parents
    → All (λ (u : User). Agree n p.parents u.parents) us
    → n ≤ p.count
innermost [] a p n e h k =
    let ps = a.user.parents in
    subst
      (λ (x : Place).
        n ≤ length x.parents → All (λ (u : User). Agree n x.parents u.parents) [] → n ≤ x.count)
      (some-inj _ p e) (λ h k. common-greatest ps (some a.index) [] n (length ps) h k) h k
innermost (u ∷ us) a p n e h k =
    let ps = a.user.parents in
    subst
      (λ (x : Place).
        n ≤ length x.parents
        → All (λ (v : User). Agree n x.parents v.parents) (u ∷ us)
        → n ≤ x.count)
      (some-inj _ p e) (λ h k. common-greatest ps (some a.index) (u ∷ us) n (length ps) h k) h k

-- Where a variable is assigned, no scope further in is around all of its users.
pub place-innermost :
    (variable : String) (us : List User) (a : Assignment) (p : Place) (n : ℕ)
    → first_assignment variable us ≡ some a
    → place variable us ≡ some p
    → n ≤ length p.parents
    → All (λ (u : User). Agree n p.parents u.parents) us
    → n ≤ p.count
unfolding place
place-innermost variable us a p n f q h k = innermost us a p n (ap (place_by us) (sym f) ∙ q) h k

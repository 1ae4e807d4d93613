-- ===== src/Types/Declarator.antt =====
-- `CTypePrinter` writes declarations of C's grammar.
use Prim.Native.Char.{Char}
use Prim.Native.String.{String, ◌++◌}
use text.Mathlib.TextLemmas.{append-nil, nil-append, cons-append, append_assoc}
use fcd.Base.{
  ℕ, ◌≡◌, ◌≢◌, refl, sym, ap, ◌∙◌, subst, inl, inr, Bool, Bool-cases, true, false, arith, ◌==◌,
  if◌then◌else◌,
}
use fcd.Types.Defs.{
  ExpressionType, Fields, void_type, integer, pointer, array, structure, function, nil, field,
}
use fcd.Types.Printer.{
  is_empty, print_middle_if_any, print, print_fields, print_parameters, declare,
}
use fcd.Types.Declarations.{
  Declarator, Direct, plain, star, identifier, bracket, index, call, declared_type, declared_name,
  StandsApart, space, no_space, Declares, declaration, Specifies, void_word, bool_word, signed_word,
  unsigned_word, tag, no_members, members, Spells, plain_text, star_text, identifier_text,
  bracket_text, index_text, call_text, AreParameters, no_parameters, last_parameter, next_parameter,
  AreMembers, members_end, next_member,
}
use fcd.Types.Apart.{
  TagsApart, FieldsApart, print_middle_if_any-Separates, StandsApart-append, StandsApart-begins,
  name-StandsApart,
}

-- an array or a function is printed only about a direct declarator
abbrev IsPlaced : ExpressionType → Declarator → Type 0
IsPlaced (array t n) (star d) = ⊥
IsPlaced (function r ps) (star d) = ⊥
IsPlaced t d = Unit

IsPlaced-plain : (t : ExpressionType) (d : Direct) → IsPlaced t (plain d)
IsPlaced-plain (array t n) d = tt
IsPlaced-plain _ d = tt

module _ (show : ℕ → String) where
  -- What the printer is given about the declarator `d` of the text `text`, and what it then prints.
  PrintsAbout : ExpressionType → Declarator → String → Type 0
  PrintsAbout t d text = Declares show (declared_type d t) (declared_name d) (print show t text)

  behind_word :
      (base : ExpressionType) (word : String) (d : Declarator) (text : String)
      → Specifies show base word
      → Spells show d text
      → Declares show (declared_type d base) (declared_name d) (word ++ print_middle_if_any text)
  behind_word base word d text w s =
      let (gap, printed, separates) = print_middle_if_any-Separates text in
      subst (λ (u : String). Declares show (declared_type d base) (declared_name d) (word ++ u))
        (sym printed) (declaration d w separates s)

  integer-Specifies :
      (s : Bool) (n : ℕ)
      → Specifies show
          (integer s n)
          (if n == 1 then "bool" else (if s then "" else "u") ++ "int" ++ show n ++ "_t")
  integer-Specifies s n = elim (Bool-cases (n == 1)) [
    | inl q ↦
        let one : n ≡ 1 = ground arith in
        rw q (subst (λ k. Specifies show (integer s k) "bool") (sym one) (bool_word s))
    | inr q ↦ rw q (wide s (ground arith))
  ]
    where
      wide :
          (b : Bool)
          → n ≢ 1
          → Specifies show (integer b n) ((if b then "" else "u") ++ "int" ++ show n ++ "_t")
      wide true h = subst (Specifies show (integer true n)) (sym (nil-append _)) (signed_word n h)
      wide false h = unsigned_word n h

  starred :
      (d : Declarator) (text : String)
      → Spells show d text
      → Spells show (star d) ("*" ++ print_middle_if_any text)
  starred d text s =
      let (gap, printed, separates) = print_middle_if_any-Separates text in
      subst (λ (u : String). Spells show (star d) ("*" ++ u)) (sym printed) (star_text separates s)

  bracketed_text : (m : String) → "(" ++ "*" ++ m ++ ")" ≡ "(" ++ ("*" ++ m) ++ ")"
  bracketed_text m = ap (λ (u : String). "(" ++ u) (sym (append_assoc "*" m ")"))

  bare_text : (m : String) → "" ++ "*" ++ m ++ "" ≡ "*" ++ m
  bare_text m = simp (nil-append, append-nil)

  bare_star :
      (d : Declarator) (text : String)
      → Spells show d text
      → Spells show (star d) ("" ++ "*" ++ print_middle_if_any text ++ "")
  bare_star d text s = rw (bare_text (print_middle_if_any text)) (starred d text s)

  bracketed_star :
      (d : Declarator) (text : String)
      → Spells show d text
      → Spells show (plain (bracket (star d))) ("(" ++ "*" ++ print_middle_if_any text ++ ")")
  bracketed_star d text s =
      rw (bracketed_text (print_middle_if_any text)) (plain_text (bracket_text (starred d text s)))

  unnamed_text : (f : String) → ("struct {" ++ " " ++ f ++ "} ") ≡ ("struct { " ++ f ++ "}") ++ " "
  unnamed_text f =
      sym (append_assoc "struct {" " " (f ++ "} "))
      ∙ sym (
          append_assoc "struct { " (f ++ "}") " "
          ∙ ap (λ (u : String). "struct { " ++ u) (append_assoc f "}" " "))

  no_members_text : (m : String) → ("struct {" ++ "" ++ "" ++ "} ") ++ m ≡ "struct {}" ++ " " ++ m
  no_members_text m = append_assoc "struct {}" " " m

  -- a pointer, from its nested type with a bracketed and with a bare star
  pointer-PrintsAbout :
      (t : ExpressionType) (d : Declarator) (text : String)
      → Spells show d text
      → ((m : String)
          → StandsApart m
          → Spells show (plain (bracket (star d))) m
          → PrintsAbout t (plain (bracket (star d))) m)
      → ((m : String)
          → StandsApart m
          → Spells show (star d) m
          → IsPlaced t (star d)
          → PrintsAbout t (star d) m)
      → PrintsAbout (pointer t) d text
  unfolding print declared_type declared_name PrintsAbout
  pointer-PrintsAbout (array t n) d text s in_bracket bare =
      in_bracket _ (StandsApart-begins "(" "" _ refl) (bracketed_star d text s)
  pointer-PrintsAbout (function r ps) d text s in_bracket bare =
      in_bracket _ (StandsApart-begins "(" "" _ refl) (bracketed_star d text s)
  pointer-PrintsAbout t d text s in_bracket bare =
      bare _ (subst StandsApart (sym (nil-append _)) (StandsApart-begins "*" "" _ refl))
        (bare_star d text s) tt

  mutual
    unfolding print declared_type declared_name PrintsAbout

    print-PrintsAbout :
        (t : ExpressionType) (d : Declarator) (text : String) (apart : Bool)
        → IsPlaced t d
        → TagsApart apart t
        → (apart ≡ true → StandsApart text)
        → Spells show d text
        → PrintsAbout t d text
    print-PrintsAbout void_type d text apart h a k s = behind_word _ _ d text void_word s
    print-PrintsAbout (integer b n) d text apart h a k s =
        behind_word _ _ d text (integer-Specifies b n) s
    print-PrintsAbout (pointer t) d text apart h a k s =
        pointer-PrintsAbout t d text s
          (λ m begins spells.
            print-PrintsAbout t (plain (bracket (star d))) m true (IsPlaced-plain t _) a
              (λ q. begins) spells)
          (λ m begins spells placed.
            print-PrintsAbout t (star d) m true placed a (λ q. begins) spells)
    print-PrintsAbout (array t n) (plain d) text apart h a k (plain_text s) =
        print-PrintsAbout t (plain (index d n)) _ apart (IsPlaced-plain t _) a
          (λ q. StandsApart-append _ _ (k q) (StandsApart-begins "[" "" _ refl))
          (plain_text (index_text n s))
    print-PrintsAbout (array t n) (star d) text apart h a k s = absurd h
    print-PrintsAbout (function r ps) (plain d) text apart h a k (plain_text s) =
        print-PrintsAbout r (plain (call d ps)) _ apart (IsPlaced-plain r _) a.0
          (λ q. StandsApart-append _ _ (k q) (StandsApart-begins "(" "" _ refl))
          (plain_text (call_text s (print_parameters-AreParameters ps a.1)))
    print-PrintsAbout (function r ps) (star d) text apart h a k s = absurd h
    print-PrintsAbout (structure fs (String.◌∷◌ c name)) d text apart h a k s =
        subst
          (λ (u : String).
            Declares show (declared_type d (structure fs (String.◌∷◌ c name))) (declared_name d)
              (("struct " ++ String.◌∷◌ c name) ++ u))
          (nil-append text)
          (declaration d (tag fs (String.◌∷◌ c name) (λ q. cc)) (no_space text (k a)) s)
    print-PrintsAbout (structure nil String.[]) d text apart h a k s =
        rw (no_members_text text) (declaration d no_members (space text) s)
    print-PrintsAbout (structure (field t name fs) String.[]) d text apart h a k s =
        rw
          (
            unnamed_text (print_fields show (field t name fs)),
            append_assoc ("struct { " ++ print_fields show (field t name fs) ++ "}") " " text,
          )
          (declaration d (members t name fs _ (print_fields-AreMembers (field t name fs) a))
            (space text) s)

    print_fields-AreMembers :
        (fs : Fields) → FieldsApart fs → AreMembers show fs (print_fields show fs)
    print_fields-AreMembers nil a = members_end
    print_fields-AreMembers (field t name fs) a =
        next_member
          (print-PrintsAbout t (plain (identifier name)) name (is_empty name) (IsPlaced-plain t _)
            a.0 (name-StandsApart name) (plain_text (identifier_text name)))
          (print_fields-AreMembers fs a.1)

    print_parameters-AreParameters :
        (ps : Fields) → FieldsApart ps → AreParameters show ps (print_parameters show ps)
    print_parameters-AreParameters nil a = no_parameters
    print_parameters-AreParameters (field t name nil) a =
        rw (nil-append "", append-nil (print show t name))
          (last_parameter (
            print-PrintsAbout t (plain (identifier name)) name (is_empty name) (IsPlaced-plain t _)
              a.0 (name-StandsApart name) (plain_text (identifier_text name))))
    print_parameters-AreParameters (field t name (field u other fs)) a =
        next_parameter
          (print-PrintsAbout t (plain (identifier name)) name (is_empty name) (IsPlaced-plain t _)
            a.0 (name-StandsApart name) (plain_text (identifier_text name)))
          (print_parameters-AreParameters (field u other fs) a.1)

-- For every type and name, `declare` writes a declaration of C's grammar, which declares that name
-- at exactly that type: a specifier, and a declarator that is separated from it, with brackets where
-- a pointer to an array or to a function needs them, and with the members and the parameters as
-- declarations of their own. No structure with a tag may be printed right ahead of a name, since
-- nothing would separate the two.
pub declare-Declares :
    (show : ℕ → String) (t : ExpressionType) (name : String)
    → TagsApart (is_empty name) t
    → Declares show t name (declare show t name)
unfolding declare declared_type declared_name PrintsAbout
declare-Declares show t name a =
    print-PrintsAbout show t (plain (identifier name)) name (is_empty name) (IsPlaced-plain t _) a
      (name-StandsApart name) (plain_text (identifier_text name))

-- No space separates the tag of a named structure from what follows, so the end of the tag and the
-- beginning of the declared name are told apart by nothing: for every split of the same text the
-- two declarations read alike, whatever the fields.
pub declare-structure_collides :
    (show : ℕ → String) (fs gs : Fields) (c : Char) (p q name : String)
    → declare show (structure fs (String.◌∷◌ c (p ++ q))) name
      ≡ declare show (structure gs (String.◌∷◌ c p)) (q ++ name)
unfolding declare print
declare-structure_collides show fs gs c p q name = simp (append_assoc, cons-append)

-- ===== src/Types/Declarations.antt =====
-- The declarations of C's grammar, for the types of fcd/ast/expression_type.h: specifiers,
-- declarators, parameters and members, without the printer. `show` writes a number.
use Prim.Native.Char.{Char, code}
use Prim.Native.String.{String, ◌++◌}
use fcd.Base.{ℕ, ◌≡◌, ◌≢◌, Bool, true, false, ◌&&◌, ◌||◌, leb, ◌==◌}
use fcd.Types.Defs.{
  ExpressionType, Fields, void_type, integer, pointer, array, structure, function, nil, field,
}

-- A suffix binds tighter than `*`, and stands only behind a name, a bracket or another suffix.
mutual
  pub data Declarator : Type 0 where
    plain : Direct → Declarator
    star : Declarator → Declarator

  pub data Direct : Type 0 where
    identifier : String → Direct
    bracket : Declarator → Direct
    index : Direct → ℕ → Direct
    call : Direct → Fields → Direct

-- The type of the declared name, for a declaration that begins with the type `t`.
unfoldable mutual
  pub declared_type : Declarator → ExpressionType → ExpressionType
  declared_type (plain d) t = direct_type d t
  declared_type (star d) t = declared_type d (pointer t)

  pub direct_type : Direct → ExpressionType → ExpressionType
  direct_type (identifier s) t = t
  direct_type (bracket d) t = declared_type d t
  direct_type (index d n) t = direct_type d (array t n)
  direct_type (call d ps) t = direct_type d (function t ps)

unfoldable mutual
  pub declared_name : Declarator → String
  declared_name (plain d) = direct_name d
  declared_name (star d) = declared_name d

  pub direct_name : Direct → String
  direct_name (identifier s) = s
  direct_name (bracket d) = declared_name d
  direct_name (index d n) = direct_name d
  direct_name (call d ps) = direct_name d

-- Letters, digits and `_`, and all beyond ASCII
abbrev pub is_word : ℕ → Bool
is_word c =
    (leb 48 c && leb c 57)
    || (leb 65 c && leb c 90)
    || c == 95
    || (leb 97 c && leb c 122)
    || leb 128 c

-- Texts whose beginning cannot be taken for the end of a word ahead of them
pub data StandsApart : String → Type 0 where
  nothing : StandsApart ""
  no_letter : (c : Char) (s : String) → is_word (code c) ≡ false → StandsApart (String.◌∷◌ c s)

-- What is between a word and the declarator behind it.
pub data Separates : (gap text : String) → Type 0 where
  space : (text : String) → Separates " " text
  no_space : (text : String) → StandsApart text → Separates "" text

module _ (show : ℕ → String) where
  mutual
    -- the text declares a name at a type
    pub data Declares : ExpressionType → (name text : String) → Type 0 where
      declaration :
          {base : ExpressionType} {word gap text : String} (d : Declarator)
          → Specifies base word
          → Separates gap text
          → Spells d text
          → Declares (declared_type d base) (declared_name d) (word ++ gap ++ text)

    pub data Specifies : ExpressionType → String → Type 0 where
      void_word : Specifies void_type "void"
      bool_word : (s : Bool) → Specifies (integer s 1) "bool"
      signed_word : (n : ℕ) → n ≢ 1 → Specifies (integer true n) ("int" ++ show n ++ "_t")
      unsigned_word : (n : ℕ) → n ≢ 1 → Specifies (integer false n) ("u" ++ "int" ++ show n ++ "_t")
      tag :
          (fs : Fields) (name : String)
          → name ≢ ""
          → Specifies (structure fs name) ("struct " ++ name)
      no_members : Specifies (structure nil "") "struct {}"
      members :
          (t : ExpressionType) (name : String) (fs : Fields) (text : String)
          → AreMembers (field t name fs) text
          → Specifies (structure (field t name fs) "") ("struct { " ++ text ++ "}")

    pub data Spells : Declarator → String → Type 0 where
      plain_text : {d : Direct} {text : String} → SpellsDirect d text → Spells (plain d) text
      star_text :
          {d : Declarator} {gap text : String}
          → Separates gap text
          → Spells d text
          → Spells (star d) ("*" ++ gap ++ text)

    pub data SpellsDirect : Direct → String → Type 0 where
      identifier_text : (s : String) → SpellsDirect (identifier s) s
      bracket_text :
          {d : Declarator} {text : String}
          → Spells d text
          → SpellsDirect (bracket d) ("(" ++ text ++ ")")
      index_text :
          {d : Direct} {text : String} (n : ℕ)
          → SpellsDirect d text
          → SpellsDirect (index d n) (text ++ "[" ++ show n ++ "]")
      call_text :
          {d : Direct} {ps : Fields} {text parameters : String}
          → SpellsDirect d text
          → AreParameters ps parameters
          → SpellsDirect (call d ps) (text ++ "(" ++ parameters ++ ")")

    pub data AreParameters : Fields → String → Type 0 where
      no_parameters : AreParameters nil ""
      last_parameter :
          {t : ExpressionType} {name text : String}
          → Declares t name text
          → AreParameters (field t name nil) text
      next_parameter :
          {t u : ExpressionType} {name other text rest : String} {fs : Fields}
          → Declares t name text
          → AreParameters (field u other fs) rest
          → AreParameters (field t name (field u other fs)) (text ++ ", " ++ rest)

    pub data AreMembers : Fields → String → Type 0 where
      members_end : AreMembers nil ""
      next_member :
          {t : ExpressionType} {name text rest : String} {fs : Fields}
          → Declares t name text
          → AreMembers fs rest
          → AreMembers (field t name fs) (text ++ "; " ++ rest)

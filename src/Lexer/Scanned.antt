-- ===== src/Lexer/Scanned.antt =====
-- compiler/lexer.py: which tokens a text has, and where they stand, said without the loop.
use Prim.Native.Char.{Char}
use text.Mathlib.TextEquality.{eq_iff}
use baybayin_language.Base.{
  suc, lookup, Option-cases, none, String, ◌≡◌, refl, sym, ap, subst, true, false, ◌||◌, inl, inr,
  Bool-cases, some, List, [], ◌∷◌, ◌++◌, str_eq, arith,
}
use baybayin_language.Lexer.Tokens.{Token}
use baybayin_language.Lexer.Patterns.{Text, from_chars}
use baybayin_language.Lexer.{
  Unicode, token_specification, first_match, count_newlines, keyword_kind, keywords, without_last,
  tail,
}
use baybayin_language.Lexer.Positions.{since_newline}

-- The line and the column behind a text.
abbrev pub placed : Text → String → String → Token
placed before type value = record {
  type = type;
  value = value;
  line = suc (count_newlines before);
  column = suc (since_newline before 0);
}

-- The matches that leave no token.
pub data Silent : String → Type 0 where
  newline : Silent "NEWLINE"
  skip : Silent "SKIP"
  line_comment : Silent "COMMENT_SINGLE"
  block_comment : Silent "COMMENT_MULTI"

-- A text without its first and its last character.
pub data Inside : Text → Text → Type 0 where
  too_short : Inside [] []
  one_character : {c : Char} → Inside (c ∷ []) []
  between_ends : {c : Char} {u : Text} (d : Char) → Inside (c ∷ (u ++ d ∷ [])) u

-- The type and the value of the token that a match of kind `k` and text `v` leaves.
pub data TokenOf (py : Unicode) : String → Text → String → String → Type 0 where
  keyword :
      {v : Text} {kind : String}
      → lookup (from_chars v) keywords ≡ some kind
      → TokenOf py "IDENTIFIER" v kind (from_chars v)
  name :
      {v : Text}
      → lookup (from_chars v) keywords ≡ none
      → TokenOf py "IDENTIFIER" v "IDENTIFIER" (from_chars v)
  string_text :
      {v u : Text} {text : String}
      → Inside v u
      → py.unescape (from_chars u) ≡ some text
      → TokenOf py "STRING" v "STRING" text
  plain :
      {k : String} {v : Text}
      → str_eq k "IDENTIFIER" ≡ false
      → str_eq k "STRING" ≡ false
      → str_eq k "MISMATCH" ≡ false
      → ¬ Silent k
      → TokenOf py k v k (from_chars v)

-- The tokens of a text behind `before`: the first alternative that fits is taken again and again, each
-- match leaves no token or one, and the EOF token stands behind the last.
pub data Scanned (py : Unicode) : Text → Text → List Token → Type 0 where
  at_end : {before : Text} → Scanned py before [] (placed before "EOF" "" ∷ [])
  silent :
      {before rest v r : Text} {k : String} {ts : List Token}
      → first_match (token_specification py) rest ≡ some (k, v, r)
      → Silent k
      → Scanned py (before ++ v) r ts
      → Scanned py before rest ts
  token :
      {before rest v r : Text} {k type value : String} {ts : List Token}
      → first_match (token_specification py) rest ≡ some (k, v, r)
      → TokenOf py k v type value
      → Scanned py (before ++ v) r ts
      → Scanned py before rest (placed before type value ∷ ts)

pub not_Silent :
    (k : String)
    → str_eq k "NEWLINE" ≡ false
    → str_eq k "SKIP" ≡ false
    → (str_eq k "COMMENT_SINGLE" || str_eq k "COMMENT_MULTI") ≡ false
    → ¬ Silent k
not_Silent _ h₁ h₂ h₃ newline = cc
not_Silent _ h₁ h₂ h₃ skip = cc
not_Silent _ h₁ h₂ h₃ line_comment = cc
not_Silent _ h₁ h₂ h₃ block_comment = cc

pub kind_Silent : (k : String) {k' : String} → str_eq k k' ≡ true → Silent k' → Silent k
kind_Silent k {k'} e h = subst Silent (sym ((eq_iff k k').0 e)) h

pub comment_Silent :
    (k : String) → (str_eq k "COMMENT_SINGLE" || str_eq k "COMMENT_MULTI") ≡ true → Silent k
comment_Silent k e = elim (Bool-cases (str_eq k "COMMENT_SINGLE")) [
  | inl h ↦ kind_Silent k h line_comment
  | inr h ↦ kind_Silent k (ground arith) block_comment
]

pub keyword_kind-TokenOf :
    (py : Unicode) (v : Text) → TokenOf py "IDENTIFIER" v (keyword_kind v) (from_chars v)
keyword_kind-TokenOf py v = elim (Option-cases (lookup (from_chars v) keywords)) [
  | inl e ↦
      subst (λ k. TokenOf py "IDENTIFIER" v k (from_chars v)) (sym (rw (keyword_kind, e) refl))
        (name e)
  | inr (k, e) ↦
      subst (λ k. TokenOf py "IDENTIFIER" v k (from_chars v)) (sym (rw (keyword_kind, e) refl))
        (keyword e)
]

pub kind-TokenOf :
    (py : Unicode) (k : String) {k' type value : String} {v : Text}
    → str_eq k k' ≡ true
    → TokenOf py k' v type value
    → TokenOf py k v type value
kind-TokenOf py k {k'} {type} {value} {v} e h =
    subst (λ x. TokenOf py x v type value) (sym ((eq_iff k k').0 e)) h

without_last-whole :
    (c : Char) (cs : Text) → (d : Char) × (without_last (c ∷ cs) ++ d ∷ [] ≡ c ∷ cs)
unfolding without_last
without_last-whole c [] = (c, refl)
without_last-whole c (d ∷ cs) =
    let (e, whole) = without_last-whole d cs in (e, ap (λ x. c ∷ x) whole)

tail-Inside : (v : Text) → Inside v (without_last (tail v))
unfolding without_last
tail-Inside [] = too_short
tail-Inside (c ∷ []) = one_character
tail-Inside (c ∷ d ∷ cs) =
    let (e, whole) = without_last-whole d cs in
    subst (λ x. Inside (c ∷ x) (without_last (d ∷ cs))) whole (between_ends e)

pub string-TokenOf :
    (py : Unicode) (k : String) {v : Text} {text : String}
    → str_eq k "STRING" ≡ true
    → py.unescape (from_chars (without_last (tail v))) ≡ some text
    → TokenOf py k v k text
string-TokenOf py k {v} {text} e h =
    subst (λ x. TokenOf py x v x text) (sym ((eq_iff k "STRING").0 e))
      (string_text (tail-Inside v) h)

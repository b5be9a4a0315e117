-- ===== src/Lexer/Patterns.antt =====
-- compiler/lexer.py: the regular expressions of `TOKEN_SPECIFICATION`, each as the function that Python's
-- `re` computes for it at the front of a text. None of them has to backtrack: where a part has taken
-- what it can, taking less does not let a later part fit.
use Prim.Native.Char.{Char, code}
use baybayin_language.Base.{
  ℕ, String, Bool, true, false, not, ◌&&◌, ◌||◌, Option, none, some, List, [], ◌∷◌, ◌++◌, leb, ◌==◌,
  if◌then◌else◌,
}

abbrev pub Text : Type 0
Text = List Char

abbrev pub chars : String → Text
chars String.[] = []
chars (String.◌∷◌ c s) = c ∷ chars s

abbrev pub from_chars : Text → String
from_chars [] = String.[]
from_chars (c ∷ cs) = String.◌∷◌ c (from_chars cs)

-- What a pattern takes from the front of a text, and what is left.
abbrev pub Match : Type 0
Match = Option (Text × Text)

abbrev pub prepend : Text → Match → Match
prepend v none = none
prepend v (some (w, r)) = some (v ++ w, r)

-- One pattern and then another.
unfoldable pub followed : Match → (Text → Match) → Match
followed none q = none
followed (some (v, r)) q = prepend v (q r)

-- `p?`
unfoldable pub optional : (Text → Match) → Text → Match
optional p t = elim (p t) [ none ↦ some ([], t) | some m ↦ some m ]

-- `p|q`
unfoldable pub either : (Text → Match) → (Text → Match) → Text → Match
either p q t = elim (p t) [ none ↦ q t | some m ↦ some m ]

-- A fixed text.
unfoldable pub literally : Text → Text → Match
literally [] t = some ([], t)
literally (c ∷ cs) [] = none
literally (c ∷ cs) (d ∷ ds) = if code c == code d then prepend (d ∷ []) (literally cs ds) else none

-- `[…]`, one character of a class.
unfoldable pub one_of : (Char → Bool) → Text → Match
one_of p [] = none
one_of p (c ∷ cs) = if p c then some (c ∷ [], cs) else none

-- `[…]*`
unfoldable pub many : (Char → Bool) → Text → Match
many p [] = some ([], [])
many p (c ∷ cs) = if p c then prepend (c ∷ []) (many p cs) else some ([], c ∷ cs)

-- `[…]+`
unfoldable pub some_of : (Char → Bool) → Text → Match
unfolding followed one_of many
some_of p t = followed (one_of p t) (many p)

abbrev pub is_newline : Char → Bool
is_newline c = code c == b'\n'

-- `.`
abbrev pub not_newline : Char → Bool
not_newline c = not (is_newline c)

-- `[\s\S]*?\*/`: up to the first `*/`.
unfoldable pub until_close : Text → Match
until_close [] = none
until_close (c ∷ []) = none
until_close (c ∷ d ∷ cs) = elim (code c == b'*' && code d == b'/') [
  | true ↦ some (c ∷ d ∷ [], cs)
  | false ↦ prepend (c ∷ []) (until_close (d ∷ cs))
]

unfoldable pub comment_multi : Text → Match
unfolding literally followed until_close
comment_multi t = followed (literally (chars "/*") t) until_close

unfoldable pub comment_single : Text → Match
unfolding literally followed many
comment_single t = followed (literally (chars "//") t) (many not_newline)

-- `\d+(\.\d+)?`, where `\d` is any of Unicode's decimal digits: a parameter.
unfoldable pub fraction : (Char → Bool) → Text → Match
unfolding literally followed some_of
fraction is_digit t = followed (literally (chars ".") t) (some_of is_digit)

unfoldable pub number : (Char → Bool) → Text → Match
unfolding followed some_of optional fraction
number is_digit t = followed (some_of is_digit t) (optional (fraction is_digit))

-- `[^q\\]*(?:\\.[^q\\]*)*q`: up to the closing quote, where a backslash takes the character behind it
-- along, which is no newline.
unfoldable pub string_body : ℕ → Text → Match
string_body q [] = none
string_body q (c ∷ []) = if code c == q then some (c ∷ [], []) else none
string_body q (c ∷ d ∷ cs) = elim (code c == q) [
  | true ↦ some (c ∷ [], d ∷ cs)
  | false ↦ elim (code c == b'\\') [
    | false ↦ prepend (c ∷ []) (string_body q (d ∷ cs))
    | true ↦ elim (is_newline d) [ true ↦ none | false ↦ prepend (c ∷ d ∷ []) (string_body q cs) ]
  ]
]

unfoldable pub quoted : ℕ → Text → Match
unfolding followed one_of string_body
quoted q t = followed (one_of (λ c. code c == q) t) (string_body q)

-- The quotes are code points 34 and 39.
unfoldable pub string_pattern : Text → Match
unfolding either quoted
string_pattern = either (quoted 34) (quoted 39)

abbrev pub between : ℕ → ℕ → Char → Bool
between lo hi c = leb lo (code c) && leb (code c) hi

-- `[a-zA-Z_ᜀ-ᜟ]`, the last range being the Baybayin script, U+1700 to U+171F.
abbrev pub begins_name : Char → Bool
begins_name c = between b'a' b'z' c || between b'A' b'Z' c || code c == b'_' || between 5888 5919 c

abbrev pub in_name : Char → Bool
in_name c = begins_name c || between b'0' b'9' c

unfoldable pub identifier : Text → Match
unfolding followed one_of many
identifier t = followed (one_of begins_name t) (many in_name)

-- `[ \t\r]+`
abbrev pub is_blank : Char → Bool
is_blank c = code c == b' ' || code c == b'\t' || code c == b'\r'

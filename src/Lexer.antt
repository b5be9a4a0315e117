-- ===== src/Lexer.antt =====
-- compiler/lexer.py: `TOKEN_SPECIFICATION`, the matches of `finditer`, and `tokenize`. A text is a list
-- of characters.
pub mod Tokens
pub mod Patterns
pub mod Splits
pub mod Alternatives
pub mod Tiles
pub mod Ends
pub mod Breaks
pub mod Positions
pub mod Scanned
pub mod Placed
use Prim.Native.Char.{Char}
use baybayin_language.Base.{
  ℕ, zero, suc, ◌+◌, ◌-◌, String, Bool, ◌||◌, Option, none, some, List, [], ◌∷◌, ◌++◌, length,
  if◌then◌else◌, str_eq, Dict, lookup,
}
use baybayin_language.Lexer.Tokens.{Token}
use baybayin_language.Lexer.Patterns.{
  Text, chars, from_chars, Match, literally, one_of, some_of, is_newline, not_newline,
  comment_multi, comment_single, number, string_pattern, identifier, is_blank,
}

-- Python's `\d`, and what `unicode_escape` makes of the inside of a string, `none` where it raises.
pub record Unicode : Type 0 where
  pub is_digit : Char → Bool
  pub unescape : String → Option String

unfoldable pub token_specification : Unicode → Dict (Text → Match)
unfolding comment_multi comment_single number string_pattern literally one_of some_of identifier
token_specification py =
    ("COMMENT_MULTI", comment_multi)
    ∷ ("COMMENT_SINGLE", comment_single)
    ∷ ("NUMBER", number py.is_digit)
    ∷ ("STRING", string_pattern)
    ∷ ("EQ", literally (chars "=="))
    ∷ ("NEQ", literally (chars "!="))
    ∷ ("LTE", literally (chars "<="))
    ∷ ("GTE", literally (chars ">="))
    ∷ ("LT", literally (chars "<"))
    ∷ ("GT", literally (chars ">"))
    ∷ ("ASSIGN", literally (chars "="))
    ∷ ("PLUS", literally (chars "+"))
    ∷ ("MINUS", literally (chars "-"))
    ∷ ("MULTIPLY", literally (chars "*"))
    ∷ ("DIVIDE", literally (chars "/"))
    ∷ ("NOT", literally (chars "!"))
    ∷ ("LPAREN", literally (chars "("))
    ∷ ("RPAREN", literally (chars ")"))
    ∷ ("LBRACE", literally (chars "{"))
    ∷ ("RBRACE", literally (chars "}"))
    ∷ ("COMMA", literally (chars ","))
    ∷ ("COLON", literally (chars ":"))
    ∷ ("SEMICOLON", literally (chars ";"))
    ∷ ("DOT", literally (chars "."))
    ∷ ("IDENTIFIER", identifier)
    ∷ ("NEWLINE", one_of is_newline)
    ∷ ("SKIP", some_of is_blank)
    ∷ ("MISMATCH", one_of not_newline)
    ∷ []

abbrev pub keywords : Dict String
keywords =
    ("kontrata", "KONTRATA")
    ∷ ("tungkulin", "TUNGKULIN")
    ∷ ("itakda", "ITAKDA")
    ∷ ("ibahagi", "IBAHAGI")
    ∷ ("ibalik", "IBALIK")
    ∷ ("kung", "KUNG")
    ∷ ("kundi", "KUNDI")
    ∷ ("habang", "HABANG")
    ∷ ("tama", "TAMA")
    ∷ ("mali", "MALI")
    ∷ ("wala", "WALA")
    ∷ ("buo", "TYPE_BUO")
    ∷ ("teksto", "TYPE_TEKSTO")
    ∷ ("kondisyon", "TYPE_KONDISYON")
    ∷ ("alamat", "TYPE_ALAMAT")
    ∷ ("ipakita", "IPAKITA")
    ∷ []

-- A match of the master pattern: `lastgroup`, `group()` and `start()`.
pub record Lexeme : Type 0 where
  pub kind : String
  pub value : Text
  pub start : ℕ

-- The alternatives in order: the first that fits is taken.
unfoldable pub first_match : Dict (Text → Match) → Text → Option (String × Text × Text)
first_match [] t = none
first_match ((kind, p) ∷ ps) t = elim (p t) [
  | none ↦ first_match ps t
  | some (v, r) ↦ some (kind, v, r)
]

abbrev pub with_lexeme : Lexeme → Option (List Lexeme) → Option (List Lexeme)
with_lexeme m none = none
with_lexeme m (some ms) = some (m ∷ ms)

-- `finditer` from position `start` on; a character at which nothing fits is passed over. `none` is the
-- end of the fuel.
unfoldable pub finditer : Dict (Text → Match) → ℕ → ℕ → Text → Option (List Lexeme)
unfolding first_match
finditer spec n start [] = some []
finditer spec zero start (c ∷ cs) = none
finditer spec (suc n) start (c ∷ cs) = elim (first_match spec (c ∷ cs)) [
  | none ↦ finditer spec n (suc start) cs
  | some (kind, v, r) ↦
      with_lexeme (record { kind = kind; value = v; start = start })
        (finditer spec n (start + length v) r)
]

-- `value.count('\n')`
unfoldable pub count_newlines : Text → ℕ
count_newlines [] = 0
count_newlines (c ∷ cs) = if is_newline c then suc (count_newlines cs) else count_newlines cs

-- `value.rfind('\n')`, `none` where there is none.
unfoldable pub rfind_newline : Text → Option ℕ
rfind_newline [] = none
rfind_newline (c ∷ cs) = elim (rfind_newline cs) [
  | some i ↦ some (suc i)
  | none ↦ if is_newline c then some 0 else none
]

-- A LexerError with its position; `bad_escape` is the UnicodeDecodeError of a string.
pub data Error : Type 0 where
  unknown_character : Text → ℕ → ℕ → Error
  bad_escape : Error

pub data Result {ℓ} (A : Type ℓ) : Type ℓ where
  done : A → Result A
  fail : Error → Result A
  no_fuel : Result A

-- The variables of the loop of `tokenize`.
pub record Lexer : Type 0 where
  pub line_num : ℕ
  pub line_start : ℕ
  pub tokens : List Token

abbrev pub column_of : Lexer → ℕ → ℕ
column_of s start = start - s.line_start + 1

-- `line_start` behind a comment.
unfoldable pub comment_start : Lexer → Lexeme → ℕ
unfolding rfind_newline
comment_start s m = elim (rfind_newline m.value) [ none ↦ s.line_start | some i ↦ m.start + i + 1 ]

abbrev pub with_token : Lexer → Lexeme → String → String → Lexer
with_token s m kind value = record s {
  tokens =
      s.tokens
      ++ record { type = kind; value = value; line = s.line_num; column = column_of s m.start }
        ∷ [];
}

abbrev pub keyword_kind : Text → String
keyword_kind v = elim (lookup (from_chars v) keywords) [ none ↦ "IDENTIFIER" | some kind ↦ kind ]

-- `value[1:-1]`
unfoldable pub without_last : Text → Text
without_last [] = []
without_last (c ∷ []) = []
without_last (c ∷ d ∷ cs) = c ∷ without_last (d ∷ cs)

abbrev pub tail : Text → Text
tail [] = []
tail (c ∷ cs) = cs

-- One round of the loop over the matches.
unfoldable pub step : Unicode → Lexer → Lexeme → Result Lexer
unfolding count_newlines comment_start without_last
step py s m =
    if str_eq m.kind "NEWLINE"
    then done (record s { line_num = suc s.line_num; line_start = m.start + length m.value })
    else if str_eq m.kind "SKIP"
    then done s
    else if str_eq m.kind "COMMENT_SINGLE" || str_eq m.kind "COMMENT_MULTI"
    then done (record s {
      line_num = s.line_num + count_newlines m.value;
      line_start = comment_start s m;
    })
    else if str_eq m.kind "MISMATCH"
    then fail (unknown_character m.value s.line_num (column_of s m.start))
    else if str_eq m.kind "IDENTIFIER"
    then done (with_token s m (keyword_kind m.value) (from_chars m.value))
    else if str_eq m.kind "STRING"
    then elim (py.unescape (from_chars (without_last (tail m.value)))) [
      | none ↦ fail bad_escape
      | some text ↦ done (with_token s m m.kind text)
    ]
    else done (with_token s m m.kind (from_chars m.value))

unfoldable pub steps : Unicode → Lexer → List Lexeme → Result Lexer
unfolding step
steps py s [] = done s
steps py s (m ∷ ms) = elim (step py s m) [
  | done s' ↦ steps py s' ms
  | fail e ↦ fail e
  | no_fuel ↦ no_fuel
]

abbrev pub initial : Lexer
initial = record { line_num = 1; line_start = 0; tokens = [] }

-- The EOF token, behind a text of `size` characters.
abbrev pub end_token : Lexer → ℕ → Token
end_token s size = record { type = "EOF"; value = ""; line = s.line_num; column = column_of s size }

abbrev pub finish : Result Lexer → ℕ → Result (List Token)
finish (done s) size = done (s.tokens ++ end_token s size ∷ [])
finish (fail e) size = fail e
finish no_fuel size = no_fuel

-- `Lexer(source_code).tokenize()`
unfoldable pub tokenize : Unicode → ℕ → Text → Result (List Token)
unfolding token_specification finditer steps
tokenize py n source = elim (finditer (token_specification py) n 0 source) [
  | none ↦ no_fuel
  | some ms ↦ finish (steps py initial ms) (length source)
]

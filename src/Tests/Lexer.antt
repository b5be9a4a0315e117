-- ===== src/Tests/Lexer.antt =====
-- The lexer on short texts.
use baybayin_language.Base.{ℕ, String, ◌≡◌, ◌⊎◌, refl, true, some, List, [], ◌∷◌, arith, lookup}
use baybayin_language.Lexer.Tokens.{Token}
use baybayin_language.Lexer.Patterns.{Text, chars, between}
use baybayin_language.Lexer.{
  Unicode, token_specification, Lexeme, finditer, Error, unknown_character, done, fail, tokenize,
  count_newlines,
}
use baybayin_language.Lexer.Tiles.{Tiles, finditer-Tiles}
use baybayin_language.Lexer.Ends.{TokenList, tokenize-ends}
use baybayin_language.Lexer.Breaks.{AvoidsBreaks}
use baybayin_language.Lexer.Scanned.{Scanned}
use baybayin_language.Lexer.Placed.{one_line_strings, tokenize-Scanned}

-- ASCII digits, and strings without escapes.
abbrev ascii : Unicode
ascii = record { is_digit = between b'0' b'9'; unescape = λ s. some s }

ascii-AvoidsBreaks : AvoidsBreaks ascii.is_digit
ascii-AvoidsBreaks c h = ground arith

-- A declaration with a comment behind it, and a second line.
abbrev two_lines : Text
two_lines = chars "itakda x // a\n  x = 'b'"

abbrev token : String → String → ℕ → ℕ → Token
token type value line column = record { type = type; value = value; line = line; column = column }

abbrev two_lines_tokens : List Token
two_lines_tokens =
    token "ITAKDA" "itakda" 1 1
    ∷ token "IDENTIFIER" "x" 1 8
    ∷ token "IDENTIFIER" "x" 2 3
    ∷ token "ASSIGN" "=" 2 5
    ∷ token "STRING" "b" 2 7
    ∷ token "EOF" "" 2 10
    ∷ []

two_lines_run : tokenize ascii 23 two_lines ≡ done two_lines_tokens
unfolding tokenize lookup
two_lines_run = refl

-- A character that begins no token is a LexerError with its position.
unknown_run : tokenize ascii 9 (chars "x\n y @") ≡ fail (unknown_character (chars "@") 2 4)
unfolding tokenize lookup
unknown_run = refl

-- Behind a string that spans two lines the line number is that of its beginning.
string_break_run :
    tokenize ascii 9 (chars "'a\nb' c")
    ≡ done (token "STRING" "a\nb" 1 1 ∷ token "IDENTIFIER" "c" 1 7 ∷ token "EOF" "" 1 8 ∷ [])
unfolding tokenize lookup
string_break_run = refl

tokenize-ends_example :
    ((ts : List Token) × (tokenize ascii 23 two_lines ≡ done ts) × TokenList ts)
    ⊎ ((e : Error) × (tokenize ascii 23 two_lines ≡ fail e))
tokenize-ends_example = tokenize-ends ascii 23 two_lines (omega arith)

finditer-Tiles_example :
    (ms : List Lexeme) × (finditer (token_specification ascii) 23 0 two_lines ≡ some ms)
    × Tiles (token_specification ascii) 0 two_lines ms
finditer-Tiles_example = finditer-Tiles ascii 23 0 two_lines (omega arith)

abbrev lexeme : String → String → ℕ → Lexeme
lexeme kind value start = record { kind = kind; value = chars value; start = start }

abbrev two_lines_lexemes : List Lexeme
two_lines_lexemes =
    lexeme "IDENTIFIER" "itakda" 0
    ∷ lexeme "SKIP" " " 6
    ∷ lexeme "IDENTIFIER" "x" 7
    ∷ lexeme "SKIP" " " 8
    ∷ lexeme "COMMENT_SINGLE" "// a" 9
    ∷ lexeme "NEWLINE" "\n" 13
    ∷ lexeme "SKIP" "  " 14
    ∷ lexeme "IDENTIFIER" "x" 16
    ∷ lexeme "SKIP" " " 17
    ∷ lexeme "ASSIGN" "=" 18
    ∷ lexeme "SKIP" " " 19
    ∷ lexeme "STRING" "'b'" 20
    ∷ []

two_lines_found : finditer (token_specification ascii) 23 0 two_lines ≡ some two_lines_lexemes
unfolding finditer token_specification
two_lines_found = refl

two_lines_strings : one_line_strings two_lines_lexemes ≡ true
unfolding one_line_strings count_newlines
two_lines_strings = refl

tokenize-Scanned_example : Scanned ascii [] two_lines two_lines_tokens
tokenize-Scanned_example =
    tokenize-Scanned ascii 23 two_lines two_lines_lexemes two_lines_tokens ascii-AvoidsBreaks
      (omega arith) two_lines_found two_lines_strings two_lines_run

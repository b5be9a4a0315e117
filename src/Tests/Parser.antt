-- ===== src/Tests/Parser.antt =====
-- The parser on the tokens of short programs.
use baybayin_language.Base.{
  ℕ, ◌≤◌, ◌++◌, String, ◌≡◌, ◌⊎◌, refl, arith, length, true, false, none, some, List, [], ◌∷◌,
  lookup,
}
use baybayin_language.Ast.{
  literal, numero, identifier, member, unary, assign, binary, call, UnaryOp, no_args, arg, BinaryOp,
  var_decl, expr_stmt, end, seq, Program, Expr,
}
use baybayin_language.Lexer.Tokens.{Token}
use baybayin_language.Parser.{
  parsed, unexpected, bad_number, number_literal, Numbers, expression, match_any,
}
use baybayin_language.Parser.Programs.{parse}
use baybayin_language.Parser.Takes.{has_end}
use baybayin_language.Parser.Printed.{tok, printed, Fine}
use baybayin_language.Parser.Reading.{Quiet}
use baybayin_language.Parser.RoundTrip.{expression-printed}
use baybayin_language.Parser.Ends.{parse-ends, expression-progress}

abbrev pub no_numbers : Numbers
no_numbers = record { has_point = λ v. false; to_int = λ v. some 7; to_float = λ v. some v }

abbrev token : String → String → Token
token type value = record { type = type; value = value; line = 1; column = 1 }

-- itakda x = 7 + 7 * x; ipakita(x)
abbrev short_tokens : List Token
short_tokens =
    token "ITAKDA" "itakda"
    ∷ token "IDENTIFIER" "x"
    ∷ token "ASSIGN" "="
    ∷ token "NUMBER" "7"
    ∷ token "PLUS" "+"
    ∷ token "NUMBER" "7"
    ∷ token "MULTIPLY" "*"
    ∷ token "IDENTIFIER" "x"
    ∷ token "SEMICOLON" ";"
    ∷ token "IPAKITA" "ipakita"
    ∷ token "LPAREN" "("
    ∷ token "IDENTIFIER" "x"
    ∷ token "RPAREN" ")"
    ∷ token "EOF" ""
    ∷ []

abbrev short_program : Program
short_program =
    seq
      (var_decl (record {
        name = "x";
        type_ann = none;
        initializer = some (
            binary (literal (numero 7)) BinaryOp.add
              (binary (literal (numero 7)) BinaryOp.mul (identifier "x")));
      }))
      (seq (expr_stmt (call (identifier "ipakita") (arg (identifier "x") no_args))) end)

short_parses : parse no_numbers 14 short_tokens ≡ parsed short_program (token "EOF" "" ∷ [])
unfolding parse lookup
short_parses = refl

-- An assignment to a number is refused at the `=`.
bad_target :
    parse no_numbers 5
      (token "NUMBER" "7" ∷ token "ASSIGN" "=" ∷ token "NUMBER" "7" ∷ token "EOF" "" ∷ [])
    ≡ unexpected (token "ASSIGN" "=")
unfolding parse lookup
bad_target = refl

-- A number that Python does not convert ends the parser with a ValueError.
refused_number :
    parse (record no_numbers { to_int = λ v. none }) 2 (token "NUMBER" "7" ∷ token "EOF" "" ∷ [])
    ≡ bad_number (token "NUMBER" "7")
unfolding parse lookup
refused_number = refl

parse-ends_example :
    ((p : Program) × (rest : List Token) × (parse no_numbers 14 short_tokens ≡ parsed p rest))
    ⊎ ((t : Token) × (parse no_numbers 14 short_tokens ≡ unexpected t))
    ⊎ ((t : Token) × (parse no_numbers 14 short_tokens ≡ bad_number t)
        × (number_literal no_numbers t.value ≡ none))
unfolding has_end
parse-ends_example = parse-ends no_numbers 14 short_tokens (omega arith) refl

-- x * 7 ;
abbrev product_tokens : List Token
product_tokens =
    token "IDENTIFIER" "x"
    ∷ token "MULTIPLY" "*"
    ∷ token "NUMBER" "7"
    ∷ token "SEMICOLON" ";"
    ∷ token "EOF" ""
    ∷ []

abbrev after_product : List Token
after_product = token "SEMICOLON" ";" ∷ token "EOF" "" ∷ []

product_parses :
    expression no_numbers 5 product_tokens
    ≡ parsed (binary (identifier "x") BinaryOp.mul (literal (numero 7))) after_product
unfolding expression lookup
product_parses = refl

expression-progress_example : (length after_product ≤ 4) × (has_end after_product ≡ true)
unfolding has_end
expression-progress_example =
    expression-progress no_numbers product_tokens
      (binary (identifier "x") BinaryOp.mul (literal (numero 7))) after_product refl product_parses

abbrev pub seven : ℕ → String
seven n = "7"

-- k.x = (7 + y) * f(-y, 7) == y
abbrev nested : Expr
nested = assign (member (identifier "k") "x") (
    binary
      (binary (binary (literal (numero 7)) BinaryOp.add (identifier "y")) BinaryOp.mul (
        call (identifier "f")
          (arg (unary UnaryOp.minus (identifier "y")) (arg (literal (numero 7)) no_args))))
      BinaryOp.eq (identifier "y"))

expression-printed_example :
    expression no_numbers 40 (printed seven nested ++ tok "SEMICOLON" ";" ∷ [])
    ≡ parsed nested (tok "SEMICOLON" ";" ∷ [])
unfolding printed Fine Quiet lookup match_any
expression-printed_example =
    expression-printed seven no_numbers nested 40 (tok "SEMICOLON" ";" ∷ [])
      (refl, tt, (((refl, tt), (tt, (tt, (refl, tt)))), tt)) (omega arith) refl
      (refl, (refl, (refl, (refl, refl))))

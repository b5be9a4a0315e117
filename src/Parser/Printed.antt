-- ===== src/Parser/Printed.antt =====
-- compiler/parser.py: the tokens of an expression with the fewest parentheses, the description that the
-- rules from `expression` to `primary` are checked against.
use baybayin_language.Base.{some, ℕ, ◌+◌, String, ◌≡◌, Bool, true, false, List, [], ◌∷◌, ◌++◌, ltb}
use baybayin_language.Lexer.Tokens.{Token}
use baybayin_language.Ast.{
  Literal, numero, decimal, teksto, kondisyon, wala, Expr, literal, identifier, member, call, unary,
  binary, assign, Exprs, no_args, arg, BinaryOp, add, sub, mul, div, lt, gt, le, ge, eq, ne,
  UnaryOp, bang, minus,
}
use baybayin_language.Parser.{Numbers, number_literal, assignable}

-- A token of this type and text.
abbrev pub tok : String → String → Token
tok type value = record { type = type; value = value; line = 0; column = 0 }

-- `*` and `/` bind the tightest, then `+` and `-`, the orders, and the equalities.
abbrev pub rank : BinaryOp → ℕ
rank mul = 0
rank div = 0
rank add = 1
rank sub = 1
rank lt = 2
rank gt = 2
rank le = 2
rank ge = 2
rank eq = 3
rank ne = 3

abbrev pub op_token : BinaryOp → Token
op_token mul = tok "MULTIPLY" "*"
op_token div = tok "DIVIDE" "/"
op_token add = tok "PLUS" "+"
op_token sub = tok "MINUS" "-"
op_token lt = tok "LT" "<"
op_token gt = tok "GT" ">"
op_token le = tok "LTE" "<="
op_token ge = tok "GTE" ">="
op_token eq = tok "EQ" "=="
op_token ne = tok "NEQ" "!="

abbrev pub prefix_token : UnaryOp → Token
prefix_token bang = tok "NOT" "!"
prefix_token minus = tok "MINUS" "-"

-- How loosely an expression binds.
abbrev pub level : Expr → ℕ
level (literal l) = 0
level (identifier x) = 0
level (member e x) = 1
level (call e es) = 1
level (unary op e) = 2
level (binary l op r) = 3 + rank op
level (assign t e) = 7

abbrev pub in_parens : List Token → List Token
in_parens ts = tok "LPAREN" "(" ∷ (ts ++ tok "RPAREN" ")" ∷ [])

abbrev pub wrapped : Bool → List Token → List Token
wrapped true ts = in_parens ts
wrapped false ts = ts

-- The text of a number is a parameter.
module _ (show : ℕ → String) where
  abbrev pub literal_token : Literal → Token
  literal_token (numero n) = tok "NUMBER" (show n)
  literal_token (decimal x) = tok "NUMBER" x
  literal_token (teksto s) = tok "STRING" s
  literal_token (kondisyon true) = tok "TAMA" "tama"
  literal_token (kondisyon false) = tok "MALI" "mali"
  literal_token wala = tok "WALA" "wala"

  unfoldable mutual
    pub printed : Expr → List Token
    printed (literal l) = literal_token l ∷ []
    printed (identifier x) = tok "IDENTIFIER" x ∷ []
    printed (member e x) =
        wrapped (ltb 1 (level e)) (printed e) ++ tok "DOT" "." ∷ tok "IDENTIFIER" x ∷ []
    printed (call e es) = wrapped (ltb 1 (level e)) (printed e) ++ in_parens (printed_args es)
    printed (unary op e) = prefix_token op ∷ wrapped (ltb 2 (level e)) (printed e)
    printed (binary l op r) =
        wrapped (ltb (3 + rank op) (level l)) (printed l)
        ++ op_token op ∷ wrapped (ltb (2 + rank op) (level r)) (printed r)
    printed (assign t e) = wrapped (ltb 6 (level t)) (printed t) ++ tok "ASSIGN" "=" ∷ printed e

    pub printed_args : Exprs → List Token
    printed_args no_args = []
    printed_args (arg e no_args) = printed e
    printed_args (arg e (arg e' es)) = printed e ++ tok "COMMA" "," ∷ printed_args (arg e' es)

  -- Where at most level `r` may stand.
  abbrev pub at_level : ℕ → Expr → List Token
  at_level r e = wrapped (ltb r (level e)) (printed e)

  -- The numbers are read back from their texts, and only names and members are assigned to.
  abbrev pub FineLiteral : Numbers → Literal → Type 0
  FineLiteral nums (numero n) = number_literal nums (show n) ≡ some (numero n)
  FineLiteral nums (decimal x) = number_literal nums x ≡ some (decimal x)
  FineLiteral nums _ = Unit {0}

  unfoldable mutual
    pub Fine : Numbers → Expr → Type 0
    Fine nums (literal l) = FineLiteral nums l
    Fine nums (identifier x) = Unit {0}
    Fine nums (member e x) = Fine nums e
    Fine nums (call e es) = Fine nums e × FineArgs nums es
    Fine nums (unary op e) = Fine nums e
    Fine nums (binary l op r) = Fine nums l × Fine nums r
    Fine nums (assign t e) = (assignable t ≡ true) × Fine nums t × Fine nums e

    pub FineArgs : Numbers → Exprs → Type 0
    FineArgs nums no_args = Unit {0}
    FineArgs nums (arg e es) = Fine nums e × FineArgs nums es

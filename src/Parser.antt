-- ===== src/Parser.antt =====
-- compiler/parser.py: the parser's state and helpers, and the grammar of expressions. `tokens` never
-- changes and `current` only grows, so the state is the list of the tokens from `current` on, and
-- `previous()` is the token that the last `match` or `consume` has taken.
pub mod Declarations
pub mod Programs
pub mod Takes
pub mod Expressions
pub mod Statements
pub mod Ends
pub mod Printed
pub mod Reading
pub mod Openings
pub mod Levels
pub mod Operands
pub mod RoundTrip
pub mod Source
pub mod Sizes
pub mod Clauses
pub mod Fronts
pub mod Inverse
pub mod Nested
pub mod WholeProgram
use baybayin_language.Base.{
  ℕ, zero, suc, String, Bool, true, false, not, ◌&&◌, Option, none, some, List, [], ◌∷◌,
  if◌then◌else◌, str_eq, Dict, lookup,
}
use baybayin_language.Lexer.Tokens.{Token}
use baybayin_language.Ast.{
  Float, Literal, numero, decimal, teksto, kondisyon, wala, Expr, literal, identifier, member, call,
  unary, binary, assign, Exprs, no_args, arg, BinaryOp, add, sub, mul, div, lt, gt, le, ge, eq, ne,
  UnaryOp, bang, minus,
}

-- A ParserError stands at a token, and so does the ValueError of a number; `no_token` is the IndexError of
-- `self.tokens[self.current]`.
pub data Outcome {ℓ} (A : Type ℓ) : Type ℓ where
  parsed : A → List Token → Outcome A
  unexpected bad_number : Token → Outcome A
  no_token out_of_fuel : Outcome A

abbrev pub Parse {ℓ} : Type ℓ → Type ℓ
Parse A = List Token → Outcome A

abbrev pub continue {ℓ κ} : {A : Type ℓ} {B : Type κ} → Outcome A → (A → Parse B) → Outcome B
continue (parsed a ts) f = f a ts
continue (unexpected t) f = unexpected t
continue (bad_number t) f = bad_number t
continue no_token f = no_token
continue out_of_fuel f = out_of_fuel

infixl 5 ◌>>=◌ ◌>>◌
abbrev pub ◌>>=◌ {ℓ κ} : {A : Type ℓ} {B : Type κ} → Parse A → (A → Parse B) → Parse B
◌>>=◌ p f ts = continue (p ts) f

abbrev pub ◌>>◌ {ℓ κ} : {A : Type ℓ} {B : Type κ} → Parse A → Parse B → Parse B
p >> q = p >>= λ _. q

-- A parse that takes nothing.
abbrev pub give {ℓ} : {A : Type ℓ} → A → Parse A
give a ts = parsed a ts

-- Python's `int` and `float` on the text of a number, the latter by the `repr` of its result, and
-- whether the text has a point. A conversion is `none` where it raises a ValueError.
pub record Numbers : Type 0 where
  pub has_point : String → Bool
  pub to_int : String → Option ℕ
  pub to_float : String → Option Float

unfoldable pub at_end : Token → Bool
at_end t = str_eq t.type "EOF"

-- `is_at_end()`
unfoldable pub is_at_end : Parse Bool
unfolding at_end
is_at_end [] = no_token
is_at_end (t ∷ ts) = parsed (at_end t) (t ∷ ts)

-- `check(token_type)`
unfoldable pub check : String → Parse Bool
unfolding at_end
check type [] = no_token
check type (t ∷ ts) = parsed (not (at_end t) && str_eq t.type type) (t ∷ ts)

-- `match(*token_types)`, with a value for each type: that of the token's type and the token.
unfoldable pub match_any {ℓ} : {A : Type ℓ} → Dict A → Parse (Option (A × Token))
unfolding at_end
match_any table [] = no_token
match_any table (t ∷ ts) = elim (at_end t) [
  | true ↦ parsed none (t ∷ ts)
  | false ↦ elim (lookup t.type table) [
    | none ↦ parsed none (t ∷ ts)
    | some a ↦ parsed (some (a, t)) ts
  ]
]

-- `match(token_type)`
abbrev pub match_type : String → Parse (Option (Unit {0} × Token))
match_type type = match_any ((type, tt) ∷ [])

-- `consume(token_type, …)`
unfoldable pub consume : String → Parse Token
unfolding at_end
consume type [] = no_token
consume type (t ∷ ts) = elim (not (at_end t) && str_eq t.type type) [
  | true ↦ parsed t ts
  | false ↦ unexpected t
]

-- `raise ParserError(…)` at `peek()`.
unfoldable pub unexpected_here {ℓ} : {A : Type ℓ} → Parse A
unexpected_here [] = no_token
unexpected_here (t ∷ ts) = unexpected t

-- What `primary` makes of a token.
pub data Primary : Type 0 where
  constant : Literal → Primary
  number text name print_name paren : Primary

abbrev pub primaries : Dict Primary
primaries =
    ("TAMA", constant (kondisyon true))
    ∷ ("MALI", constant (kondisyon false))
    ∷ ("WALA", constant wala)
    ∷ ("NUMBER", number)
    ∷ ("STRING", text)
    ∷ ("IDENTIFIER", name)
    ∷ ("IPAKITA", print_name)
    ∷ ("LPAREN", paren)
    ∷ []

abbrev pub number_literal : Numbers → String → Option Literal
number_literal nums v =
    if nums.has_point v
    then elim (nums.to_float v) [ none ↦ none | some x ↦ some (decimal x) ]
    else elim (nums.to_int v) [ none ↦ none | some n ↦ some (numero n) ]

-- The literal of a number's token, or the ValueError.
abbrev pub literal_of : Option Literal → Token → Parse Expr
literal_of none t ts = bad_number t
literal_of (some l) t ts = parsed (literal l) ts

pub data Suffix : Type 0 where
  arguments_of member_of : Suffix

abbrev pub suffixes : Dict Suffix
suffixes = ("LPAREN", arguments_of) ∷ ("DOT", member_of) ∷ []

abbrev pub prefixes : Dict UnaryOp
prefixes = ("NOT", bang) ∷ ("MINUS", minus) ∷ []

-- `isinstance(expr, (Identifier, MemberExpr))`
abbrev pub assignable : Expr → Bool
assignable (identifier x) = true
assignable (member e x) = true
assignable _ = false

-- The rules below `expression`, given the parser of inner expressions. The loops and the rules that
-- call themselves are on fuel.
module _ (nums : Numbers) (expression : Parse Expr) where
  unfoldable pub primary_of : Primary → Token → Parse Expr
  unfolding consume
  primary_of (constant l) t = give (literal l)
  primary_of number t = literal_of (number_literal nums t.value) t
  primary_of text t = give (literal (teksto t.value))
  primary_of name t = give (identifier t.value)
  primary_of print_name t = give (identifier "ipakita")
  primary_of paren t = do e ← expression; consume "RPAREN"; give e

  unfoldable pub primary : Parse Expr
  unfolding match_any primary_of unexpected_here
  primary =
      match_any primaries >>= λ m. elim m [ none ↦ unexpected_here | some (p, t) ↦ primary_of p t ]

  -- The arguments up to the closing parenthesis, at least one.
  unfoldable pub arguments : ℕ → Parse Exprs
  unfolding match_any
  arguments zero = λ ts. out_of_fuel
  arguments (suc n) = expression >>= λ e. match_type "COMMA" >>= λ m. elim m [
    | none ↦ give (arg e no_args)
    | some _ ↦ arguments n >>= λ es. give (arg e es)
  ]

  unfoldable pub call_arguments : ℕ → Parse Exprs
  unfolding check arguments consume
  call_arguments n = check "RPAREN" >>= λ empty. elim empty [
    | true ↦ (do consume "RPAREN"; give no_args)
    | false ↦ (do es ← arguments n; consume "RPAREN"; give es)
  ]

  -- The loop of `call` behind the callee or object `e`.
  unfoldable pub call_suffixes : ℕ → Expr → Parse Expr
  unfolding match_any call_arguments consume
  call_suffixes zero e = λ ts. out_of_fuel
  call_suffixes (suc n) e = match_any suffixes >>= λ m. elim m [
    | none ↦ give e
    | some (s, _) ↦ elim s [
      | arguments_of ↦ call_arguments n >>= λ es. call_suffixes n (call e es)
      | member_of ↦ consume "IDENTIFIER" >>= λ t. call_suffixes n (member e t.value)
    ]
  ]

  unfoldable pub call_rule : ℕ → Parse Expr
  unfolding primary call_suffixes
  call_rule n = primary >>= λ e. call_suffixes n e

  unfoldable pub unary_rule : ℕ → Parse Expr
  unfolding match_any call_rule
  unary_rule zero = λ ts. out_of_fuel
  unary_rule (suc n) = match_any prefixes >>= λ m. elim m [
    | none ↦ call_rule (suc n)
    | some (op, _) ↦ unary_rule n >>= λ e. give (unary op e)
  ]

-- The loop of a left-associative rule behind its first operand.
unfoldable pub binary_tail : ℕ → Dict BinaryOp → Parse Expr → Expr → Parse Expr
unfolding match_any
binary_tail zero ops operand e = λ ts. out_of_fuel
binary_tail (suc n) ops operand e = match_any ops >>= λ m. elim m [
  | none ↦ give e
  | some (op, _) ↦ operand >>= λ r. binary_tail n ops operand (binary e op r)
]

unfoldable pub binary_rule : ℕ → Dict BinaryOp → Parse Expr → Parse Expr
unfolding binary_tail
binary_rule n ops operand = operand >>= λ e. binary_tail n ops operand e

abbrev pub factor : ℕ → Parse Expr → Parse Expr
factor n = binary_rule n (("MULTIPLY", mul) ∷ ("DIVIDE", div) ∷ [])

abbrev pub term : ℕ → Parse Expr → Parse Expr
term n = binary_rule n (("PLUS", add) ∷ ("MINUS", sub) ∷ [])

abbrev pub comparison : ℕ → Parse Expr → Parse Expr
comparison n = binary_rule n (("LT", lt) ∷ ("GT", gt) ∷ ("LTE", le) ∷ ("GTE", ge) ∷ [])

abbrev pub equality : ℕ → Parse Expr → Parse Expr
equality n = binary_rule n (("EQ", eq) ∷ ("NEQ", ne) ∷ [])

-- `assignment` over `equality`: the ParserError stands at the `=`.
unfoldable pub assignment : ℕ → Parse Expr → Parse Expr
unfolding match_any
assignment zero operand = λ ts. out_of_fuel
assignment (suc n) operand = operand >>= λ target. match_type "ASSIGN" >>= λ m. elim m [
  | none ↦ give target
  | some (_, t) ↦ assignment n operand >>= λ e. elim (assignable target) [
    | true ↦ give (assign target e)
    | false ↦ λ ts. unexpected t
  ]
]

-- The rule for expressions, over that for the expressions in parentheses and arguments.
unfoldable pub expression_rule : Numbers → ℕ → Parse Expr → Parse Expr
unfolding unary_rule binary_rule assignment
expression_rule nums n inner =
    assignment n (equality n (comparison n (term n (factor n (unary_rule nums inner n)))))

unfoldable pub expression : Numbers → ℕ → Parse Expr
unfolding expression_rule
expression nums zero = λ ts. out_of_fuel
expression nums (suc n) = expression_rule nums (suc n) (expression nums n)

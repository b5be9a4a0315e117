-- ===== src/Parser/Declarations.antt =====
-- compiler/parser.py: the grammar of declarations and statements, and `parse`.
use baybayin_language.Base.{
  ℕ, zero, suc, String, Bool, true, false, ◌||◌, Option, none, some, List, [], ◌∷◌, Dict,
}
use baybayin_language.Ast.{
  Expr, Param, VarDecl, Signature, Stmt, contract_decl, func_decl, if_stmt, while_stmt, return_stmt,
  expr_stmt, Block, end, seq, Else, no_else, else_block, else_if, Members, no_members, field,
  method,
}
use baybayin_language.Lexer.Tokens.{Token}
use baybayin_language.Parser.{
  out_of_fuel, Parse, ◌>>=◌, ◌>>◌, give, is_at_end, check, match_any, match_type, consume,
  unexpected_here,
}

-- `match(token_type)` for an optional token.
unfoldable pub skip : String → Parse (Unit {0})
unfolding match_any
skip type = match_type type >>= λ m. give tt

unfoldable pub holds_next : String → Parse Bool
unfolding match_any
holds_next type = match_type type >>= λ m. elim m [ none ↦ give false | some _ ↦ give true ]

-- The types that `parse_type` knows; `none` is an IDENTIFIER, which stands for itself.
abbrev pub type_names : Dict (Option String)
type_names =
    ("TYPE_BUO", some "buo")
    ∷ ("TYPE_TEKSTO", some "teksto")
    ∷ ("TYPE_KONDISYON", some "kondisyon")
    ∷ ("TYPE_ALAMAT", some "alamat")
    ∷ ("IDENTIFIER", none)
    ∷ []

abbrev pub type_text : Option String → Token → String
type_text (some s) t = s
type_text none t = t.value

unfoldable pub parse_type : Parse String
unfolding match_any unexpected_here
parse_type = match_any type_names >>= λ m. elim m [
  | none ↦ unexpected_here
  | some (s, t) ↦ give (type_text s t)
]

-- `if self.match('COLON'): … = self.parse_type()`
unfoldable pub optional_type : Parse (Option String)
unfolding match_any parse_type
optional_type = match_type "COLON" >>= λ m. elim m [
  | none ↦ give none
  | some _ ↦ parse_type >>= λ s. give (some s)
]

unfoldable pub param : Parse Param
unfolding consume parse_type
param = do
  t ← consume "IDENTIFIER"
  consume "COLON"
  s ← parse_type
  give (record { name = t.value; type_ann = s })

-- The parameters, at least one.
unfoldable pub params_list : ℕ → Parse (List Param)
unfolding param match_any
params_list zero = λ ts. out_of_fuel
params_list (suc n) = param >>= λ p. match_type "COMMA" >>= λ m. elim m [
  | none ↦ give (p ∷ [])
  | some _ ↦ params_list n >>= λ ps. give (p ∷ ps)
]

unfoldable pub params : ℕ → Parse (List Param)
unfolding check params_list
params n = check "RPAREN" >>= λ empty. elim empty [ true ↦ give [] | false ↦ params_list n ]

-- `func_decl` up to the body.
unfoldable pub signature : ℕ → Parse Signature
unfolding consume params holds_next optional_type
signature n = do
  t ← consume "IDENTIFIER"
  consume "LPAREN"
  ps ← params n
  consume "RPAREN"
  shared ← holds_next "IBAHAGI"
  s ← optional_type
  give (record { name = t.value; params = ps; return_type = s; is_public = shared })

-- `check('RBRACE')` or the end: where the loops of a block and of a contract stop.
unfoldable pub at_close : Parse Bool
unfolding check is_at_end
at_close = do closing ← check "RBRACE"; ended ← is_at_end; give (closing || ended)

-- The rules over the parser of expressions.
module _ (expr : Parse Expr) where
  unfoldable pub initializer : Parse (Option Expr)
  unfolding match_any
  initializer = match_type "ASSIGN" >>= λ m. elim m [
    | none ↦ give none
    | some _ ↦ expr >>= λ e. give (some e)
  ]

  unfoldable pub variable : Parse VarDecl
  unfolding consume optional_type initializer skip
  variable = do
    t ← consume "IDENTIFIER"
    s ← optional_type
    e ← initializer
    skip "SEMICOLON"
    give (record { name = t.value; type_ann = s; initializer = e })

  -- A condition with or without parentheses around it.
  unfoldable pub condition : Parse Expr
  unfolding holds_next consume
  condition = holds_next "LPAREN" >>= λ opened. elim opened [
    | true ↦ (do e ← expr; consume "RPAREN"; give e)
    | false ↦ expr
  ]

  unfoldable pub return_value_of : Parse (Option Expr)
  unfolding check at_close
  return_value_of = check "SEMICOLON" >>= λ bare. at_close >>= λ stop. elim (bare || stop) [
    | true ↦ give none
    | false ↦ expr >>= λ e. give (some e)
  ]

  unfoldable pub return_statement : Parse Stmt
  unfolding return_value_of skip
  return_statement = do e ← return_value_of; skip "SEMICOLON"; give (return_stmt e)

  unfoldable pub expression_statement : Parse Stmt
  unfolding skip
  expression_statement = do e ← expr; skip "SEMICOLON"; give (expr_stmt e)

-- The rules over that of the declarations in a block too.
module _ (expr : Parse Expr) (declaration : Parse Stmt) where
  -- The statements up to the closing brace.
  unfoldable pub statements : ℕ → Parse Block
  unfolding at_close
  statements zero = λ ts. out_of_fuel
  statements (suc n) = at_close >>= λ stop. elim stop [
    | true ↦ give end
    | false ↦ declaration >>= λ s. statements n >>= λ b. give (seq s b)
  ]

  unfoldable pub block_statement : ℕ → Parse Block
  unfolding consume statements
  block_statement n = do consume "LBRACE"; b ← statements n; consume "RBRACE"; give b

  -- The branch behind `kundi`: `if_statement` again behind another `kung`.
  unfoldable pub else_branch : ℕ → Parse Else
  unfolding match_any condition block_statement
  else_branch zero = λ ts. out_of_fuel
  else_branch (suc n) = match_type "KUNDI" >>= λ m. elim m [
    | none ↦ give no_else
    | some _ ↦ match_type "KUNG" >>= λ k. elim k [
      | none ↦ block_statement n >>= λ b. give (else_block b)
      | some _ ↦ condition expr >>= λ c.
          block_statement n >>= λ t. else_branch n >>= λ e. give (else_if c t e)
    ]
  ]

  unfoldable pub if_statement : ℕ → Parse Stmt
  unfolding condition block_statement else_branch
  if_statement n = do
    c ← condition expr
    t ← block_statement n
    e ← else_branch n
    give (if_stmt c t e)

  unfoldable pub while_statement : ℕ → Parse Stmt
  unfolding condition block_statement
  while_statement n = do c ← condition expr; b ← block_statement n; give (while_stmt c b)

  -- The members of a contract up to the closing brace.
  unfoldable pub members : ℕ → Parse Members
  unfolding at_close match_any variable signature block_statement unexpected_here
  members zero = λ ts. out_of_fuel
  members (suc n) = at_close >>= λ stop. elim stop [
    | true ↦ give no_members
    | false ↦ match_any (("ITAKDA", true) ∷ ("TUNGKULIN", false) ∷ []) >>= λ m. elim m [
      | none ↦ unexpected_here
      | some (is_field, _) ↦ elim is_field [
        | true ↦ variable expr >>= λ d. members n >>= λ ms. give (field d ms)
        | false ↦
            signature n >>= λ s. block_statement n >>= λ b. members n >>= λ ms. give (method s b ms)
      ]
    ]
  ]

  unfoldable pub contract : ℕ → Parse Stmt
  unfolding consume members
  contract n = do
    t ← consume "IDENTIFIER"
    consume "LBRACE"
    ms ← members n
    consume "RBRACE"
    give (contract_decl t.value ms)

  unfoldable pub function : ℕ → Parse Stmt
  unfolding signature block_statement
  function n = do s ← signature n; b ← block_statement n; give (func_decl s b)

-- ===== src/Parser/Programs.antt =====
-- compiler/parser.py: `declaration`, `statement` and `parse`.
use baybayin_language.Base.{ℕ, zero, suc, true, false, none, some, [], ◌∷◌, Dict}
use baybayin_language.Ast.{Expr, Stmt, var_decl, block, end, seq, Program}
use baybayin_language.Parser.{
  out_of_fuel, Parse, ◌>>=◌, give, is_at_end, check, match_any, Numbers, expression,
}
use baybayin_language.Parser.Declarations.{
  variable, block_statement, if_statement, while_statement, return_statement, expression_statement,
  contract, function,
}

-- The keywords that begin a declaration or statement.
pub data Keyword : Type 0 where
  kontrata tungkulin itakda kung habang ibalik : Keyword

abbrev pub keywords : Dict Keyword
keywords =
    ("KONTRATA", kontrata)
    ∷ ("TUNGKULIN", tungkulin)
    ∷ ("ITAKDA", itakda)
    ∷ ("KUNG", kung)
    ∷ ("HABANG", habang)
    ∷ ("IBALIK", ibalik)
    ∷ []

module _ (expr : Parse Expr) (inner : Parse Stmt) where
  -- What follows a keyword.
  unfoldable pub keyword_rule : ℕ → Keyword → Parse Stmt
  unfolding contract function variable if_statement while_statement return_statement
  keyword_rule n kontrata = contract expr inner n
  keyword_rule n tungkulin = function expr inner n
  keyword_rule n itakda = variable expr >>= λ d. give (var_decl d)
  keyword_rule n kung = if_statement expr inner n
  keyword_rule n habang = while_statement expr inner n
  keyword_rule n ibalik = return_statement expr

  -- A block or an expression, where no keyword stands.
  unfoldable pub plain_statement : ℕ → Parse Stmt
  unfolding check block_statement expression_statement
  plain_statement n = check "LBRACE" >>= λ opened. elim opened [
    | true ↦ block_statement expr inner n >>= λ b. give (block b)
    | false ↦ expression_statement expr
  ]

  -- `declaration`, with `statement`, over the declarations in blocks.
  unfoldable pub declaration_rule : ℕ → Parse Stmt
  unfolding match_any keyword_rule plain_statement
  declaration_rule n = match_any keywords >>= λ m. elim m [
    | none ↦ plain_statement n
    | some (k, _) ↦ keyword_rule n k
  ]

unfoldable pub declaration : Numbers → ℕ → Parse Stmt
unfolding declaration_rule expression
declaration nums zero = λ ts. out_of_fuel
declaration nums (suc n) = declaration_rule (expression nums (suc n)) (declaration nums n) (suc n)

-- The loop of `parse`, over `declaration`.
unfoldable pub declarations : Parse Stmt → ℕ → Parse Program
unfolding is_at_end
declarations rule zero = λ ts. out_of_fuel
declarations rule (suc n) = is_at_end >>= λ stop. elim stop [
  | true ↦ give end
  | false ↦ rule >>= λ s. declarations rule n >>= λ p. give (seq s p)
]

-- `Parser(tokens).parse()`
unfoldable pub parse : Numbers → ℕ → Parse Program
unfolding declaration declarations
parse nums n = declarations (declaration nums n) n

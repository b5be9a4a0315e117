-- ===== src/Parser/Source.antt =====
-- compiler/parser.py: the tokens of statements, declarations and programs, in front of those that follow:
-- the description that the rules from `parse` on are checked against. Conditions stand in parentheses and
-- a semicolon ends every statement that may have one.
use baybayin_language.Base.{
  ℕ, String, Bool, true, false, Option, none, some, List, [], ◌∷◌, ◌++◌, if◌then◌else◌, str_eq,
}
use baybayin_language.Lexer.Tokens.{Token}
use baybayin_language.Ast.{
  Expr, Param, VarDecl, Signature, Stmt, contract_decl, func_decl, var_decl, block, if_stmt,
  while_stmt, return_stmt, expr_stmt, Block, end, seq, Else, no_else, else_block, else_if, Members,
  no_members, field, method,
}
use baybayin_language.Parser.{Numbers}
use baybayin_language.Parser.Printed.{tok, printed, Fine}

abbrev pub semicolon : Token
semicolon = tok "SEMICOLON" ";"

abbrev pub lbrace : Token
lbrace = tok "LBRACE" "{"

abbrev pub rbrace : Token
rbrace = tok "RBRACE" "}"

-- The names of the built-in types are keywords.
unfoldable pub type_token : String → Token
type_token s =
    if str_eq s "buo"
    then tok "TYPE_BUO" s
    else if str_eq s "teksto"
    then tok "TYPE_TEKSTO" s
    else if str_eq s "kondisyon"
    then tok "TYPE_KONDISYON" s
    else if str_eq s "alamat"
    then tok "TYPE_ALAMAT" s
    else tok "IDENTIFIER" s

abbrev pub type_tokens : Option String → List Token → List Token
type_tokens none ts = ts
type_tokens (some s) ts = tok "COLON" ":" ∷ type_token s ∷ ts

abbrev pub shared_tokens : Bool → List Token → List Token
shared_tokens true ts = tok "IBAHAGI" "ibahagi" ∷ ts
shared_tokens false ts = ts

unfoldable pub params_tokens : List Param → List Token → List Token
params_tokens [] ts = ts
params_tokens (p ∷ []) ts = tok "IDENTIFIER" p.name ∷ tok "COLON" ":" ∷ type_token p.type_ann ∷ ts
params_tokens (p ∷ q ∷ ps) ts =
    tok "IDENTIFIER" p.name
    ∷ tok "COLON" ":"
    ∷ type_token p.type_ann
    ∷ tok "COMMA" ","
    ∷ params_tokens (q ∷ ps) ts

abbrev pub signature_tokens : Signature → List Token → List Token
signature_tokens s ts =
    tok "IDENTIFIER" s.name
    ∷ tok "LPAREN" "("
    ∷ params_tokens s.params
        (tok "RPAREN" ")" ∷ shared_tokens s.is_public (type_tokens s.return_type ts))

module _ (show : ℕ → String) where
  abbrev pub init_tokens : Option Expr → List Token → List Token
  init_tokens none ts = ts
  init_tokens (some e) ts = tok "ASSIGN" "=" ∷ (printed show e ++ ts)

  abbrev pub var_tokens : VarDecl → List Token → List Token
  var_tokens d ts =
      tok "IDENTIFIER" d.name ∷ type_tokens d.type_ann (init_tokens d.initializer (semicolon ∷ ts))

  abbrev pub condition_tokens : Expr → List Token → List Token
  condition_tokens c ts = tok "LPAREN" "(" ∷ (printed show c ++ tok "RPAREN" ")" ∷ ts)

  unfoldable mutual
    pub stmt_tokens : Stmt → List Token → List Token
    stmt_tokens (contract_decl x ms) ts =
        tok "KONTRATA" "kontrata" ∷ tok "IDENTIFIER" x ∷ lbrace ∷ members_tokens ms (rbrace ∷ ts)
    stmt_tokens (func_decl s b) ts =
        tok "TUNGKULIN" "tungkulin" ∷ signature_tokens s (lbrace ∷ block_tokens b (rbrace ∷ ts))
    stmt_tokens (var_decl d) ts = tok "ITAKDA" "itakda" ∷ var_tokens d ts
    stmt_tokens (block b) ts = lbrace ∷ block_tokens b (rbrace ∷ ts)
    stmt_tokens (if_stmt c t e) ts =
        tok "KUNG" "kung" ∷ condition_tokens c (lbrace ∷ block_tokens t (rbrace ∷ else_tokens e ts))
    stmt_tokens (while_stmt c b) ts =
        tok "HABANG" "habang" ∷ condition_tokens c (lbrace ∷ block_tokens b (rbrace ∷ ts))
    stmt_tokens (return_stmt none) ts = tok "IBALIK" "ibalik" ∷ semicolon ∷ ts
    stmt_tokens (return_stmt (some e)) ts =
        tok "IBALIK" "ibalik" ∷ (printed show e ++ semicolon ∷ ts)
    stmt_tokens (expr_stmt e) ts = printed show e ++ semicolon ∷ ts

    pub block_tokens : Block → List Token → List Token
    block_tokens end ts = ts
    block_tokens (seq s b) ts = stmt_tokens s (block_tokens b ts)

    pub else_tokens : Else → List Token → List Token
    else_tokens no_else ts = ts
    else_tokens (else_block b) ts = tok "KUNDI" "kundi" ∷ lbrace ∷ block_tokens b (rbrace ∷ ts)
    else_tokens (else_if c t e) ts =
        tok "KUNDI" "kundi"
        ∷ tok "KUNG" "kung"
        ∷ condition_tokens c (lbrace ∷ block_tokens t (rbrace ∷ else_tokens e ts))

    pub members_tokens : Members → List Token → List Token
    members_tokens no_members ts = ts
    members_tokens (field d ms) ts = tok "ITAKDA" "itakda" ∷ var_tokens d (members_tokens ms ts)
    members_tokens (method s b ms) ts =
        tok "TUNGKULIN" "tungkulin"
        ∷ signature_tokens s (lbrace ∷ block_tokens b (rbrace ∷ members_tokens ms ts))

  -- Every expression of it is fine.
  abbrev pub FineOption : Numbers → Option Expr → Type 0
  FineOption nums none = Unit {0}
  FineOption nums (some e) = Fine show nums e

  unfoldable mutual
    pub FineStmt : Numbers → Stmt → Type 0
    FineStmt nums (contract_decl x ms) = FineMembers nums ms
    FineStmt nums (func_decl s b) = FineBlock nums b
    FineStmt nums (var_decl d) = FineOption nums d.initializer
    FineStmt nums (block b) = FineBlock nums b
    FineStmt nums (if_stmt c t e) = Fine show nums c × FineBlock nums t × FineElse nums e
    FineStmt nums (while_stmt c b) = Fine show nums c × FineBlock nums b
    FineStmt nums (return_stmt e) = FineOption nums e
    FineStmt nums (expr_stmt e) = Fine show nums e

    pub FineBlock : Numbers → Block → Type 0
    FineBlock nums end = Unit {0}
    FineBlock nums (seq s b) = FineStmt nums s × FineBlock nums b

    pub FineElse : Numbers → Else → Type 0
    FineElse nums no_else = Unit {0}
    FineElse nums (else_block b) = FineBlock nums b
    FineElse nums (else_if c t e) = Fine show nums c × FineBlock nums t × FineElse nums e

    pub FineMembers : Numbers → Members → Type 0
    FineMembers nums no_members = Unit {0}
    FineMembers nums (field d ms) = FineOption nums d.initializer × FineMembers nums ms
    FineMembers nums (method s b ms) = FineBlock nums b × FineMembers nums ms

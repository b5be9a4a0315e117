-- ===== src/Parser/Sizes.antt =====
-- compiler/parser.py: the tokens of a part are at least as many as those behind it.
use baybayin_language.Base.{
  ℕ, ◌≤◌, ◌<◌, String, Bool, true, false, Option, none, some, List, [], ◌∷◌, length, length-append,
  arith,
}
use baybayin_language.Lexer.Tokens.{Token}
use baybayin_language.Ast.{
  Expr, Param, VarDecl, Signature, Stmt, contract_decl, func_decl, var_decl, block, if_stmt,
  while_stmt, return_stmt, expr_stmt, Block, end, seq, Else, no_else, else_block, else_if, Members,
  no_members, field, method,
}
use baybayin_language.Parser.Printed.{tok, printed}
use baybayin_language.Parser.Source.{
  semicolon, lbrace, rbrace, type_tokens, shared_tokens, params_tokens, signature_tokens,
  init_tokens, var_tokens, condition_tokens, stmt_tokens, block_tokens, else_tokens, members_tokens,
}

pub types_longer : (o : Option String) (ts : List Token) → length ts ≤ length (type_tokens o ts)
types_longer none ts = omega arith
types_longer (some s) ts = omega arith

pub shared_longer : (b : Bool) (ts : List Token) → length ts ≤ length (shared_tokens b ts)
shared_longer true ts = omega arith
shared_longer false ts = omega arith

pub params_longer : (ps : List Param) (ts : List Token) → length ts ≤ length (params_tokens ps ts)
unfolding params_tokens
params_longer [] ts = omega arith
params_longer (p ∷ []) ts = omega arith
params_longer (p ∷ q ∷ ps) ts = omega (arith, params_longer (q ∷ ps) ts)

pub signature_longer :
    (s : Signature) (ts : List Token) → length ts < length (signature_tokens s ts)
signature_longer s ts =
    let types = type_tokens s.return_type ts in
    let shared = shared_tokens s.is_public types in
    omega (
      arith,
      types_longer s.return_type ts,
      shared_longer s.is_public types,
      params_longer s.params (tok "RPAREN" ")" ∷ shared),
    )

module _ (show : ℕ → String) where
  pub init_longer : (o : Option Expr) (ts : List Token) → length ts ≤ length (init_tokens show o ts)
  init_longer none ts = omega arith
  init_longer (some e) ts = omega (arith, length-append (printed show e) ts)

  pub var_longer : (d : VarDecl) (ts : List Token) → length ts < length (var_tokens show d ts)
  var_longer d ts = omega (
    arith,
    init_longer d.initializer (semicolon ∷ ts),
    types_longer d.type_ann (init_tokens show d.initializer (semicolon ∷ ts)),
  )

  pub condition_longer :
      (c : Expr) (ts : List Token) → length ts < length (condition_tokens show c ts)
  condition_longer c ts = omega (arith, length-append (printed show c) (tok "RPAREN" ")" ∷ ts))

  mutual
    unfolding stmt_tokens

    pub stmt_longer : (s : Stmt) (ts : List Token) → length ts < length (stmt_tokens show s ts)
    stmt_longer (contract_decl x ms) ts = omega (arith, members_longer ms (rbrace ∷ ts))
    stmt_longer (func_decl s b) ts = omega (
      arith,
      block_longer b (rbrace ∷ ts),
      signature_longer s (lbrace ∷ block_tokens show b (rbrace ∷ ts)),
    )
    stmt_longer (var_decl d) ts = omega (arith, var_longer d ts)
    stmt_longer (block b) ts = omega (arith, block_longer b (rbrace ∷ ts))
    stmt_longer (if_stmt c t e) ts =
        let rest = else_tokens show e ts in
        omega (
          arith,
          else_longer e ts,
          block_longer t (rbrace ∷ rest),
          condition_longer c (lbrace ∷ block_tokens show t (rbrace ∷ rest)),
        )
    stmt_longer (while_stmt c b) ts = omega (
      arith,
      block_longer b (rbrace ∷ ts),
      condition_longer c (lbrace ∷ block_tokens show b (rbrace ∷ ts)),
    )
    stmt_longer (return_stmt none) ts = omega arith
    stmt_longer (return_stmt (some e)) ts =
        omega (arith, length-append (printed show e) (semicolon ∷ ts))
    stmt_longer (expr_stmt e) ts = omega (arith, length-append (printed show e) (semicolon ∷ ts))

    pub block_longer : (b : Block) (ts : List Token) → length ts ≤ length (block_tokens show b ts)
    block_longer end ts = omega arith
    block_longer (seq s b) ts =
        omega (arith, stmt_longer s (block_tokens show b ts), block_longer b ts)

    pub else_longer : (e : Else) (ts : List Token) → length ts ≤ length (else_tokens show e ts)
    else_longer no_else ts = omega arith
    else_longer (else_block b) ts = omega (arith, block_longer b (rbrace ∷ ts))
    else_longer (else_if c t e) ts =
        let rest = else_tokens show e ts in
        omega (
          arith,
          else_longer e ts,
          block_longer t (rbrace ∷ rest),
          condition_longer c (lbrace ∷ block_tokens show t (rbrace ∷ rest)),
        )

    pub members_longer :
        (ms : Members) (ts : List Token) → length ts ≤ length (members_tokens show ms ts)
    members_longer no_members ts = omega arith
    members_longer (field d ms) ts =
        omega (arith, members_longer ms ts, var_longer d (members_tokens show ms ts))
    members_longer (method s b ms) ts =
        let rest = members_tokens show ms ts in
        omega (
          arith,
          members_longer ms ts,
          block_longer b (rbrace ∷ rest),
          signature_longer s (lbrace ∷ block_tokens show b (rbrace ∷ rest)),
        )

-- ===== src/Parser/Inverse.antt =====
-- compiler/parser.py: each kind of statement and declaration is read back, if its parts are.
use baybayin_language.Base.{
  ℕ, zero, suc, ◌≤◌, ◌<◌, ◌≡◌, refl, String, Option, none, some, List, [], ◌∷◌, length,
  length-append, lookup, arith,
}
use baybayin_language.Lexer.Tokens.{Token}
use baybayin_language.Ast.{
  Expr, VarDecl, Stmt, var_decl, block, while_stmt, return_stmt, expr_stmt, Block, end, seq, Else,
  Members,
}
use baybayin_language.Parser.{
  parsed, Numbers, at_end, check, is_at_end, match_any, consume, expression,
}
use baybayin_language.Parser.Printed.{printed, Fine}
use baybayin_language.Parser.Reading.{Stops}
use baybayin_language.Parser.Openings.{printed-Front}
use baybayin_language.Parser.Declarations.{
  skip, at_close, return_value_of, return_statement, expression_statement, statements,
  block_statement, else_branch, while_statement, members,
}
use baybayin_language.Parser.Programs.{keyword_rule, plain_statement, declaration_rule, declaration}
use baybayin_language.Parser.Source.{
  semicolon, lbrace, rbrace, stmt_tokens, block_tokens, else_tokens, members_tokens, FineOption,
}
use baybayin_language.Parser.Sizes.{condition_longer, stmt_longer}
use baybayin_language.Parser.Clauses.{expression_back, condition_back, variable_back}
use baybayin_language.Parser.Fronts.{Front-Plain, stmt-Continues, block-no_branch}

not_rbrace : (ts : List Token) → Stops {A = Unit {0}} (("KUNDI", tt) ∷ []) (rbrace ∷ ts)
unfolding match_any at_end lookup
not_rbrace ts = refl

module _ (show : ℕ → String) (nums : Numbers) where
  abbrev pub StmtBack : Stmt → Type 0
  StmtBack s =
      (n : ℕ) (ts : List Token)
      → length (stmt_tokens show s ts) ≤ n
      → Stops {A = Unit {0}} (("KUNDI", tt) ∷ []) ts
      → declaration nums n (stmt_tokens show s ts) ≡ parsed s ts

  abbrev pub BlockBack : Block → Type 0
  BlockBack b =
      (n f : ℕ) (ts : List Token)
      → length (block_tokens show b (rbrace ∷ ts)) ≤ n
      → length (block_tokens show b (rbrace ∷ ts)) ≤ f
      → statements (expression nums (suc n)) (declaration nums n) f
          (block_tokens show b (rbrace ∷ ts))
        ≡ parsed b (rbrace ∷ ts)

  abbrev pub ElseBack : Else → Type 0
  ElseBack e =
      (n f : ℕ) (ts : List Token)
      → length (else_tokens show e ts) ≤ n
      → length (else_tokens show e ts) < f
      → Stops {A = Unit {0}} (("KUNDI", tt) ∷ []) ts
      → else_branch (expression nums (suc n)) (declaration nums n) f (else_tokens show e ts)
        ≡ parsed e ts

  abbrev pub MembersBack : Members → Type 0
  MembersBack ms =
      (n f : ℕ) (ts : List Token)
      → length (members_tokens show ms (rbrace ∷ ts)) ≤ n
      → length (members_tokens show ms (rbrace ∷ ts)) ≤ f
      → members (expression nums (suc n)) (declaration nums n) f
          (members_tokens show ms (rbrace ∷ ts))
        ≡ parsed ms (rbrace ∷ ts)

  pub end-BlockBack : BlockBack end
  unfolding block_tokens statements at_close check is_at_end at_end
  end-BlockBack n zero ts enough fuel = absurd (omega arith)
  end-BlockBack n (suc f) ts enough fuel = refl

  pub seq-BlockBack : (s : Stmt) (b : Block) → StmtBack s → BlockBack b → BlockBack (seq s b)
  unfolding block_tokens statements
  seq-BlockBack s b first rest n zero ts enough fuel =
      absurd (omega (arith, stmt_longer show s (block_tokens show b (rbrace ∷ ts))))
  seq-BlockBack s b first rest n (suc f) ts enough fuel =
      let behind = block_tokens show b (rbrace ∷ ts) in
      let size = stmt_longer show s behind in
      rw (
        (stmt-Continues show s behind).goes_on,
        first n behind enough (block-no_branch show b (rbrace ∷ ts) (not_rbrace ts)),
        rest n f ts (omega (arith, size)) (omega (arith, size)),
      )

  pub braces_back :
      (b : Block)
      → BlockBack b
      → (n f : ℕ) (ts : List Token) → length (block_tokens show b (rbrace ∷ ts)) ≤ n
      → length (block_tokens show b (rbrace ∷ ts)) ≤ f
      → block_statement
          (expression nums (suc n))
          (declaration nums n)
          f
          (lbrace ∷ block_tokens show b (rbrace ∷ ts))
        ≡ parsed b ts
  unfolding block_statement consume at_end
  braces_back b back n f ts enough fuel = rw (back n f ts enough fuel)

  pub block-StmtBack : (b : Block) → BlockBack b → StmtBack (block b)
  unfolding stmt_tokens declaration declaration_rule plain_statement match_any check at_end lookup
  block-StmtBack b back zero ts enough next = absurd (omega arith)
  block-StmtBack b back (suc n) ts enough next =
      rw (braces_back b back n (suc n) ts (omega arith) (omega arith))

  pub var_decl-StmtBack : (d : VarDecl) → FineOption show nums d.initializer → StmtBack (var_decl d)
  unfolding stmt_tokens declaration declaration_rule keyword_rule match_any at_end lookup
  var_decl-StmtBack d fine zero ts enough next = absurd (omega arith)
  var_decl-StmtBack d fine (suc n) ts enough next =
      rw (variable_back show nums d (suc n) ts fine (omega arith))

  pub expr_stmt-StmtBack : (e : Expr) → Fine show nums e → StmtBack (expr_stmt e)
  unfolding stmt_tokens declaration declaration_rule plain_statement expression_statement skip
      match_any at_end lookup
  expr_stmt-StmtBack e fine zero ts enough next =
      absurd (omega (arith, length-append (printed show e) (semicolon ∷ ts)))
  expr_stmt-StmtBack e fine (suc n) ts enough next =
      let plain = Front-Plain (printed-Front show e (semicolon ∷ ts)) in
      rw (plain.no_keyword, plain.no_block, expression_back show nums e (suc n) ts fine enough)

  pub return-StmtBack : (e : Option Expr) → FineOption show nums e → StmtBack (return_stmt e)
  unfolding stmt_tokens declaration declaration_rule keyword_rule return_statement return_value_of
      skip at_close is_at_end check match_any at_end lookup
  return-StmtBack none fine zero ts enough next = absurd (omega arith)
  return-StmtBack none fine (suc n) ts enough next = refl
  return-StmtBack (some e) fine zero ts enough next = absurd (omega arith)
  return-StmtBack (some e) fine (suc n) ts enough next =
      let plain = Front-Plain (printed-Front show e (semicolon ∷ ts)) in
      rw (
        plain.not_empty,
        plain.continues.goes_on,
        expression_back show nums e (suc n) ts fine (omega arith),
      )

  pub while-StmtBack :
      (c : Expr) (b : Block) → Fine show nums c → BlockBack b → StmtBack (while_stmt c b)
  unfolding stmt_tokens declaration declaration_rule keyword_rule while_statement match_any at_end
      lookup
  while-StmtBack c b fine back zero ts enough next = absurd (omega arith)
  while-StmtBack c b fine back (suc n) ts enough next =
      let body = lbrace ∷ block_tokens show b (rbrace ∷ ts) in
      let size = condition_longer show c body in
      rw (
        condition_back show nums c (suc n) body fine (omega arith),
        braces_back b back n (suc n) ts (omega (arith, size)) (omega (arith, size)),
      )

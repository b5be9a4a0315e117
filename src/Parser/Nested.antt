-- ===== src/Parser/Nested.antt =====
-- compiler/parser.py: branches, members, functions and contracts are read back, if their parts are.
use baybayin_language.Base.{ℕ, zero, suc, refl, String, ◌∷◌, lookup, arith}
use baybayin_language.Ast.{
  Expr, VarDecl, Signature, contract_decl, func_decl, if_stmt, Block, Else, no_else, else_block,
  else_if, Members, no_members, field, method,
}
use baybayin_language.Parser.{Numbers, at_end, check, is_at_end, match_any, consume}
use baybayin_language.Parser.Printed.{Fine}
use baybayin_language.Parser.Declarations.{
  at_close, else_branch, if_statement, members, contract, function,
}
use baybayin_language.Parser.Programs.{keyword_rule, declaration_rule, declaration}
use baybayin_language.Parser.Source.{
  lbrace, rbrace, stmt_tokens, block_tokens, else_tokens, members_tokens, FineOption,
}
use baybayin_language.Parser.Sizes.{signature_longer, var_longer, condition_longer, block_longer}
use baybayin_language.Parser.Clauses.{signature_back, condition_back, variable_back}
use baybayin_language.Parser.Inverse.{StmtBack, BlockBack, ElseBack, MembersBack, braces_back}

module _ (show : ℕ → String) (nums : Numbers) where
  pub no_else-ElseBack : ElseBack show nums no_else
  unfolding else_tokens else_branch
  no_else-ElseBack n zero ts enough fuel next = absurd (omega arith)
  no_else-ElseBack n (suc f) ts enough fuel next = rw next

  pub else_block-ElseBack : (b : Block) → BlockBack show nums b → ElseBack show nums (else_block b)
  unfolding else_tokens else_branch match_any at_end lookup
  else_block-ElseBack b back n zero ts enough fuel next = absurd (omega arith)
  else_block-ElseBack b back n (suc f) ts enough fuel next =
      rw (braces_back show nums b back n f ts (omega arith) (omega arith))

  pub else_if-ElseBack :
      (c : Expr) (t : Block) (e : Else)
      → Fine show nums c
      → BlockBack show nums t
      → ElseBack show nums e
      → ElseBack show nums (else_if c t e)
  unfolding else_tokens else_branch match_any at_end lookup
  else_if-ElseBack c t e fine back other n zero ts enough fuel next = absurd (omega arith)
  else_if-ElseBack c t e fine back other n (suc f) ts enough fuel next =
      let rest = else_tokens show e ts in
      let body = lbrace ∷ block_tokens show t (rbrace ∷ rest) in
      let size = condition_longer show c body in
      let size' = block_longer show t (rbrace ∷ rest) in
      rw (
        condition_back show nums c (suc n) body fine (omega arith),
        braces_back show nums t back n f rest (omega (arith, size)) (omega (arith, size)),
        other n f ts (omega (arith, size, size')) (omega (arith, size, size')) next,
      )

  pub if-StmtBack :
      (c : Expr) (t : Block) (e : Else)
      → Fine show nums c
      → BlockBack show nums t
      → ElseBack show nums e
      → StmtBack show nums (if_stmt c t e)
  unfolding stmt_tokens declaration declaration_rule keyword_rule if_statement match_any at_end
      lookup
  if-StmtBack c t e fine back other zero ts enough next = absurd (omega arith)
  if-StmtBack c t e fine back other (suc n) ts enough next =
      let rest = else_tokens show e ts in
      let body = lbrace ∷ block_tokens show t (rbrace ∷ rest) in
      let size = condition_longer show c body in
      let size' = block_longer show t (rbrace ∷ rest) in
      rw (
        condition_back show nums c (suc n) body fine (omega arith),
        braces_back show nums t back n (suc n) rest (omega (arith, size)) (omega (arith, size)),
        other n (suc n) ts (omega (arith, size, size')) (omega (arith, size, size')) next,
      )

  pub function-StmtBack :
      (s : Signature) (b : Block) → BlockBack show nums b → StmtBack show nums (func_decl s b)
  unfolding stmt_tokens declaration declaration_rule keyword_rule function match_any at_end lookup
  function-StmtBack s b back zero ts enough next = absurd (omega arith)
  function-StmtBack s b back (suc n) ts enough next =
      let rest = block_tokens show b (rbrace ∷ ts) in
      let size = signature_longer s (lbrace ∷ rest) in
      rw (
        signature_back s (suc n) rest (omega arith),
        braces_back show nums b back n (suc n) ts (omega (arith, size)) (omega (arith, size)),
      )

  pub none-MembersBack : MembersBack show nums no_members
  unfolding members_tokens members at_close check is_at_end at_end
  none-MembersBack n zero ts enough fuel = absurd (omega arith)
  none-MembersBack n (suc f) ts enough fuel = refl

  pub field-MembersBack :
      (d : VarDecl) (ms : Members)
      → FineOption show nums d.initializer
      → MembersBack show nums ms
      → MembersBack show nums (field d ms)
  unfolding members_tokens members at_close check is_at_end match_any at_end lookup
  field-MembersBack d ms fine back n zero ts enough fuel = absurd (omega arith)
  field-MembersBack d ms fine back n (suc f) ts enough fuel =
      let rest = members_tokens show ms (rbrace ∷ ts) in
      let size = var_longer show d rest in
      rw (
        variable_back show nums d (suc n) rest fine (omega arith),
        back n f ts (omega (arith, size)) (omega (arith, size)),
      )

  pub method-MembersBack :
      (s : Signature) (b : Block) (ms : Members)
      → BlockBack show nums b
      → MembersBack show nums ms
      → MembersBack show nums (method s b ms)
  unfolding members_tokens members at_close check is_at_end match_any at_end lookup
  method-MembersBack s b ms body back n zero ts enough fuel = absurd (omega arith)
  method-MembersBack s b ms body back n (suc f) ts enough fuel =
      let rest = members_tokens show ms (rbrace ∷ ts) in
      let inside = block_tokens show b (rbrace ∷ rest) in
      let size = signature_longer s (lbrace ∷ inside) in
      let size' = block_longer show b (rbrace ∷ rest) in
      rw (
        signature_back s f inside (omega arith),
        braces_back show nums b body n f rest (omega (arith, size)) (omega (arith, size)),
        back n f ts (omega (arith, size, size')) (omega (arith, size, size')),
      )

  pub contract-StmtBack :
      (x : String) (ms : Members)
      → MembersBack show nums ms
      → StmtBack show nums (contract_decl x ms)
  unfolding stmt_tokens declaration declaration_rule keyword_rule contract consume match_any at_end
      lookup
  contract-StmtBack x ms back zero ts enough next = absurd (omega arith)
  contract-StmtBack x ms back (suc n) ts enough next =
      rw (back n (suc n) ts (omega arith) (omega arith))

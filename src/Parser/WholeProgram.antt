-- ===== src/Parser/WholeProgram.antt =====
-- compiler/parser.py: `parse` reads back the programs that Source describes.
use baybayin_language.Base.{ℕ, zero, suc, ◌≤◌, ◌≡◌, refl, String, [], ◌∷◌, length, lookup, arith}
use baybayin_language.Lexer.Tokens.{Token}
use baybayin_language.Ast.{
  Stmt, contract_decl, func_decl, var_decl, block, if_stmt, while_stmt, return_stmt, expr_stmt,
  Block, end, seq, Else, no_else, else_block, else_if, Members, no_members, field, method, Program,
}
use baybayin_language.Parser.{parsed, Numbers, is_at_end, at_end, match_any}
use baybayin_language.Parser.Printed.{tok}
use baybayin_language.Parser.Programs.{declaration, declarations, parse}
use baybayin_language.Parser.Source.{block_tokens, FineStmt, FineBlock, FineElse, FineMembers}
use baybayin_language.Parser.Sizes.{stmt_longer}
use baybayin_language.Parser.Fronts.{stmt-Continues, block-no_branch}
use baybayin_language.Parser.Inverse.{
  StmtBack, BlockBack, ElseBack, MembersBack, end-BlockBack, seq-BlockBack, block-StmtBack,
  var_decl-StmtBack, expr_stmt-StmtBack, return-StmtBack, while-StmtBack,
}
use baybayin_language.Parser.Nested.{
  no_else-ElseBack, else_block-ElseBack, else_if-ElseBack, if-StmtBack, function-StmtBack,
  none-MembersBack, field-MembersBack, method-MembersBack, contract-StmtBack,
}

abbrev pub end_of_file : Token
end_of_file = tok "EOF" ""

module _ (show : ℕ → String) (nums : Numbers) where
  mutual
    unfolding FineStmt

    stmt_back : (s : Stmt) → FineStmt show nums s → StmtBack show nums s
    stmt_back (contract_decl x ms) fine = contract-StmtBack show nums x ms (members_back ms fine)
    stmt_back (func_decl s b) fine = function-StmtBack show nums s b (block_back b fine)
    stmt_back (var_decl d) fine = var_decl-StmtBack show nums d fine
    stmt_back (block b) fine = block-StmtBack show nums b (block_back b fine)
    stmt_back (if_stmt c t e) (fine, then_fine, else_fine) =
        if-StmtBack show nums c t e fine (block_back t then_fine) (else_back e else_fine)
    stmt_back (while_stmt c b) (fine, body_fine) =
        while-StmtBack show nums c b fine (block_back b body_fine)
    stmt_back (return_stmt e) fine = return-StmtBack show nums e fine
    stmt_back (expr_stmt e) fine = expr_stmt-StmtBack show nums e fine

    block_back : (b : Block) → FineBlock show nums b → BlockBack show nums b
    block_back end fine = end-BlockBack show nums
    block_back (seq s b) (fine, rest_fine) =
        seq-BlockBack show nums s b (stmt_back s fine) (block_back b rest_fine)

    else_back : (e : Else) → FineElse show nums e → ElseBack show nums e
    else_back no_else fine = no_else-ElseBack show nums
    else_back (else_block b) fine = else_block-ElseBack show nums b (block_back b fine)
    else_back (else_if c t e) (fine, then_fine, else_fine) =
        else_if-ElseBack show nums c t e fine (block_back t then_fine) (else_back e else_fine)

    members_back : (ms : Members) → FineMembers show nums ms → MembersBack show nums ms
    members_back no_members fine = none-MembersBack show nums
    members_back (field d ms) (fine, rest_fine) =
        field-MembersBack show nums d ms fine (members_back ms rest_fine)
    members_back (method s b ms) (fine, rest_fine) =
        method-MembersBack show nums s b ms (block_back b fine) (members_back ms rest_fine)

  declarations_back :
      (n f : ℕ) (p : Program)
      → FineBlock show nums p
      → length (block_tokens show p (end_of_file ∷ [])) ≤ n
      → length (block_tokens show p (end_of_file ∷ [])) ≤ f
      → declarations (declaration nums n) f (block_tokens show p (end_of_file ∷ []))
        ≡ parsed p (end_of_file ∷ [])
  unfolding FineStmt block_tokens declarations is_at_end match_any at_end lookup
  declarations_back n zero end fine enough fuel = absurd (omega arith)
  declarations_back n (suc f) end fine enough fuel = refl
  declarations_back n zero (seq s p) fine enough fuel =
      absurd (omega (arith, stmt_longer show s (block_tokens show p (end_of_file ∷ []))))
  declarations_back n (suc f) (seq s p) (fine, rest_fine) enough fuel =
      let behind = block_tokens show p (end_of_file ∷ []) in
      let size = stmt_longer show s behind in
      rw (
        (stmt-Continues show s behind).not_over,
        stmt_back s fine n behind enough (block-no_branch show p (end_of_file ∷ []) refl),
        declarations_back n f p rest_fine (omega (arith, size)) (omega (arith, size)),
      )

-- Where the numbers of a program are read back from their texts, and only names and members are assigned
-- to, the parser gives the program from its tokens and the EOF behind them, with as much fuel as there
-- are tokens.
pub parse-printed :
    (show : ℕ → String) (nums : Numbers) (p : Program) (n : ℕ)
    → FineBlock show nums p
    → length (block_tokens show p (end_of_file ∷ [])) ≤ n
    → parse nums n (block_tokens show p (end_of_file ∷ [])) ≡ parsed p (end_of_file ∷ [])
unfolding parse
parse-printed show nums p n fine enough = declarations_back show nums n n p fine enough enough

-- ===== src/VmCompiler/Patching.antt =====
-- The one pass with its patched jumps emits the code that the layout describes.
use baybayin_language.Base.{
  ℕ, ◌+◌, String, ◌≡◌, sym, List, ◌++◌, append_assoc, append-nil, length, length-append,
}
use baybayin_language.Ast.{
  Expr, Stmt, contract_decl, func_decl, var_decl, block, if_stmt, while_stmt, return_stmt,
  expr_stmt, Block, end, seq, Else, no_else, else_block, else_if,
}
use baybayin_language.Bytecode.{Code}
use baybayin_language.VmCompiler.{visit_if_stmt, visit_stmt, visit_block, visit_else}
use baybayin_language.VmCompiler.Layout.{expr_code, stmt_code, block_code, else_code}
use baybayin_language.VmCompiler.Emitted.{visit_expr-append, visit_optional-append}
use baybayin_language.VmCompiler.Branches.{
  Appends, visit_if_stmt-none, visit_if_stmt-some, visit_while_stmt_lem,
}

mutual
  unfolding visit_stmt stmt_code

  visit_stmt-eq :
      (fields : List String) (s : Stmt) (code : Code)
      → visit_stmt fields code s ≡ code ++ stmt_code fields (length code) s
  visit_stmt-eq fields (contract_decl name ms) code = sym (append-nil code)
  visit_stmt-eq fields (func_decl s b) code = sym (append-nil code)
  visit_stmt-eq fields (var_decl d) code = rw visit_optional-append (append_assoc code _ _)
  visit_stmt-eq fields (block b) code = visit_block-eq fields b code
  visit_stmt-eq fields (if_stmt cond t e) code =
      visit_else-eq fields e cond (λ c. visit_block fields c t) (λ o. block_code fields o t)
        (visit_block-eq fields t) code
  visit_stmt-eq fields (while_stmt cond b) code =
      visit_while_stmt_lem fields cond (λ c. visit_block fields c b) (λ o. block_code fields o b)
        (visit_block-eq fields b) code
  visit_stmt-eq fields (return_stmt e) code = rw visit_optional-append (append_assoc code _ _)
  visit_stmt-eq fields (expr_stmt e) code = visit_expr-append fields e code

  visit_block-eq :
      (fields : List String) (b : Block) (code : Code)
      → visit_block fields code b ≡ code ++ block_code fields (length code) b
  visit_block-eq fields end code = sym (append-nil code)
  visit_block-eq fields (seq s b) code =
      rw
        (
          visit_stmt-eq fields s code,
          visit_block-eq fields b (code ++ stmt_code fields (length code) s),
          length-append,
        )
        (append_assoc code _ _)

  visit_else-eq :
      (fields : List String) (e : Else) (cond : Expr) (visit_then : Code → Code) (taken : ℕ → Code)
      → Appends visit_then taken
      → Appends (visit_if_stmt fields cond visit_then (visit_else fields e)) (λ o.
        let tested = expr_code fields cond in
        let start = o + length tested + 1 in else_code fields tested start (taken start) e)
  visit_else-eq fields no_else cond visit_then taken h code =
      visit_if_stmt-none fields cond visit_then taken h code
  visit_else-eq fields (else_block b) cond visit_then taken h code =
      visit_if_stmt-some fields cond visit_then taken h code (λ c. visit_block fields c b)
        (λ o. block_code fields o b) (visit_block-eq fields b)
  visit_else-eq fields (else_if cond' t e) cond visit_then taken h code =
      visit_if_stmt-some fields cond visit_then taken h code
        (visit_if_stmt fields cond' (λ c. visit_block fields c t) (visit_else fields e))
        (λ o.
          let tested' = expr_code fields cond' in
          let start' = o + length tested' + 1 in
          else_code fields tested' start' (block_code fields start' t) e)
        (visit_else-eq fields e cond' (λ c. visit_block fields c t) (λ o. block_code fields o t)
          (visit_block-eq fields t))

-- Wherever the one-pass compiler stands, visiting a block appends exactly the code that the layout
-- describes for that place: the placeholders of all jumps have been patched with the right targets.
pub visit_block-append :
    (fields : List String) (b : Block) (code : Code)
    → visit_block fields code b ≡ code ++ block_code fields (length code) b
visit_block-append fields b code = visit_block-eq fields b code

-- ===== src/Transpiler/Solidity/Scans.antt =====
-- compiler/transpiler_solidity.py: `check_state_modification`, by which a function is marked `view`, and
-- `scan_for_print`, by which the import of the console is written.
use baybayin_language.Base.{String, Bool, false, ◌||◌, List, str_eq, mem_name}
use baybayin_language.Ast.{
  Expr, identifier, call, assign, Exprs, no_args, arg, Stmt, contract_decl, func_decl, block,
  if_stmt, while_stmt, expr_stmt, Block, end, seq, Else, no_else, else_block, else_if, Members,
  no_members, field, method,
}

-- On expressions, where `vars` are the state variables: assignments and the arguments of calls.
unfoldable mutual
  unfolding mem_name

  pub modifies_expr : List String → Expr → Bool
  modifies_expr vars (assign (identifier name) e) = mem_name name vars || modifies_expr vars e
  modifies_expr vars (assign target e) = modifies_expr vars target || modifies_expr vars e
  modifies_expr vars (call callee args) = modifies_args vars args
  modifies_expr vars _ = false

  pub modifies_args : List String → Exprs → Bool
  modifies_args vars no_args = false
  modifies_args vars (arg e es) = modifies_expr vars e || modifies_args vars es

-- `check_state_modification`
unfoldable mutual
  unfolding modifies_expr

  pub modifies_stmt : List String → Stmt → Bool
  modifies_stmt vars (block b) = modifies_block vars b
  modifies_stmt vars (if_stmt c t e) =
      modifies_expr vars c || (modifies_block vars t || modifies_else vars e)
  modifies_stmt vars (while_stmt c b) = modifies_expr vars c || modifies_block vars b
  modifies_stmt vars (expr_stmt e) = modifies_expr vars e
  modifies_stmt vars _ = false

  pub modifies_block : List String → Block → Bool
  modifies_block vars end = false
  modifies_block vars (seq s b) = modifies_stmt vars s || modifies_block vars b

  pub modifies_else : List String → Else → Bool
  modifies_else vars no_else = false
  modifies_else vars (else_block b) = modifies_block vars b
  modifies_else vars (else_if c t e) =
      modifies_expr vars c || (modifies_block vars t || modifies_else vars e)

unfoldable mutual
  pub prints_expr : Expr → Bool
  prints_expr (assign target e) = prints_expr e
  prints_expr (call (identifier name) args) = str_eq name "ipakita" || prints_args args
  prints_expr (call callee args) = prints_args args
  prints_expr _ = false

  pub prints_args : Exprs → Bool
  prints_args no_args = false
  prints_args (arg e es) = prints_expr e || prints_args es

-- `scan_for_print`
unfoldable mutual
  unfolding prints_expr

  pub prints_stmt : Stmt → Bool
  prints_stmt (contract_decl name ms) = prints_members ms
  prints_stmt (func_decl s b) = prints_block b
  prints_stmt (block b) = prints_block b
  prints_stmt (if_stmt c t e) = prints_expr c || (prints_block t || prints_else e)
  prints_stmt (while_stmt c b) = prints_expr c || prints_block b
  prints_stmt (expr_stmt e) = prints_expr e
  prints_stmt _ = false

  pub prints_block : Block → Bool
  prints_block end = false
  prints_block (seq s b) = prints_stmt s || prints_block b

  pub prints_else : Else → Bool
  prints_else no_else = false
  prints_else (else_block b) = prints_block b
  prints_else (else_if c t e) = prints_expr c || (prints_block t || prints_else e)

  pub prints_members : Members → Bool
  prints_members no_members = false
  prints_members (field d ms) = prints_members ms
  prints_members (method s b ms) = prints_block b || prints_members ms

-- ===== src/VmCompiler/Layout.antt =====
-- A description of the emitted code that patches nothing: the code of each node as a list of its
-- own, with every jump target computed from where the code will stand.
use baybayin_language.Base.{
  ℕ, ◌+◌, String, false, Option, none, some, List, [], ◌∷◌, ◌++◌, length, if◌then◌else◌, str_eq,
  mem_name,
}
use baybayin_language.Base.Int.{negsuc}
use baybayin_language.Ast.{
  Expr, literal, identifier, member, call, unary, binary, assign, Exprs, no_args, arg, UnaryOp,
  bang, minus, Stmt, contract_decl, func_decl, var_decl, block, if_stmt, while_stmt, return_stmt,
  expr_stmt, Block, end, seq, Else, no_else, else_block, else_if,
}
use baybayin_language.Bytecode.{
  none_value, bool, int, literal_value, CompareOp, load_const, store_fast, load_fast, load_global,
  binary_mul, compare_op, jump_if_false, jump, call_function, print, return_value, call_method,
  load_attr, store_attr, Code,
}
use baybayin_language.VmCompiler.{binary_instr, count_args}

abbrev pub load_code : List String → String → Code
load_code fields name =
    if mem_name name fields then load_fast "self" ∷ load_attr name ∷ [] else load_fast name ∷ []

abbrev pub store_code : List String → String → Code
store_code fields name =
    if mem_name name fields then load_fast "self" ∷ store_attr name ∷ [] else store_fast name ∷ []

abbrev pub unary_code : UnaryOp → Code
unary_code minus = load_const (int (negsuc 0)) ∷ binary_mul ∷ []
unary_code bang = load_const (bool false) ∷ compare_op CompareOp.eq ∷ []

abbrev pub named_call_code : String → ℕ → Code
named_call_code name n =
    if str_eq name "ipakita" then print n ∷ [] else load_global name ∷ call_function n ∷ []

-- Expressions hold no jumps, so their code does not depend on its place.
unfoldable mutual
  pub expr_code : List String → Expr → Code
  expr_code fields (literal l) = load_const (literal_value l) ∷ []
  expr_code fields (identifier name) = load_code fields name
  expr_code fields (member e name) = expr_code fields e ++ load_attr name ∷ []
  expr_code fields (unary op e) = expr_code fields e ++ unary_code op
  expr_code fields (binary l op r) =
      expr_code fields l ++ (expr_code fields r ++ binary_instr op ∷ [])
  expr_code fields (call (identifier name) args) =
      args_code fields args ++ named_call_code name (count_args args)
  expr_code fields (call (member e name) args) =
      args_code fields args ++ (expr_code fields e ++ call_method name (count_args args) ∷ [])
  expr_code fields (call callee args) =
      args_code fields args ++ (expr_code fields callee ++ call_function (count_args args) ∷ [])
  expr_code fields (assign (identifier name) e) = expr_code fields e ++ store_code fields name
  expr_code fields (assign (member target name) e) =
      expr_code fields e ++ (expr_code fields target ++ store_attr name ∷ [])
  expr_code fields (assign _ e) = []

  pub args_code : List String → Exprs → Code
  args_code fields no_args = []
  args_code fields (arg e es) = expr_code fields e ++ args_code fields es

abbrev pub optional_code : List String → Option Expr → Code
optional_code fields none = load_const none_value ∷ []
optional_code fields (some e) = expr_code fields e

-- A conditional whose `then` branch starts at `start`, with and without an `else`.
abbrev pub if_code : Code → ℕ → Code → Code
if_code tested start taken = tested ++ jump_if_false (start + length taken) ∷ taken

abbrev pub if_else_code : Code → ℕ → Code → Code → Code
if_else_code tested start taken other =
    tested
    ++ jump_if_false (start + length taken + 1)
      ∷ (taken ++ jump (start + length taken + 1 + length other) ∷ other)

-- A loop whose test starts at `start`.
abbrev pub while_code : ℕ → Code → Code → Code
while_code start tested body =
    tested ++ jump_if_false (start + length tested + length body + 2) ∷ (body ++ jump start ∷ [])

-- The code of a statement that starts at index `o`.
unfoldable mutual
  pub stmt_code : List String → ℕ → Stmt → Code
  stmt_code fields o (contract_decl name ms) = []
  stmt_code fields o (func_decl s b) = []
  stmt_code fields o (var_decl d) = optional_code fields d.initializer ++ store_fast d.name ∷ []
  stmt_code fields o (block b) = block_code fields o b
  stmt_code fields o (if_stmt cond t e) =
      let tested = expr_code fields cond in
      let start = o + length tested + 1 in
      let taken = block_code fields start t in else_code fields tested start taken e
  stmt_code fields o (while_stmt cond b) =
      let tested = expr_code fields cond in
      while_code o tested (block_code fields (o + length tested + 1) b)
  stmt_code fields o (return_stmt e) = optional_code fields e ++ return_value ∷ []
  stmt_code fields o (expr_stmt e) = expr_code fields e

  pub block_code : List String → ℕ → Block → Code
  block_code fields o end = []
  block_code fields o (seq s b) =
      let first = stmt_code fields o s in first ++ block_code fields (o + length first) b

  -- The whole conditional, given its test and its `then` branch.
  pub else_code : List String → Code → ℕ → Code → Else → Code
  else_code fields tested start taken no_else = if_code tested start taken
  else_code fields tested start taken (else_block b) =
      if_else_code tested start taken (block_code fields (start + length taken + 1) b)
  else_code fields tested start taken (else_if cond t e) =
      let o = start + length taken + 1 in
      let tested' = expr_code fields cond in
      let start' = o + length tested' + 1 in
      if_else_code tested start taken
        (else_code fields tested' start' (block_code fields start' t) e)

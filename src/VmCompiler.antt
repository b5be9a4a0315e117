-- ===== src/VmCompiler.antt =====
-- compiler/vm_compiler.py: one pass over the tree that appends instructions and patches the jumps.
-- The state of the visitor methods is `self.instructions`; `fields` is `self.current_contract_fields`,
-- the empty list where the attribute is missing.
pub mod Layout
pub mod Emitted
pub mod Branches
pub mod Patching
pub mod Straight
pub mod Jumps
use baybayin_language.Base.{
  ℕ, suc, String, Bool, false, Option, none, some, List, [], ◌∷◌, ◌++◌, map, length, set, get_elem?,
  get_last?, if◌then◌else◌, str_eq, mem_name, Dict, insert, keys,
}
use baybayin_language.Base.Int.{negsuc}
use baybayin_language.Ast.{
  Expr, literal, identifier, member, call, unary, binary, assign, Exprs, no_args, arg, BinaryOp,
  UnaryOp, bang, minus, Param, VarDecl, Signature, Stmt, contract_decl, func_decl, var_decl, block,
  if_stmt, while_stmt, return_stmt, expr_stmt, Block, end, seq, Else, no_else, else_block, else_if,
  Members, no_members, field, method, Program,
}
use baybayin_language.Bytecode.{
  Value, none_value, bool, int, literal_value, CompareOp, Instr, load_const, store_fast, load_fast,
  load_global, binary_add, binary_sub, binary_mul, binary_div, compare_op, jump_if_false, jump,
  call_function, print, return_value, halt, call_method, load_attr, store_attr, Code, Function,
  Contract, Bytecode,
}

unfoldable pub emit : Code → Instr → Code
emit code i = code ++ i ∷ []

-- `current_index` is `length code`.
abbrev pub current_index : Code → ℕ
current_index code = length code

-- `patch` is used on the two jumps only.
abbrev pub with_target : ℕ → Instr → Instr
with_target n (jump_if_false _) = jump_if_false n
with_target n (jump _) = jump n
with_target n i = i

unfoldable pub patch : Code → ℕ → ℕ → Code
patch code index target = elim (get_elem? code index) [
  | none ↦ code
  | some i ↦ set code index (with_target target i)
]

-- The instruction of each operator text.
abbrev pub binary_instr : BinaryOp → Instr
binary_instr BinaryOp.add = binary_add
binary_instr BinaryOp.sub = binary_sub
binary_instr BinaryOp.mul = binary_mul
binary_instr BinaryOp.div = binary_div
binary_instr BinaryOp.lt = compare_op CompareOp.lt
binary_instr BinaryOp.gt = compare_op CompareOp.gt
binary_instr BinaryOp.le = compare_op CompareOp.le
binary_instr BinaryOp.ge = compare_op CompareOp.ge
binary_instr BinaryOp.eq = compare_op CompareOp.eq
binary_instr BinaryOp.ne = compare_op CompareOp.ne

-- `len(node.arguments)`
unfoldable pub count_args : Exprs → ℕ
count_args no_args = 0
count_args (arg e es) = suc (count_args es)

visit_unary_op : Code → UnaryOp → Code
unfolding emit
visit_unary_op code minus = emit (emit code (load_const (int (negsuc 0)))) binary_mul
visit_unary_op code bang = emit (emit code (load_const (bool false))) (compare_op CompareOp.eq)

visit_identifier : List String → Code → String → Code
unfolding emit
visit_identifier fields code name =
    if mem_name name fields
    then emit (emit code (load_fast "self")) (load_attr name)
    else emit code (load_fast name)

-- The store of `visit_assign_stmt` (the second definition, which replaces the first) to a name.
store_identifier : List String → Code → String → Code
unfolding emit
store_identifier fields code name =
    if mem_name name fields
    then emit (emit code (load_fast "self")) (store_attr name)
    else emit code (store_fast name)

unfoldable mutual
  unfolding emit count_args visit_unary_op visit_identifier store_identifier

  pub visit_expr : List String → Code → Expr → Code
  visit_expr fields code (literal l) = emit code (load_const (literal_value l))
  visit_expr fields code (identifier name) = visit_identifier fields code name
  visit_expr fields code (member e name) = emit (visit_expr fields code e) (load_attr name)
  visit_expr fields code (unary op e) = visit_unary_op (visit_expr fields code e) op
  visit_expr fields code (binary l op r) =
      emit (visit_expr fields (visit_expr fields code l) r) (binary_instr op)
  visit_expr fields code (call (identifier name) args) =
      let given = visit_args fields code args in
      if str_eq name "ipakita"
      then emit given (print (count_args args))
      else emit (emit given (load_global name)) (call_function (count_args args))
  visit_expr fields code (call (member e name) args) =
      emit (visit_expr fields (visit_args fields code args) e) (call_method name (count_args args))
  visit_expr fields code (call callee args) =
      emit (visit_expr fields (visit_args fields code args) callee)
        (call_function (count_args args))
  visit_expr fields code (assign (identifier name) e) =
      store_identifier fields (visit_expr fields code e) name
  visit_expr fields code (assign (member target name) e) =
      emit (visit_expr fields (visit_expr fields code e) target) (store_attr name)
  visit_expr fields code (assign _ e) = code

  pub visit_args : List String → Code → Exprs → Code
  visit_args fields code no_args = code
  visit_args fields code (arg e es) = visit_args fields (visit_expr fields code e) es

-- `visit(e)` of an expression that may be absent, for which `None` is loaded.
unfoldable pub visit_optional : List String → Code → Option Expr → Code
unfolding emit
visit_optional fields code none = emit code (load_const none_value)
visit_optional fields code (some e) = visit_expr fields code e

unfoldable pub visit_var_decl : List String → Code → VarDecl → Code
unfolding emit visit_optional
visit_var_decl fields code d = emit (visit_optional fields code d.initializer) (store_fast d.name)

-- `visit_if_stmt`, over the visits of its two branches.
unfoldable pub visit_if_stmt :
    List String → Expr → (Code → Code) → Option (Code → Code) → Code → Code
unfolding emit patch
visit_if_stmt fields cond visit_then none code =
    let tested = visit_expr fields code cond in
    let then_end = visit_then (emit tested (jump_if_false 0)) in
    patch then_end (current_index tested) (current_index then_end)
visit_if_stmt fields cond visit_then (some visit_else) code =
    let tested = visit_expr fields code cond in
    let then_end = visit_then (emit tested (jump_if_false 0)) in
    let jumped = emit then_end (jump 0) in
    let else_end = visit_else (patch jumped (current_index tested) (current_index jumped)) in
    patch else_end (current_index then_end) (current_index else_end)

unfoldable pub visit_while_stmt : List String → Expr → (Code → Code) → Code → Code
unfolding emit patch
visit_while_stmt fields cond visit_body code =
    let tested = visit_expr fields code cond in
    let body_end = visit_body (emit tested (jump_if_false 0)) in
    let looped = emit body_end (jump (current_index code)) in
    patch looped (current_index tested) (current_index looped)

unfoldable mutual
  unfolding emit visit_optional visit_var_decl visit_if_stmt visit_while_stmt

  pub visit_stmt : List String → Code → Stmt → Code
  visit_stmt fields code (contract_decl name ms) = code
  visit_stmt fields code (func_decl s b) = code
  visit_stmt fields code (var_decl d) = visit_var_decl fields code d
  visit_stmt fields code (block b) = visit_block fields code b
  visit_stmt fields code (if_stmt cond t e) =
      visit_if_stmt fields cond (λ c. visit_block fields c t) (visit_else fields e) code
  visit_stmt fields code (while_stmt cond b) =
      visit_while_stmt fields cond (λ c. visit_block fields c b) code
  visit_stmt fields code (return_stmt e) = emit (visit_optional fields code e) return_value
  visit_stmt fields code (expr_stmt e) = visit_expr fields code e

  pub visit_block : List String → Code → Block → Code
  visit_block fields code end = code
  visit_block fields code (seq s b) = visit_block fields (visit_stmt fields code s) b

  pub visit_else : List String → Else → Option (Code → Code)
  visit_else fields no_else = none
  visit_else fields (else_block b) = some (λ c. visit_block fields c b)
  visit_else fields (else_if cond t e) =
      some (visit_if_stmt fields cond (λ c. visit_block fields c t) (visit_else fields e))

-- `not self.instructions or self.instructions[-1][0] != OpCode.RETURN_VALUE`
unfoldable pub wants_return : Code → Bool
wants_return code = elim (get_last? code) [ none ↦ Bool.true | some i ↦ not_return i ]
  where
    not_return : Instr → Bool
    not_return return_value = false
    not_return _ = Bool.true

unfoldable pub compile_function : List String → Block → Code
unfolding emit visit_block wants_return
compile_function fields body =
    let code = visit_block fields [] body in
    if wants_return code then emit (emit code (load_const none_value)) return_value else code

unfoldable pub function_entry : List String → Signature → Block → Function
unfolding compile_function
function_entry fields s body = record {
  params = map (λ (p : Param). p.name) s.params;
  code = compile_function fields body;
}

-- The default of a state variable: its initializer, if that is a literal.
unfoldable pub field_default : Option Expr → Value
field_default (some (literal l)) = literal_value l
field_default _ = none_value

unfoldable pub contract_fields : Dict Value → Members → Dict Value
unfolding field_default
contract_fields fields no_members = fields
contract_fields fields (field d ms) =
    contract_fields (insert d.name (field_default d.initializer) fields) ms
contract_fields fields (method s b ms) = contract_fields fields ms

unfoldable pub contract_methods : List String → Dict Function → Members → Dict Function
unfolding function_entry
contract_methods names methods no_members = methods
contract_methods names methods (field d ms) = contract_methods names methods ms
contract_methods names methods (method s b ms) =
    contract_methods names (insert s.name (function_entry names s b) methods) ms

unfoldable pub contract_entry : Members → Contract
unfolding contract_fields contract_methods
contract_entry ms =
    let fields = contract_fields [] ms in
    record { fields = fields; methods = contract_methods (keys fields) [] ms }

-- One round of the loop over `program.declarations`. At the top level no fields are in force.
unfoldable pub compile_declaration : Bytecode → Stmt → Bytecode
unfolding function_entry contract_entry visit_stmt
compile_declaration out (func_decl s b) = record out {
  functions = insert s.name (function_entry [] s b) out.functions;
}
compile_declaration out (contract_decl name ms) = record out {
  contracts = insert name (contract_entry ms) out.contracts;
}
compile_declaration out s = record out { main_code = visit_stmt [] out.main_code s }

unfoldable pub compile_declarations : Bytecode → Program → Bytecode
unfolding compile_declaration
compile_declarations out end = out
compile_declarations out (seq s p) = compile_declarations (compile_declaration out s) p

unfoldable pub compile : Program → Bytecode
unfolding compile_declarations emit
compile program =
    let out =
      compile_declarations (record { main_code = []; functions = []; contracts = [] }) program in
    record out { main_code = emit out.main_code halt }

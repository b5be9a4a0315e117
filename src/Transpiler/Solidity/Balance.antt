-- ===== src/Transpiler/Solidity/Balance.antt =====
-- compiler/transpiler_solidity.py: its indentation and its scopes.
use baybayin_language.Base.{String, true, ap, ◌≡◌, refl, List, [], ◌∷◌, Dict, ◌∙◌, insert}
use baybayin_language.Ast.{
  Param, VarDecl, Signature, Stmt, contract_decl, func_decl, var_decl, block, if_stmt, while_stmt,
  return_stmt, expr_stmt, Block, end, seq, Else, no_else, else_block, else_if, Members, no_members,
  field, method, Program,
}
use baybayin_language.Transpiler.Scopes.{
  up, stack, pop-push, pop-on_top, depth-on_top, no_scopes, one_less,
}
use baybayin_language.Transpiler.{Python}
use baybayin_language.Transpiler.Js.Statements.{contract_names}
use baybayin_language.Transpiler.Layout.{Layout, Keeps, Keeps-refl, Keeps-trans, same-Keeps}
use baybayin_language.Transpiler.Solidity.{
  SolidityTranspiler, deeper, shallower, enter_scope, exit_scope, declare_local, raw_type,
}
use baybayin_language.Transpiler.Solidity.Scans.{prints_block}
use baybayin_language.Transpiler.Solidity.Statements.{
  declare_params, enter_function, leave_function, gather_types, enter_contract, leave_contract,
  visit_block, visit_var_decl, visit_stmt, visit_lines, visit_else, visit_methods,
}
use baybayin_language.Transpiler.Solidity.Programs.{
  Place, select, visit_each, run_lines, run_code, main_code, main_part, visit_program, fresh,
}

abbrev pub sol_layout : Layout SolidityTranspiler (Dict String)
sol_layout = record { level = λ t. t.indent_level; scopes = λ t. t.scopes }

declare_local-Keeps :
    (t : SolidityTranspiler) (name u : String) → Keeps sol_layout t (declare_local name u t)
unfolding declare_local
declare_local-Keeps t name u = record {
  same_level = refl;
  same_outer = pop-on_top (insert name u) t.scopes;
  same_depth = depth-on_top (insert name u) t.scopes;
}

visit_var_decl-Keeps :
    (py : Python) (t : SolidityTranspiler) (d : VarDecl)
    → Keeps sol_layout t (visit_var_decl py t d).1
unfolding visit_var_decl
visit_var_decl-Keeps py t d = declare_local-Keeps t d.name (raw_type t d.type_ann d.initializer)

declare_params-Keeps :
    (ps : List Param) (t : SolidityTranspiler) → Keeps sol_layout t (declare_params ps t)
unfolding declare_params
declare_params-Keeps [] t = Keeps-refl t
declare_params-Keeps (p ∷ ps) t =
    Keeps-trans (declare_local-Keeps t p.name p.type_ann)
      (declare_params-Keeps ps (declare_local p.name p.type_ann t))

-- A block, if its statements keep the layout inside of it.
visit_block-Keeps :
    (statements : SolidityTranspiler → List String × SolidityTranspiler) (t : SolidityTranspiler)
    → ((u : SolidityTranspiler) → Keeps sol_layout u (statements u).1)
    → Keeps sol_layout t (visit_block statements t).1
unfolding visit_block enter_scope exit_scope shallower
visit_block-Keeps statements t keeps =
    let x = keeps (deeper (enter_scope t)) in
    let u = (statements (deeper (enter_scope t))).1 in
    same-Keeps t (exit_scope (shallower u)) (one_less x.same_level)
      (x.same_outer ∙ pop-push [] t.scopes)

-- A function, in the scope of its parameters.
visit_function-Keeps :
    (statements : SolidityTranspiler → List String × SolidityTranspiler) (t : SolidityTranspiler)
    (s : Signature)
    → ((u : SolidityTranspiler) → Keeps sol_layout u (statements u).1)
    → Keeps sol_layout t (leave_function (visit_block statements (enter_function t s)).1)
unfolding enter_function leave_function enter_scope exit_scope
visit_function-Keeps statements t s keeps =
    let inside = record (enter_scope t) { inside_function = true } in
    let u = (visit_block statements (declare_params s.params inside)).1 in
    let x =
      Keeps-trans (declare_params-Keeps s.params inside)
        (visit_block-Keeps statements (declare_params s.params inside) keeps) in
    same-Keeps t (leave_function u) x.same_level (x.same_outer ∙ pop-push [] t.scopes)

gather_types-Keeps :
    (t : SolidityTranspiler) (ms : Members) → Keeps sol_layout t (gather_types t ms)
unfolding gather_types
gather_types-Keeps t no_members = Keeps-refl t
gather_types-Keeps t (field d ms) =
    let u = record t {
      state_var_types = insert d.name (raw_type t d.type_ann d.initializer) t.state_var_types;
    } in
    Keeps-trans (same-Keeps t u refl refl) (gather_types-Keeps u ms)
gather_types-Keeps t (method s b ms) = gather_types-Keeps t ms

-- Between a state one level deeper and a level back.
shallower-Keeps :
    (t u : SolidityTranspiler) → Keeps sol_layout (deeper t) u → Keeps sol_layout t (shallower u)
unfolding shallower
shallower-Keeps t u x = record {
  same_level = one_less x.same_level;
  same_outer = x.same_outer;
  same_depth = x.same_depth;
}

enter_contract-Keeps :
    (t : SolidityTranspiler) (ms : Members) → Keeps sol_layout (deeper t) (enter_contract t ms)
unfolding enter_contract
enter_contract-Keeps t ms =
    let x = gather_types-Keeps _ ms in
    record { same_level = ap up x.same_level; same_outer = x.same_outer; same_depth = x.same_depth }

leave_contract-Keeps :
    (t : SolidityTranspiler) (ms : Members) (u : SolidityTranspiler)
    → Keeps sol_layout (enter_contract t ms) u
    → Keeps sol_layout t (leave_contract u)
unfolding leave_contract
leave_contract-Keeps t ms u x =
    let y = shallower-Keeps t u (Keeps-trans (enter_contract-Keeps t ms) x) in
    record { same_level = y.same_level; same_outer = y.same_outer; same_depth = y.same_depth }

mutual
  unfolding visit_stmt

  stmt-Keeps :
      (py : Python) (t : SolidityTranspiler) (s : Stmt) → Keeps sol_layout t (visit_stmt py t s).1
  stmt-Keeps py t (contract_decl name ms) =
      leave_contract-Keeps t ms _ (methods-Keeps py (enter_contract t ms) ms)
  stmt-Keeps py t (func_decl s b) =
      visit_function-Keeps (λ u. visit_lines py u b) t s λ u. lines-Keeps py u b
  stmt-Keeps py t (var_decl d) = visit_var_decl-Keeps py t d
  stmt-Keeps py t (block b) = visit_block-Keeps (λ u. visit_lines py u b) t λ u. lines-Keeps py u b
  stmt-Keeps py t (if_stmt c b e) =
      Keeps-trans (visit_block-Keeps (λ u. visit_lines py u b) t λ u. lines-Keeps py u b)
        (else-Keeps py (visit_block (λ u. visit_lines py u b) t).1 e)
  stmt-Keeps py t (while_stmt c b) =
      visit_block-Keeps (λ u. visit_lines py u b) t λ u. lines-Keeps py u b
  stmt-Keeps py t (return_stmt e) = Keeps-refl t
  stmt-Keeps py t (expr_stmt e) = Keeps-refl t

  lines-Keeps :
      (py : Python) (t : SolidityTranspiler) (b : Block) → Keeps sol_layout t (visit_lines py t b).1
  lines-Keeps py t end = Keeps-refl t
  lines-Keeps py t (seq s b) =
      Keeps-trans (stmt-Keeps py t s) (lines-Keeps py (visit_stmt py t s).1 b)

  else-Keeps :
      (py : Python) (t : SolidityTranspiler) (e : Else) → Keeps sol_layout t (visit_else py t e).1
  else-Keeps py t no_else = Keeps-refl t
  else-Keeps py t (else_block b) =
      visit_block-Keeps (λ u. visit_lines py u b) t λ u. lines-Keeps py u b
  else-Keeps py t (else_if c b e) =
      Keeps-trans (visit_block-Keeps (λ u. visit_lines py u b) t λ u. lines-Keeps py u b)
        (else-Keeps py (visit_block (λ u. visit_lines py u b) t).1 e)

  methods-Keeps :
      (py : Python) (t : SolidityTranspiler) (ms : Members)
      → Keeps sol_layout t (visit_methods py t ms).1
  methods-Keeps py t no_members = Keeps-refl t
  methods-Keeps py t (field d ms) = methods-Keeps py t ms
  methods-Keeps py t (method s b ms) =
      Keeps-trans (visit_function-Keeps (λ u. visit_lines py u b) t s λ u. lines-Keeps py u b) (
        methods-Keeps py
          (leave_function (visit_block (λ u. visit_lines py u b) (enter_function t s)).1) ms)

each-Keeps :
    (py : Python) (t : SolidityTranspiler) (p : Program) → Keeps sol_layout t (visit_each py t p).1
unfolding visit_each
each-Keeps py t end = Keeps-refl t
each-Keeps py t (seq s p) = Keeps-trans (stmt-Keeps py t s) (each-Keeps py (visit_stmt py t s).1 p)

run_lines-Keeps :
    (py : Python) (t : SolidityTranspiler) (p : Program) → Keeps sol_layout t (run_lines py t p).1
unfolding run_lines
run_lines-Keeps py t end = Keeps-refl t
run_lines-Keeps py t (seq s p) =
    Keeps-trans (stmt-Keeps py t s) (run_lines-Keeps py (visit_stmt py t s).1 p)

run_code-Keeps :
    (py : Python) (t : SolidityTranspiler) (p : Program) → Keeps sol_layout t (run_code py t p).1
unfolding run_code
run_code-Keeps py t end = Keeps-refl t
run_code-Keeps py t (seq s p) = shallower-Keeps t _ (run_lines-Keeps py (deeper t) (seq s p))

main_code-Keeps :
    (py : Python) (t : SolidityTranspiler) (methods statements : Program)
    → Keeps sol_layout t (main_code py t methods statements).1
unfolding main_code
main_code-Keeps py t methods statements = shallower-Keeps t _ (
    Keeps-trans (each-Keeps py (deeper t) methods)
      (run_code-Keeps py (visit_each py (deeper t) methods).1 statements))

main_part-Keeps :
    (py : Python) (t : SolidityTranspiler) (methods statements : Program)
    → Keeps sol_layout t (main_part py t methods statements).1
unfolding main_part
main_part-Keeps py t end end = Keeps-refl t
main_part-Keeps py t end (seq s p) = main_code-Keeps py t end (seq s p)
main_part-Keeps py t (seq s p) q = main_code-Keeps py t (seq s p) q

-- From any state, printing a program to Solidity keeps the indentation, all but the innermost scope, and
-- the number of scopes; no `pop` of a scope raises an IndexError unless one has before.
pub solidity_program-Keeps :
    (py : Python) (t : SolidityTranspiler) (p : Program)
    → Keeps sol_layout t (visit_program py t p).1
unfolding visit_program
solidity_program-Keeps py t p =
    let u = record t {
      declared_contracts = contract_names p;
      needs_console_import = prints_block p;
    } in
    Keeps-trans (same-Keeps t u refl refl) (
      Keeps-trans (each-Keeps py u (select Place.contract_part p))
        (main_part-Keeps py _ (select Place.main_method p) (select Place.main_statement p)))

-- A fresh printer has no scope open behind a program.
pub solidity_program-scopes :
    (py : Python) (p : Program) → (visit_program py fresh p).1.scopes ≡ stack []
solidity_program-scopes py p = no_scopes _ (solidity_program-Keeps py fresh p).same_depth

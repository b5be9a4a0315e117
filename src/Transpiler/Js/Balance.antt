-- ===== src/Transpiler/Js/Balance.antt =====
-- compiler/transpiler_js.py: its indentation and its scopes.
use baybayin_language.Base.{String, ◌≡◌, refl, List, [], ◌∙◌, ◌∷◌}
use baybayin_language.Ast.{
  Param, Signature, Stmt, contract_decl, func_decl, var_decl, block, if_stmt, while_stmt,
  return_stmt, expr_stmt, Block, end, seq, Else, no_else, else_block, else_if, Members, no_members,
  field, method, Program,
}
use baybayin_language.Transpiler.Scopes.{
  stack, pop-push, pop-on_top, depth-on_top, no_scopes, one_less,
}
use baybayin_language.Transpiler.{Python}
use baybayin_language.Transpiler.Layout.{Layout, Keeps, Keeps-refl, Keeps-trans, same-Keeps}
use baybayin_language.Transpiler.Js.{
  JsTranspiler, deeper, shallower, enter_scope, exit_scope, declare_local,
}
use baybayin_language.Transpiler.Js.Statements.{
  declare_params, enter_contract, leave_contract, visit_block, visit_stmt, visit_lines, visit_else,
  visit_methods, visit_declarations, contract_names, visit_program, fresh,
}

abbrev pub js_layout : Layout JsTranspiler (List String)
js_layout = record { level = λ t. t.indent_level; scopes = λ t. t.scopes }

declare_local-Keeps : (t : JsTranspiler) (name : String) → Keeps js_layout t (declare_local name t)
unfolding declare_local
declare_local-Keeps t name = record {
  same_level = refl;
  same_outer = pop-on_top (λ s. name ∷ s) t.scopes;
  same_depth = depth-on_top (λ s. name ∷ s) t.scopes;
}

declare_params-Keeps :
    (ps : List Param) (t : JsTranspiler) → Keeps js_layout t (declare_params ps t)
unfolding declare_params
declare_params-Keeps [] t = Keeps-refl t
declare_params-Keeps (p ∷ ps) t =
    Keeps-trans (declare_local-Keeps t p.name) (declare_params-Keeps ps (declare_local p.name t))

-- Out of a scope.
exit_scope-Keeps :
    (t u : JsTranspiler) → Keeps js_layout (enter_scope t) u → Keeps js_layout t (exit_scope u)
unfolding enter_scope exit_scope
exit_scope-Keeps t u x =
    same-Keeps t (exit_scope u) x.same_level (x.same_outer ∙ pop-push [] t.scopes)

-- A block, if its statements keep the layout inside of it.
visit_block-Keeps :
    (statements : JsTranspiler → List String × JsTranspiler) (t : JsTranspiler)
    → ((u : JsTranspiler) → Keeps js_layout u (statements u).1)
    → Keeps js_layout t (visit_block statements t).1
unfolding visit_block enter_scope exit_scope shallower
visit_block-Keeps statements t keeps =
    let x = keeps (deeper (enter_scope t)) in
    let u = (statements (deeper (enter_scope t))).1 in
    same-Keeps t (exit_scope (shallower u)) (one_less x.same_level)
      (x.same_outer ∙ pop-push [] t.scopes)

-- A function, in the scope of its parameters.
visit_function-Keeps :
    (statements : JsTranspiler → List String × JsTranspiler) (t : JsTranspiler) (s : Signature)
    → ((u : JsTranspiler) → Keeps js_layout u (statements u).1)
    → Keeps js_layout t
        (exit_scope (visit_block statements (declare_params s.params (enter_scope t))).1)
visit_function-Keeps statements t s keeps = exit_scope-Keeps t _ (
    Keeps-trans (declare_params-Keeps s.params (enter_scope t))
      (visit_block-Keeps statements (declare_params s.params (enter_scope t)) keeps))

leave_contract-Keeps :
    (t u : JsTranspiler) (ms : Members)
    → Keeps js_layout (enter_contract t ms) u
    → Keeps js_layout t (leave_contract u)
unfolding shallower enter_contract leave_contract
leave_contract-Keeps t u ms x = record {
  same_level = one_less x.same_level;
  same_outer = x.same_outer;
  same_depth = x.same_depth;
}

mutual
  unfolding visit_stmt

  stmt-Keeps : (py : Python) (t : JsTranspiler) (s : Stmt) → Keeps js_layout t (visit_stmt py t s).1
  stmt-Keeps py t (contract_decl name ms) =
      leave_contract-Keeps t _ ms (methods-Keeps py (enter_contract t ms) ms)
  stmt-Keeps py t (func_decl s b) =
      visit_function-Keeps (λ u. visit_lines py u b) t s λ u. lines-Keeps py u b
  stmt-Keeps py t (var_decl d) = declare_local-Keeps t d.name
  stmt-Keeps py t (block b) = visit_block-Keeps (λ u. visit_lines py u b) t λ u. lines-Keeps py u b
  stmt-Keeps py t (if_stmt c b e) =
      Keeps-trans (visit_block-Keeps (λ u. visit_lines py u b) t λ u. lines-Keeps py u b)
        (else-Keeps py (visit_block (λ u. visit_lines py u b) t).1 e)
  stmt-Keeps py t (while_stmt c b) =
      visit_block-Keeps (λ u. visit_lines py u b) t λ u. lines-Keeps py u b
  stmt-Keeps py t (return_stmt e) = Keeps-refl t
  stmt-Keeps py t (expr_stmt e) = Keeps-refl t

  lines-Keeps :
      (py : Python) (t : JsTranspiler) (b : Block) → Keeps js_layout t (visit_lines py t b).1
  lines-Keeps py t end = Keeps-refl t
  lines-Keeps py t (seq s b) =
      Keeps-trans (stmt-Keeps py t s) (lines-Keeps py (visit_stmt py t s).1 b)

  else-Keeps : (py : Python) (t : JsTranspiler) (e : Else) → Keeps js_layout t (visit_else py t e).1
  else-Keeps py t no_else = Keeps-refl t
  else-Keeps py t (else_block b) =
      visit_block-Keeps (λ u. visit_lines py u b) t λ u. lines-Keeps py u b
  else-Keeps py t (else_if c b e) =
      Keeps-trans (visit_block-Keeps (λ u. visit_lines py u b) t λ u. lines-Keeps py u b)
        (else-Keeps py (visit_block (λ u. visit_lines py u b) t).1 e)

  methods-Keeps :
      (py : Python) (t : JsTranspiler) (ms : Members) → Keeps js_layout t (visit_methods py t ms).1
  methods-Keeps py t no_members = Keeps-refl t
  methods-Keeps py t (field d ms) = methods-Keeps py t ms
  methods-Keeps py t (method s b ms) =
      Keeps-trans (visit_function-Keeps (λ u. visit_lines py u b) t s λ u. lines-Keeps py u b) (
        methods-Keeps py
          (exit_scope
            (visit_block (λ u. visit_lines py u b) (declare_params s.params (enter_scope t))).1)
          ms)

declarations-Keeps :
    (py : Python) (t : JsTranspiler) (p : Program) → Keeps js_layout t (visit_declarations py t p).1
unfolding visit_declarations
declarations-Keeps py t end = Keeps-refl t
declarations-Keeps py t (seq s p) =
    Keeps-trans (stmt-Keeps py t s) (declarations-Keeps py (visit_stmt py t s).1 p)

-- From any state, printing a program to JavaScript keeps the indentation, all but the innermost scope, and
-- the number of scopes; no `pop` of a scope raises an IndexError unless one has before.
pub js_program-Keeps :
    (py : Python) (t : JsTranspiler) (p : Program) → Keeps js_layout t (visit_program py t p).1
unfolding visit_program
js_program-Keeps py t p =
    let u = record t { declared_contracts = contract_names p } in
    Keeps-trans (same-Keeps t u refl refl) (declarations-Keeps py u p)

-- A fresh printer has no scope open behind a program.
pub js_program-scopes : (py : Python) (p : Program) → (visit_program py fresh p).1.scopes ≡ stack []
js_program-scopes py p = no_scopes _ (js_program-Keeps py fresh p).same_depth

-- ===== src/Transpiler/Js/Statements.antt =====
-- compiler/transpiler_js.py: the visits of statements, functions, contracts and programs.
use baybayin_language.Base.{
  String, true, false, ◌&&◌, Option, none, some, List, [], ◌∷◌, map, ◌+++◌, if◌then◌else◌, str_eq,
}
use baybayin_language.Ast.{
  Expr, Param, VarDecl, Signature, Stmt, contract_decl, func_decl, var_decl, block, if_stmt,
  while_stmt, return_stmt, expr_stmt, Block, end, seq, Else, no_else, else_block, else_if, Members,
  no_members, field, method, Program,
}
use baybayin_language.Base.Int.{pos}
use baybayin_language.Transpiler.Scopes.{stack}
use baybayin_language.Transpiler.{Python, join}
use baybayin_language.Transpiler.Statements.{state_vars, has_constructor}
use baybayin_language.Transpiler.Js.{
  JsTranspiler, indent, deeper, shallower, enter_scope, exit_scope, declare_local, with_semicolon,
  terminated, visit_expr,
}

-- The code for an initializer.
unfoldable pub initial_code : Python → JsTranspiler → Option Expr → String
unfolding visit_expr
initial_code py t none = "null"
initial_code py t (some e) = visit_expr py t e

unfoldable pub visit_var_decl : Python → JsTranspiler → VarDecl → String × JsTranspiler
unfolding declare_local initial_code
visit_var_decl py t d =
    let t' = declare_local d.name t in
    ("let " +++ (d.name +++ (" = " +++ (initial_code py t' d.initializer +++ ";"))), t')

unfoldable pub declare_params : List Param → JsTranspiler → JsTranspiler
unfolding declare_local
declare_params [] t = t
declare_params (p ∷ ps) t = declare_params ps (declare_local p.name t)

abbrev pub js_name : JsTranspiler → String → String
js_name t name = if str_eq name "simulan" && t.inside_class then "constructor" else name

-- The heading of a function, in the scope of its parameters.
unfoldable pub heading : JsTranspiler → Signature → String
unfolding join
heading t s =
    indent t
    +++ ((if t.inside_class then "" else "function ")
        +++ (js_name t s.name
            +++ ("(" +++ (join ", " (map (λ (p : Param). p.name) s.params) +++ ") "))))

abbrev pub return_code : Python → JsTranspiler → Option Expr → String
return_code py t none = "return;"
return_code py t (some e) = "return " +++ (visit_expr py t e +++ ";")

-- The fields of a class, each line behind `prefix`.
unfoldable pub field_lines : Python → JsTranspiler → String → Members → String
unfolding initial_code
field_lines py t prefix no_members = ""
field_lines py t prefix (field d ms) =
    indent t
    +++ (prefix
        +++ (d.name
            +++ (" = "
                +++ (initial_code py t d.initializer +++ (";\n" +++ field_lines py t prefix ms)))))
field_lines py t prefix (method s b ms) = field_lines py t prefix ms

abbrev pub fields_code : Python → JsTranspiler → Members → List String → String
fields_code py t ms [] = ""
fields_code py t ms (x ∷ xs) = field_lines py t "" ms +++ "\n"

abbrev pub constructor_body : Python → JsTranspiler → Members → List String → String
constructor_body py t ms [] = indent t +++ "// no-op\n"
constructor_body py t ms (x ∷ xs) = field_lines py t "this." ms

-- The constructor that is made for a contract without `simulan`.
abbrev pub default_constructor : Python → JsTranspiler → Members → String
default_constructor py t ms =
    if has_constructor ms
    then ""
    else indent t
      +++ ("constructor() {\n"
          +++ (constructor_body py (deeper t) ms (state_vars ms) +++ (indent t +++ "}\n\n")))

unfoldable pub enter_contract : JsTranspiler → Members → JsTranspiler
unfolding state_vars
enter_contract t ms = record (deeper t) { current_state_vars = state_vars ms; inside_class = true }

unfoldable pub leave_contract : JsTranspiler → JsTranspiler
unfolding shallower
leave_contract t = record (shallower t) { current_state_vars = []; inside_class = false }

abbrev pub class_code :
    Python → JsTranspiler → String → Members → List String → JsTranspiler → String
class_code py t name ms methods left =
    "class "
    +++ (name
        +++ (" {\n"
            +++ (fields_code py t ms (state_vars ms)
                +++ (default_constructor py t ms
                    +++ (join "\n\n" methods +++ ("\n" +++ (indent left +++ "}")))))))

abbrev pub block_code : List String → JsTranspiler → String
block_code lines t = "{\n" +++ (join "\n" lines +++ ("\n" +++ (indent t +++ "}")))

-- `visit_block`, given the visit of its statements.
unfoldable pub visit_block :
    (JsTranspiler → List String × JsTranspiler) → JsTranspiler → String × JsTranspiler
unfolding enter_scope exit_scope shallower join
visit_block statements t =
    let body = statements (deeper (enter_scope t)) in
    let back = shallower body.1 in (block_code body.0 back, exit_scope back)

unfoldable mutual
  unfolding visit_expr visit_var_decl declare_params heading enter_scope exit_scope visit_block
      enter_contract leave_contract join terminated with_semicolon has_constructor state_vars
      field_lines

  pub visit_stmt : Python → JsTranspiler → Stmt → String × JsTranspiler
  visit_stmt py t (contract_decl name ms) =
      let inside = enter_contract t ms in
      let methods = visit_methods py inside ms in
      let left = leave_contract methods.1 in (class_code py inside name ms methods.0 left, left)
  visit_stmt py t (func_decl s b) =
      let inside = declare_params s.params (enter_scope t) in
      let body = visit_block (λ u. visit_lines py u b) inside in
      (heading inside s +++ py.strip body.0, exit_scope body.1)
  visit_stmt py t (var_decl d) = visit_var_decl py t d
  visit_stmt py t (block b) = visit_block (λ u. visit_lines py u b) t
  visit_stmt py t (if_stmt c b e) =
      let body = visit_block (λ u. visit_lines py u b) t in
      let otherwise = visit_else py body.1 e in
      ("if (" +++ (visit_expr py t c +++ (") " +++ (body.0 +++ otherwise.0))), otherwise.1)
  visit_stmt py t (while_stmt c b) =
      let body = visit_block (λ u. visit_lines py u b) t in
      ("while (" +++ (visit_expr py t c +++ (") " +++ body.0)), body.1)
  visit_stmt py t (return_stmt e) = (return_code py t e, t)
  visit_stmt py t (expr_stmt e) = (with_semicolon (visit_expr py t e), t)

  -- The statements of a block, each ended and indented.
  pub visit_lines : Python → JsTranspiler → Block → List String × JsTranspiler
  visit_lines py t end = ([], t)
  visit_lines py t (seq s b) =
      let first = visit_stmt py t s in
      let rest = visit_lines py first.1 b in
      ((indent first.1 +++ terminated first.0) ∷ rest.0, rest.1)

  pub visit_else : Python → JsTranspiler → Else → String × JsTranspiler
  visit_else py t no_else = ("", t)
  visit_else py t (else_block b) =
      let body = visit_block (λ u. visit_lines py u b) t in (" else " +++ py.strip body.0, body.1)
  visit_else py t (else_if c b e) =
      let body = visit_block (λ u. visit_lines py u b) t in
      let otherwise = visit_else py body.1 e in
      let chained = "if (" +++ (visit_expr py t c +++ (") " +++ (body.0 +++ otherwise.0))) in
      (" else " +++ py.strip chained, otherwise.1)

  pub visit_methods : Python → JsTranspiler → Members → List String × JsTranspiler
  visit_methods py t no_members = ([], t)
  visit_methods py t (field d ms) = visit_methods py t ms
  visit_methods py t (method s b ms) =
      let inside = declare_params s.params (enter_scope t) in
      let body = visit_block (λ u. visit_lines py u b) inside in
      let rest = visit_methods py (exit_scope body.1) ms in
      ((heading inside s +++ py.strip body.0) ∷ rest.0, rest.1)

unfoldable pub contract_names : Program → List String
contract_names end = []
contract_names (seq (contract_decl name ms) p) = name ∷ contract_names p
contract_names (seq s p) = contract_names p

-- The declarations' codes, without the empty ones.
unfoldable pub visit_declarations : Python → JsTranspiler → Program → List String × JsTranspiler
unfolding visit_stmt
visit_declarations py t end = ([], t)
visit_declarations py t (seq s p) =
    let first = visit_stmt py t s in
    let rest = visit_declarations py first.1 p in
    (if str_eq first.0 "" then rest.0 else first.0 ∷ rest.0, rest.1)

unfoldable pub visit_program : Python → JsTranspiler → Program → String × JsTranspiler
unfolding visit_declarations contract_names join
visit_program py t p =
    let parts = visit_declarations py (record t { declared_contracts = contract_names p }) p in
    (join "\n\n" parts.0, parts.1)

abbrev pub fresh : JsTranspiler
fresh = record {
  indent_level = pos 0;
  current_state_vars = [];
  scopes = stack [];
  inside_class = false;
  declared_contracts = [];
}

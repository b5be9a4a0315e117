-- ===== src/Transpiler/Statements.antt =====
-- compiler/transpiler_python.py: the visits of statements, functions, contracts and programs.
use baybayin_language.Base.{
  String, Bool, false, ◌||◌, Option, none, some, List, [], ◌∷◌, ◌+++◌, if◌then◌else◌, str_eq, Dict,
  insert,
}
use baybayin_language.Ast.{
  Expr, Stmt, contract_decl, func_decl, var_decl, block, if_stmt, while_stmt, return_stmt,
  expr_stmt, Block, end, seq, Else, no_else, else_block, else_if, Members, no_members, field,
  method, Program,
}
use baybayin_language.Base.Int.{pos}
use baybayin_language.Transpiler.Scopes.{stack}
use baybayin_language.Transpiler.{
  Python, Transpiler, indent, deeper, shallower, enter_scope, exit_scope, join, visit_expr,
  initial_code, hint, raw_type, visit_var_decl, visit_heading, lines_code,
}

abbrev pub return_code : Python → Transpiler → Option Expr → String
return_code py t none = "return"
return_code py t (some e) = "return " +++ visit_expr py t e

-- The state variables of a contract and their types.
unfoldable pub state_vars : Members → List String
state_vars no_members = []
state_vars (field d ms) = d.name ∷ state_vars ms
state_vars (method s b ms) = state_vars ms

unfoldable pub state_types : Dict String → Members → Dict String
unfolding raw_type
state_types types no_members = types
state_types types (field d ms) =
    state_types (insert d.name (raw_type d.type_ann d.initializer) types) ms
state_types types (method s b ms) = state_types types ms

-- The lines of the class body for the fields, and those of the `__init__` that is made for a contract
-- without `simulan`.
unfoldable pub field_lines : Python → Transpiler → Members → String
unfolding hint initial_code
field_lines py t no_members = ""
field_lines py t (field d ms) =
    indent t
    +++ (d.name
        +++ (hint d.type_ann
            +++ (" = " +++ (initial_code py t d.initializer +++ ("\n" +++ field_lines py t ms)))))
field_lines py t (method s b ms) = field_lines py t ms

unfoldable pub init_lines : Python → Transpiler → Members → String
unfolding initial_code
init_lines py t no_members = ""
init_lines py t (field d ms) =
    indent t
    +++ ("self."
        +++ (d.name
            +++ (" = " +++ (initial_code py t d.initializer +++ ("\n" +++ init_lines py t ms)))))
init_lines py t (method s b ms) = init_lines py t ms

unfoldable pub has_constructor : Members → Bool
has_constructor no_members = false
has_constructor (field d ms) = has_constructor ms
has_constructor (method s b ms) = str_eq s.name "simulan" || has_constructor ms

abbrev pub fields_code : Python → Transpiler → Members → List String → String
fields_code py t ms [] = ""
fields_code py t ms (x ∷ xs) = field_lines py t ms +++ "\n"

abbrev pub init_body : Python → Transpiler → Members → List String → String
init_body py t ms [] = indent t +++ "pass\n"
init_body py t ms (x ∷ xs) = init_lines py t ms

abbrev pub default_init : Python → Transpiler → Members → String
default_init py t ms =
    if has_constructor ms
    then ""
    else indent t
      +++ ("def __init__(self):\n" +++ (init_body py (deeper t) ms (state_vars ms) +++ "\n"))

abbrev pub class_code : Python → Transpiler → String → Members → List String → String
class_code py t name ms methods =
    "class "
    +++ (name
        +++ (":\n"
            +++ (fields_code py t ms (state_vars ms)
                +++ (default_init py t ms +++ join "\n\n" methods))))

-- The state in which the members of a contract are visited.
unfoldable pub enter_contract : Transpiler → Members → Transpiler
unfolding state_vars state_types
enter_contract t ms = record (deeper t) {
  current_state_vars = state_vars ms;
  state_var_types = state_types [] ms;
}

unfoldable pub leave_contract : Transpiler → Transpiler
unfolding shallower
leave_contract t = record (shallower t) { current_state_vars = [] }

unfoldable mutual
  unfolding visit_expr visit_var_decl visit_heading enter_scope exit_scope shallower enter_contract
      leave_contract join

  pub visit_stmt : Python → Transpiler → Stmt → String × Transpiler
  visit_stmt py t (contract_decl name ms) =
      let inside = enter_contract t ms in
      let methods = visit_methods py inside ms in
      (class_code py inside name ms methods.0, leave_contract methods.1)
  visit_stmt py t (func_decl s b) =
      let head = visit_heading t s in
      let body = visit_lines py head.1 b in
      (head.0 +++ lines_code head.1 body.0, exit_scope (shallower body.1))
  visit_stmt py t (var_decl d) = visit_var_decl py t d
  visit_stmt py t (block b) =
      let body = visit_lines py (enter_scope t) b in (lines_code t body.0, exit_scope body.1)
  visit_stmt py t (if_stmt c b e) =
      let body = visit_lines py (enter_scope (deeper t)) b in
      let otherwise = visit_else py (shallower (exit_scope body.1)) e in
      (
        "if "
            +++ (visit_expr py t c +++ (":\n" +++ (lines_code (deeper t) body.0 +++ otherwise.0))),
        otherwise.1,
      )
  visit_stmt py t (while_stmt c b) =
      let body = visit_lines py (enter_scope (deeper t)) b in
      (
        "while " +++ (visit_expr py t c +++ (":\n" +++ lines_code (deeper t) body.0)),
        shallower (exit_scope body.1),
      )
  visit_stmt py t (return_stmt e) = (return_code py t e, t)
  visit_stmt py t (expr_stmt e) = (visit_expr py t e, t)

  -- The lines of the statements of a block, each indented.
  pub visit_lines : Python → Transpiler → Block → List String × Transpiler
  visit_lines py t end = ([], t)
  visit_lines py t (seq s b) =
      let first = visit_stmt py t s in
      let rest = visit_lines py first.1 b in ((indent t +++ first.0) ∷ rest.0, rest.1)

  -- The branch behind `kundi`: another `kung` is visited one level deeper, and chained as `elif`.
  pub visit_else : Python → Transpiler → Else → String × Transpiler
  visit_else py t no_else = ("", t)
  visit_else py t (else_block b) =
      let body = visit_lines py (enter_scope (deeper t)) b in
      (
        "\n" +++ (indent t +++ ("else:\n" +++ lines_code (deeper t) body.0)),
        shallower (exit_scope body.1),
      )
  visit_else py t (else_if c b e) =
      let body = visit_lines py (enter_scope (deeper (deeper t))) b in
      let otherwise = visit_else py (shallower (exit_scope body.1)) e in
      let chained =
        "if "
        +++ (visit_expr py (deeper t) c
            +++ (":\n" +++ (lines_code (deeper (deeper t)) body.0 +++ otherwise.0))) in
      ("\n" +++ (indent t +++ ("el" +++ py.strip chained)), shallower otherwise.1)

  pub visit_methods : Python → Transpiler → Members → List String × Transpiler
  visit_methods py t no_members = ([], t)
  visit_methods py t (field d ms) = visit_methods py t ms
  visit_methods py t (method s b ms) =
      let head = visit_heading t s in
      let body = visit_lines py head.1 b in
      let rest = visit_methods py (exit_scope (shallower body.1)) ms in
      ((head.0 +++ lines_code head.1 body.0) ∷ rest.0, rest.1)

-- The declarations' codes, without the empty ones.
unfoldable pub visit_declarations : Python → Transpiler → Program → List String × Transpiler
unfolding visit_stmt
visit_declarations py t end = ([], t)
visit_declarations py t (seq s p) =
    let first = visit_stmt py t s in
    let rest = visit_declarations py first.1 p in
    (if str_eq first.0 "" then rest.0 else first.0 ∷ rest.0, rest.1)

unfoldable pub visit_program : Python → Transpiler → Program → String × Transpiler
unfolding visit_declarations join
visit_program py t p = let parts = visit_declarations py t p in (join "\n\n" parts.0, parts.1)

-- A fresh `PythonTranspiler`.
abbrev pub fresh : Transpiler
fresh = record {
  indent_level = pos 0;
  current_state_vars = [];
  state_var_types = [];
  scopes = stack [];
}

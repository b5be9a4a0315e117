-- ===== src/Transpiler/Solidity/Statements.antt =====
-- compiler/transpiler_solidity.py: the visits of statements, functions, contracts and programs.
use baybayin_language.Base.{
  String, true, false, ◌&&◌, Option, none, some, List, [], ◌∷◌, map, ◌+++◌, if◌then◌else◌, str_eq,
  lookup, insert,
}
use baybayin_language.Ast.{
  Expr, Param, VarDecl, Signature, Stmt, contract_decl, func_decl, var_decl, block, if_stmt,
  while_stmt, return_stmt, expr_stmt, Block, end, seq, Else, no_else, else_block, else_if, Members,
  no_members, field, method,
}
use baybayin_language.Transpiler.{Python, join}
use baybayin_language.Transpiler.Statements.{state_vars}
use baybayin_language.Transpiler.Js.{with_semicolon, terminated}
use baybayin_language.Transpiler.Solidity.{
  SolidityTranspiler, indent, deeper, shallower, enter_scope, exit_scope, declare_local, map_type,
  raw_type, visit_expr,
}
use baybayin_language.Transpiler.Solidity.Scans.{modifies_block}

-- ` = …` for an initializer.
unfoldable pub initial_code : Python → SolidityTranspiler → Option Expr → String
unfolding visit_expr
initial_code py t none = ""
initial_code py t (some e) = " = " +++ visit_expr py t e

unfoldable pub visit_var_decl : Python → SolidityTranspiler → VarDecl → String × SolidityTranspiler
unfolding raw_type declare_local map_type initial_code
visit_var_decl py t d =
    let u = raw_type t d.type_ann d.initializer in
    let t' = declare_local d.name u t in
    (map_type u true +++ (" " +++ (d.name +++ initial_code py t' d.initializer)), t')

unfoldable pub declare_params : List Param → SolidityTranspiler → SolidityTranspiler
unfolding declare_local
declare_params [] t = t
declare_params (p ∷ ps) t = declare_params ps (declare_local p.name p.type_ann t)

abbrev pub param_code : Param → String
param_code p = map_type p.type_ann true +++ (" " +++ p.name)

abbrev pub returns_code : Option String → String
returns_code none = ""
returns_code (some u) = " returns (" +++ (map_type u true +++ ")")

abbrev pub view_code : SolidityTranspiler → Block → String
view_code t b = if modifies_block t.current_state_vars b then "" else " view"

-- The heading of a function, in the scope of its parameters.
unfoldable pub heading : SolidityTranspiler → Signature → Block → String
unfolding join map_type modifies_block
heading t s b =
    let given = join ", " (map param_code s.params) in
    if str_eq s.name "simulan" && t.inside_class
    then indent t +++ ("constructor(" +++ (given +++ ") "))
    else indent t
      +++ ("function "
          +++ (s.name
              +++ ("("
                  +++ (given
                      +++ (") public"
                          +++ (view_code t b +++ (returns_code s.return_type +++ " ")))))))

unfoldable pub enter_function : SolidityTranspiler → Signature → SolidityTranspiler
unfolding enter_scope declare_params
enter_function t s = declare_params s.params (record (enter_scope t) { inside_function = true })

unfoldable pub leave_function : SolidityTranspiler → SolidityTranspiler
unfolding exit_scope
leave_function t = exit_scope (record t { inside_function = false })

abbrev pub return_code : Python → SolidityTranspiler → Option Expr → String
return_code py t none = "return;"
return_code py t (some e) = "return " +++ (visit_expr py t e +++ ";")

-- The types of the state variables, each inferred where those before it are known.
unfoldable pub gather_types : SolidityTranspiler → Members → SolidityTranspiler
unfolding raw_type
gather_types t no_members = t
gather_types t (field d ms) =
    gather_types
      (record t {
        state_var_types = insert d.name (raw_type t d.type_ann d.initializer) t.state_var_types;
      })
      ms
gather_types t (method s b ms) = gather_types t ms

abbrev pub field_type : SolidityTranspiler → String → String
field_type t name = elim (lookup name t.state_var_types) [ none ↦ "" | some u ↦ u ]

unfoldable pub field_lines : Python → SolidityTranspiler → Members → String
unfolding map_type initial_code
field_lines py t no_members = ""
field_lines py t (field d ms) =
    indent t
    +++ (map_type (field_type t d.name) false
        +++ (" public "
            +++ (d.name +++ (initial_code py t d.initializer +++ (";\n" +++ field_lines py t ms)))))
field_lines py t (method s b ms) = field_lines py t ms

abbrev pub fields_code : Python → SolidityTranspiler → Members → List String → String
fields_code py t ms [] = ""
fields_code py t ms (x ∷ xs) = field_lines py t ms +++ "\n"

unfoldable pub enter_contract : SolidityTranspiler → Members → SolidityTranspiler
unfolding state_vars gather_types
enter_contract t ms = deeper (
    gather_types
      (record t { current_state_vars = state_vars ms; state_var_types = []; inside_class = true })
      ms)

unfoldable pub leave_contract : SolidityTranspiler → SolidityTranspiler
unfolding shallower
leave_contract t = record (shallower t) {
  current_state_vars = [];
  state_var_types = [];
  inside_class = false;
}

abbrev pub contract_code :
    Python → SolidityTranspiler → String → Members → List String → SolidityTranspiler → String
contract_code py t name ms methods left =
    "contract "
    +++ (name
        +++ (" {\n"
            +++ (fields_code py t ms (state_vars ms)
                +++ (join "\n\n" methods +++ ("\n" +++ (indent left +++ "}"))))))

abbrev pub block_code : List String → SolidityTranspiler → String
block_code lines t = "{\n" +++ (join "\n" lines +++ ("\n" +++ (indent t +++ "}")))

-- `visit_block`, given the visit of its statements.
unfoldable pub visit_block :
    (SolidityTranspiler → List String × SolidityTranspiler)
    → SolidityTranspiler
    → String × SolidityTranspiler
unfolding enter_scope exit_scope shallower join
visit_block statements t =
    let body = statements (deeper (enter_scope t)) in
    let back = shallower body.1 in (block_code body.0 back, exit_scope back)

unfoldable mutual
  unfolding visit_expr visit_var_decl heading enter_function leave_function visit_block
      enter_contract leave_contract join terminated with_semicolon state_vars field_lines

  pub visit_stmt : Python → SolidityTranspiler → Stmt → String × SolidityTranspiler
  visit_stmt py t (contract_decl name ms) =
      let inside = enter_contract t ms in
      let methods = visit_methods py inside ms in
      let left = leave_contract methods.1 in (contract_code py inside name ms methods.0 left, left)
  visit_stmt py t (func_decl s b) =
      let inside = enter_function t s in
      let body = visit_block (λ u. visit_lines py u b) inside in
      (heading inside s b +++ py.strip body.0, leave_function body.1)
  visit_stmt py t (var_decl d) = visit_var_decl py t d
  visit_stmt py t (block b) = visit_block (λ u. visit_lines py u b) t
  visit_stmt py t (if_stmt c b e) =
      let body = visit_block (λ u. visit_lines py u b) t in
      let otherwise = visit_else py body.1 e in
      ("if (" +++ (visit_expr py t c +++ (") " +++ (body.0 +++ otherwise.0))), otherwise.1)
  visit_stmt py t (while_stmt c b) =
      let body = visit_block (λ u. visit_lines py u b) t in
      ("while (" +++ (visit_expr py t c +++ (") " +++ body.0)), body.1)
  visit_stmt py t (return_stmt e) = (return_code py t e, t)
  visit_stmt py t (expr_stmt e) = (with_semicolon (visit_expr py t e), t)

  -- The statements of a block, each ended and indented.
  pub visit_lines : Python → SolidityTranspiler → Block → List String × SolidityTranspiler
  visit_lines py t end = ([], t)
  visit_lines py t (seq s b) =
      let first = visit_stmt py t s in
      let rest = visit_lines py first.1 b in
      ((indent first.1 +++ terminated first.0) ∷ rest.0, rest.1)

  pub visit_else : Python → SolidityTranspiler → Else → String × SolidityTranspiler
  visit_else py t no_else = ("", t)
  visit_else py t (else_block b) =
      let body = visit_block (λ u. visit_lines py u b) t in (" else " +++ py.strip body.0, body.1)
  visit_else py t (else_if c b e) =
      let body = visit_block (λ u. visit_lines py u b) t in
      let otherwise = visit_else py body.1 e in
      let chained = "if (" +++ (visit_expr py t c +++ (") " +++ (body.0 +++ otherwise.0))) in
      (" else " +++ py.strip chained, otherwise.1)

  pub visit_methods : Python → SolidityTranspiler → Members → List String × SolidityTranspiler
  visit_methods py t no_members = ([], t)
  visit_methods py t (field d ms) = visit_methods py t ms
  visit_methods py t (method s b ms) =
      let inside = enter_function t s in
      let body = visit_block (λ u. visit_lines py u b) inside in
      let rest = visit_methods py (leave_function body.1) ms in
      ((heading inside s b +++ py.strip body.0) ∷ rest.0, rest.1)

-- ===== src/Transpiler.antt =====
-- compiler/transpiler_python.py: the printer of Python code, with its scopes and its indentation.
pub mod Scopes
pub mod Statements
pub mod Balance
pub mod Layout
pub mod Js
pub mod Solidity
use baybayin_language.Base.{
  ℕ, String, Bool, true, false, ◌||◌, ◌&&◌, Option, none, some, List, [], ◌∷◌, ◌+++◌, if◌then◌else◌,
  str_eq, Dict, lookup, insert, mem_name,
}
use baybayin_language.Base.Int.{ℤ}
use baybayin_language.Transpiler.Scopes.{up, down, margin, Stack, push, pop, on_top, entries}
use baybayin_language.Ast.{
  Literal, numero, decimal, teksto, kondisyon, wala, Expr, literal, identifier, member, call, unary,
  binary, assign, Exprs, no_args, arg, BinaryOp, add, sub, mul, div, lt, gt, le, ge, eq, ne,
  UnaryOp, bang, minus, Param, VarDecl, Signature,
}

-- Python's `repr` of a text, `str` of a number, and `strip`.
pub record Python : Type 0 where
  pub repr : String → String
  pub str_int : ℕ → String
  pub strip : String → String

-- `PythonTranspiler`. The innermost scope stands first.
pub record Transpiler : Type 0 where
  pub indent_level : ℤ
  pub current_state_vars : List String
  pub state_var_types : Dict String
  pub scopes : Stack (Dict String)

-- `indent()`
abbrev pub indent : Transpiler → String
indent t = margin t.indent_level

abbrev pub deeper : Transpiler → Transpiler
deeper t = record t { indent_level = up t.indent_level }

unfoldable pub shallower : Transpiler → Transpiler
shallower t = record t { indent_level = down t.indent_level }

unfoldable pub enter_scope : Transpiler → Transpiler
enter_scope t = record t { scopes = push [] t.scopes }

unfoldable pub exit_scope : Transpiler → Transpiler
exit_scope t = record t { scopes = pop t.scopes }

abbrev pub declare_in : Stack (Dict String) → String → String → Stack (Dict String)
declare_in ss name type_ann = on_top (insert name type_ann) ss

unfoldable pub declare_local : String → String → Transpiler → Transpiler
declare_local name type_ann t = record t { scopes = declare_in t.scopes name type_ann }

unfoldable pub local_type : String → List (Dict String) → Option String
local_type name [] = none
local_type name (s ∷ ss) = elim (lookup name s) [ some u ↦ some u | none ↦ local_type name ss ]

unfoldable pub is_local : Transpiler → String → Bool
unfolding local_type
is_local t name = elim (local_type name (entries t.scopes)) [ some _ ↦ true | none ↦ false ]

unfoldable pub get_type_of_identifier : Transpiler → String → String
unfolding local_type
get_type_of_identifier t name = elim (local_type name (entries t.scopes)) [
  | some u ↦ u
  | none ↦ elim (lookup name t.state_var_types) [ some u ↦ u | none ↦ "" ]
]

abbrev pub value_type : Literal → String
value_type (numero n) = "numero"
value_type (decimal x) = "numero"
value_type (teksto s) = "teksto"
value_type (kondisyon b) = "kondisyon"
value_type wala = "wala"

unfoldable pub get_expression_type : Transpiler → Expr → String
unfolding get_type_of_identifier
get_expression_type t (literal l) = value_type l
get_expression_type t (identifier name) = get_type_of_identifier t name
get_expression_type t _ = ""

abbrev pub type_table : Dict String
type_table =
    ("buo", "int")
    ∷ ("teksto", "str")
    ∷ ("kondisyon", "bool")
    ∷ ("alamat", "str")
    ∷ ("wala", "None")
    ∷ []

unfoldable pub map_type : String → String
map_type type_ann = elim (lookup type_ann type_table) [ some u ↦ u | none ↦ type_ann ]

-- `sep.join(parts)`
unfoldable pub join : String → List String → String
join sep [] = ""
join sep (p ∷ []) = p
join sep (p ∷ q ∷ ps) = p +++ (sep +++ join sep (q ∷ ps))

abbrev pub operator_text : BinaryOp → String
operator_text add = "+"
operator_text sub = "-"
operator_text mul = "*"
operator_text div = "/"
operator_text lt = "<"
operator_text gt = ">"
operator_text le = "<="
operator_text ge = ">="
operator_text eq = "=="
operator_text ne = "!="

unfoldable pub visit_literal : Python → Literal → String
visit_literal py (numero n) = py.str_int n
visit_literal py (decimal x) = x
visit_literal py (teksto s) = py.repr s
visit_literal py (kondisyon true) = "True"
visit_literal py (kondisyon false) = "False"
visit_literal py wala = "None"

unfoldable pub visit_identifier : Transpiler → String → String
unfolding is_local mem_name
visit_identifier t name =
    if str_eq name "ipakita"
    then "print"
    else if is_local t name
    then name
    else if mem_name name t.current_state_vars
    then "self." +++ name
    else name

abbrev pub is_literal : Expr → Bool
is_literal (literal l) = true
is_literal _ = false

-- An operand of a `+` that joins texts.
abbrev pub text_operand : Transpiler → Expr → String → String
text_operand t e code =
    if str_eq (get_expression_type t e) "teksto" && is_literal e
    then code
    else "str(" +++ (code +++ ")")

abbrev pub infix_code : String → String → String → String
infix_code l op r = "(" +++ (l +++ (" " +++ (op +++ (" " +++ (r +++ ")")))))

-- `visit_binary_expr` behind the visits of the operands.
unfoldable pub binary_code : Transpiler → Expr → BinaryOp → Expr → String → String → String
unfolding get_expression_type
binary_code t l add r left right =
    if str_eq (get_expression_type t l) "teksto" || str_eq (get_expression_type t r) "teksto"
    then infix_code (text_operand t l left) "+" (text_operand t r right)
    else infix_code left "+" right
binary_code t l op r left right = infix_code left (operator_text op) right

abbrev pub unary_code : UnaryOp → String → String
unary_code bang code = "(not " +++ (code +++ ")")
unary_code minus code = "(-" +++ (code +++ ")")

-- The callee of a call: `ipakita` is Python's `print`, as `visit_identifier` has it too.
unfoldable mutual
  unfolding visit_literal visit_identifier binary_code join

  pub visit_expr : Python → Transpiler → Expr → String
  visit_expr py t (literal l) = visit_literal py l
  visit_expr py t (identifier name) = visit_identifier t name
  visit_expr py t (member e name) = visit_expr py t e +++ ("." +++ name)
  visit_expr py t (call callee args) =
      visit_expr py t callee +++ ("(" +++ (join ", " (visit_args py t args) +++ ")"))
  visit_expr py t (unary op e) = unary_code op (visit_expr py t e)
  visit_expr py t (binary l op r) = binary_code t l op r (visit_expr py t l) (visit_expr py t r)
  visit_expr py t (assign target e) = visit_expr py t target +++ (" = " +++ visit_expr py t e)

  pub visit_args : Python → Transpiler → Exprs → List String
  visit_args py t no_args = []
  visit_args py t (arg e es) = visit_expr py t e ∷ visit_args py t es

-- The code for an initializer.
unfoldable pub initial_code : Python → Transpiler → Option Expr → String
unfolding visit_expr
initial_code py t none = "None"
initial_code py t (some e) = visit_expr py t e

unfoldable pub hint : Option String → String
unfolding map_type
hint none = ""
hint (some u) = ": " +++ map_type u

-- The type that a declaration without an annotation gets.
unfoldable pub raw_type : Option String → Option Expr → String
raw_type (some u) e = u
raw_type none (some (literal l)) = value_type l
raw_type none _ = "buo"

unfoldable pub visit_var_decl : Python → Transpiler → VarDecl → String × Transpiler
unfolding raw_type hint initial_code declare_local
visit_var_decl py t d =
    let t' = declare_local d.name (raw_type d.type_ann d.initializer) t in
    (d.name +++ (hint d.type_ann +++ (" = " +++ initial_code py t' d.initializer)), t')

unfoldable pub visit_params : Transpiler → List Param → List String × Transpiler
unfolding hint declare_local
visit_params t [] = ([], t)
visit_params t (p ∷ ps) =
    let rest = visit_params (declare_local p.name p.type_ann t) ps in
    ((p.name +++ hint (some p.type_ann)) ∷ rest.0, rest.1)

unfoldable pub return_hint : Signature → String
unfolding map_type
return_hint s =
    if str_eq s.name "simulan"
    then ""
    else elim s.return_type [ none ↦ " -> None" | some u ↦ " -> " +++ map_type u ]

abbrev pub python_name : String → String
python_name name = if str_eq name "simulan" then "__init__" else name

-- The heading of a function: its parameters stand in the scope that it opens.
unfoldable pub visit_heading : Transpiler → Signature → String × Transpiler
unfolding visit_params return_hint enter_scope join
visit_heading t s =
    let ps = visit_params (enter_scope t) s.params in
    let head = indent t +++ ("def " +++ (python_name s.name +++ "(")) in
    (head +++ (join ", " ("self" ∷ ps.0) +++ (")" +++ (return_hint s +++ ":\n"))), deeper ps.1)

-- The lines of a block, with `pass` for an empty one.
abbrev pub lines_code : Transpiler → List String → String
lines_code t [] = indent t +++ "pass"
lines_code t (c ∷ cs) = join "\n" (c ∷ cs)

-- ===== src/Transpiler/Solidity.antt =====
-- compiler/transpiler_solidity.py: the state of the printer of Solidity code, the types, and the code of
-- expressions.
pub mod Scans
pub mod Statements
pub mod Programs
pub mod Balance
pub mod Views
use baybayin_language.Base.{
  String, Bool, true, false, ◌||◌, ◌&&◌, Option, none, some, List, [], ◌∷◌, ◌+++◌, if◌then◌else◌,
  str_eq, Dict, lookup, mem_name,
}
use baybayin_language.Ast.{
  Literal, numero, decimal, teksto, kondisyon, wala, Expr, literal, identifier, member, call, unary,
  binary, assign, Exprs, no_args, arg, BinaryOp, eq, ne,
}
use baybayin_language.Transpiler.{Python, join, local_type, value_type, operator_text, infix_code}
use baybayin_language.Base.Int.{ℤ}
use baybayin_language.Transpiler.Scopes.{up, down, margin, Stack, push, pop, entries}
use baybayin_language.Transpiler
use baybayin_language.Transpiler.Js.{unary_code, call_code}

-- `SolidityTranspiler`. The innermost scope stands first.
pub record SolidityTranspiler : Type 0 where
  pub indent_level : ℤ
  pub current_state_vars : List String
  pub state_var_types : Dict String
  pub scopes : Stack (Dict String)
  pub inside_class : Bool
  pub inside_function : Bool
  pub needs_console_import : Bool
  pub declared_contracts : List String

abbrev pub indent : SolidityTranspiler → String
indent t = margin t.indent_level

abbrev pub deeper : SolidityTranspiler → SolidityTranspiler
deeper t = record t { indent_level = up t.indent_level }

unfoldable pub shallower : SolidityTranspiler → SolidityTranspiler
shallower t = record t { indent_level = down t.indent_level }

unfoldable pub enter_scope : SolidityTranspiler → SolidityTranspiler
enter_scope t = record t { scopes = push [] t.scopes }

unfoldable pub exit_scope : SolidityTranspiler → SolidityTranspiler
exit_scope t = record t { scopes = pop t.scopes }

unfoldable pub declare_local : String → String → SolidityTranspiler → SolidityTranspiler
declare_local name type_ann t = record t { scopes = Transpiler.declare_in t.scopes name type_ann }

unfoldable pub get_type_of_identifier : SolidityTranspiler → String → String
unfolding local_type
get_type_of_identifier t name = elim (local_type name (entries t.scopes)) [
  | some u ↦ u
  | none ↦ elim (lookup name t.state_var_types) [ some u ↦ u | none ↦ "" ]
]

unfoldable pub get_expression_type : SolidityTranspiler → Expr → String
unfolding get_type_of_identifier mem_name
get_expression_type t (literal l) = value_type l
get_expression_type t (identifier name) = get_type_of_identifier t name
get_expression_type t (call (identifier name) args) =
    if mem_name name t.declared_contracts then name else ""
get_expression_type t _ = ""

abbrev pub type_table : Bool → Dict String
type_table local =
    ("buo", "uint256")
    ∷ ("teksto", if local then "string memory" else "string")
    ∷ ("kondisyon", "bool")
    ∷ ("alamat", "address")
    ∷ ("wala", "void")
    ∷ []

-- `map_type(type_ann, is_local_or_param)`
unfoldable pub map_type : String → Bool → String
map_type type_ann local =
    if str_eq type_ann ""
    then "uint256"
    else elim (lookup type_ann (type_table local)) [ some u ↦ u | none ↦ type_ann ]

-- The type of a declaration: its annotation, else that of its initializer, else `buo`.
unfoldable pub raw_type : SolidityTranspiler → Option String → Option Expr → String
unfolding get_expression_type
raw_type t (some u) e = u
raw_type t none none = "buo"
raw_type t none (some e) = let u = get_expression_type t e in if str_eq u "" then "buo" else u

unfoldable pub visit_literal : Python → Literal → String
visit_literal py (numero n) = py.str_int n
visit_literal py (decimal x) = x
visit_literal py (teksto s) = "\"" +++ (s +++ "\"")
visit_literal py (kondisyon true) = "true"
visit_literal py (kondisyon false) = "false"
visit_literal py wala = "0"

unfoldable pub visit_identifier : String → String
visit_identifier name = if str_eq name "ipakita" then "console.log" else name

-- Texts are compared by their hashes.
abbrev pub hashed : String → String
hashed code = "keccak256(bytes(" +++ (code +++ "))")

abbrev pub is_equality : BinaryOp → Bool
is_equality eq = true
is_equality ne = true
is_equality _ = false

abbrev pub is_text : SolidityTranspiler → Expr → Bool
is_text t e = str_eq (get_expression_type t e) "teksto"

-- `visit_binary_expr`, given the code of the operands.
unfoldable pub binary_code : SolidityTranspiler → Expr → BinaryOp → Expr → String → String → String
unfolding get_expression_type
binary_code t l op r left right =
    if is_equality op && (is_text t l || is_text t r)
    then infix_code (hashed left) (operator_text op) (hashed right)
    else infix_code left (operator_text op) right

unfoldable mutual
  unfolding visit_literal visit_identifier binary_code mem_name join

  pub visit_expr : Python → SolidityTranspiler → Expr → String
  visit_expr py t (literal l) = visit_literal py l
  visit_expr py t (identifier name) = visit_identifier name
  visit_expr py t (member e name) = visit_expr py t e +++ ("." +++ name)
  visit_expr py t (call (identifier name) args) =
      let given = visit_args py t args in
      if str_eq name "ipakita"
      then call_code "console.log" given
      else if mem_name name t.declared_contracts
      then "new " +++ call_code (visit_identifier name) given
      else call_code (visit_identifier name) given
  visit_expr py t (call callee args) = call_code (visit_expr py t callee) (visit_args py t args)
  visit_expr py t (unary op e) = unary_code op (visit_expr py t e)
  visit_expr py t (binary l op r) = binary_code t l op r (visit_expr py t l) (visit_expr py t r)
  visit_expr py t (assign target e) = visit_expr py t target +++ (" = " +++ visit_expr py t e)

  pub visit_args : Python → SolidityTranspiler → Exprs → List String
  visit_args py t no_args = []
  visit_args py t (arg e es) = visit_expr py t e ∷ visit_args py t es

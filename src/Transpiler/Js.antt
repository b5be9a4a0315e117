-- ===== src/Transpiler/Js.antt =====
-- compiler/transpiler_js.py: the state of the printer of JavaScript code, and the code of expressions.
pub mod Statements
pub mod Balance
use Prim.Native.Char.{code}
use Prim.Native.String
use baybayin_language.Base.{
  ℕ, String, Bool, true, false, ◌||◌, List, [], ◌∷◌, ◌==◌, ◌+++◌, if◌then◌else◌, str_eq, mem_name,
}
use baybayin_language.Ast.{
  Literal, numero, decimal, teksto, kondisyon, wala, Expr, literal, identifier, member, call, unary,
  binary, assign, Exprs, no_args, arg, BinaryOp, eq, ne, UnaryOp, bang, minus,
}
use baybayin_language.Base.Int.{ℤ}
use baybayin_language.Transpiler.Scopes.{up, down, margin, Stack, push, pop, on_top, entries}
use baybayin_language.Transpiler.{Python, join, operator_text, infix_code}

-- `JsTranspiler`. The innermost scope stands first; a set is a list of names.
pub record JsTranspiler : Type 0 where
  pub indent_level : ℤ
  pub current_state_vars : List String
  pub scopes : Stack (List String)
  pub inside_class : Bool
  pub declared_contracts : List String

abbrev pub indent : JsTranspiler → String
indent t = margin t.indent_level

abbrev pub deeper : JsTranspiler → JsTranspiler
deeper t = record t { indent_level = up t.indent_level }

unfoldable pub shallower : JsTranspiler → JsTranspiler
shallower t = record t { indent_level = down t.indent_level }

unfoldable pub enter_scope : JsTranspiler → JsTranspiler
enter_scope t = record t { scopes = push [] t.scopes }

unfoldable pub exit_scope : JsTranspiler → JsTranspiler
exit_scope t = record t { scopes = pop t.scopes }

abbrev pub declare_in : Stack (List String) → String → Stack (List String)
declare_in ss name = on_top (λ s. name ∷ s) ss

unfoldable pub declare_local : String → JsTranspiler → JsTranspiler
declare_local name t = record t { scopes = declare_in t.scopes name }

unfoldable pub in_scopes : String → List (List String) → Bool
unfolding mem_name
in_scopes name [] = false
in_scopes name (s ∷ ss) = mem_name name s || in_scopes name ss

-- `is_local`
abbrev pub is_local : JsTranspiler → String → Bool
is_local t name = in_scopes name (entries t.scopes)

-- Whether a text ends with the character of code point `n`.
unfoldable pub ends_with : ℕ → String → Bool
ends_with n String.[] = false
ends_with n (String.◌∷◌ c String.[]) = code c == n
ends_with n (String.◌∷◌ c (String.◌∷◌ d s)) = ends_with n (String.◌∷◌ d s)

-- `if code and not code.endswith(';'): code += ';'`
unfoldable pub with_semicolon : String → String
unfolding ends_with
with_semicolon code = if str_eq code "" || ends_with b';' code then code else code +++ ";"

-- The same for a statement, which may end in a brace too.
unfoldable pub terminated : String → String
unfolding ends_with
terminated code =
    if str_eq code "" || (ends_with b';' code || ends_with b'}' code) then code else code +++ ";"

unfoldable pub visit_literal : Python → Literal → String
visit_literal py (numero n) = py.str_int n
visit_literal py (decimal x) = x
visit_literal py (teksto s) = py.repr s
visit_literal py (kondisyon true) = "true"
visit_literal py (kondisyon false) = "false"
visit_literal py wala = "null"

unfoldable pub visit_identifier : JsTranspiler → String → String
unfolding in_scopes mem_name
visit_identifier t name =
    if str_eq name "ipakita"
    then "console.log"
    else if is_local t name
    then name
    else if mem_name name t.current_state_vars
    then "this." +++ name
    else name

abbrev pub js_operator : BinaryOp → String
js_operator eq = "==="
js_operator ne = "!=="
js_operator op = operator_text op

abbrev pub unary_code : UnaryOp → String → String
unary_code bang code = "(!" +++ (code +++ ")")
unary_code minus code = "(-" +++ (code +++ ")")

abbrev pub call_code : String → List String → String
call_code callee args = callee +++ ("(" +++ (join ", " args +++ ")"))

unfoldable mutual
  unfolding visit_literal visit_identifier mem_name join

  pub visit_expr : Python → JsTranspiler → Expr → String
  visit_expr py t (literal l) = visit_literal py l
  visit_expr py t (identifier name) = visit_identifier t name
  visit_expr py t (member e name) = visit_expr py t e +++ ("." +++ name)
  visit_expr py t (call (identifier name) args) =
      let given = visit_args py t args in
      if str_eq name "ipakita"
      then call_code "console.log" given
      else if mem_name name t.declared_contracts
      then "new " +++ call_code (visit_identifier t name) given
      else call_code (visit_identifier t name) given
  visit_expr py t (call callee args) = call_code (visit_expr py t callee) (visit_args py t args)
  visit_expr py t (unary op e) = unary_code op (visit_expr py t e)
  visit_expr py t (binary l op r) =
      infix_code (visit_expr py t l) (js_operator op) (visit_expr py t r)
  visit_expr py t (assign target e) = visit_expr py t target +++ (" = " +++ visit_expr py t e)

  pub visit_args : Python → JsTranspiler → Exprs → List String
  visit_args py t no_args = []
  visit_args py t (arg e es) = visit_expr py t e ∷ visit_args py t es

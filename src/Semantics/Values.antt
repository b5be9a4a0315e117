-- ===== src/Semantics/Values.antt =====
-- The values, states and texts of the specification in Semantics, and how the parts of a program end.
use baybayin_language.Base.{
  ℕ, suc, ◌≢◌, String, Bool, true, false, Option, none, some, List, [], ◌∷◌, ◌++◌, map, length,
  get_elem?, set, str_eq, ◌+++◌, Dict, lookup, insert,
}
use baybayin_language.Base.Int.{pos, negsuc}
use baybayin_language.Ast.{
  Float, Literal, numero, decimal, teksto, kondisyon, wala, Expr, literal, identifier, member,
  assign, BinaryOp, UnaryOp, bang, minus, Param, Signature, Stmt, contract_decl, func_decl,
  var_decl, block, if_stmt, while_stmt, return_stmt, expr_stmt, Block, end, seq, Else, no_else,
  else_block, else_if, Members, no_members, field, method,
}
use baybayin_language.Bytecode.{Value, none_value, bool, int, float, str, object, CompareOp}
use baybayin_language.Vm.Operators.{
  Result, Object, Host, text_of, sub, floor, add_values, arith_values, mul_values, compare_values,
}

-- A function or method of the program.
pub record Decl : Type 0 where
  pub signature : Signature
  pub body : Block

-- A contract: the defaults of its state variables, and its methods.
pub record Class : Type 0 where
  pub fields : Dict Value
  pub methods : Dict Decl

-- The program's functions and contracts by name.
pub record Tables : Type 0 where
  pub functions : Dict Decl
  pub contracts : Dict Class

pub record Store : Type 0 where
  pub locals : Dict Value
  pub heap : List Object
  pub output : List String

-- How a statement ends.
pub data Signal : Type 0 where
  normal : Signal
  returned : Value → Signal

abbrev pub param_names : Decl → List String
param_names d = map (λ (p : Param). p.name) d.signature.params

-- A name that is no variable stands for itself if it is declared.
unfoldable pub definition_value : Tables → String → Value
definition_value tb x = elim (lookup x tb.functions) [
  | some _ ↦ str x
  | none ↦ elim (lookup x tb.contracts) [ some _ ↦ str x | none ↦ none_value ]
]

unfoldable pub read : Tables → Store → String → Value
unfolding definition_value
read tb σ x = elim (lookup x σ.locals) [ some v ↦ v | none ↦ definition_value tb x ]

unfoldable pub field_value : List Object → ℕ → String → Value
field_value heap r x = elim (get_elem? heap r) [
  | none ↦ none_value
  | some o ↦ elim (lookup x o.fields) [ none ↦ none_value | some v ↦ v ]
]

unfoldable pub write_field : List Object → ℕ → String → Value → List Object
write_field heap r x v = elim (get_elem? heap r) [
  | none ↦ heap
  | some o ↦ set heap r (record o { fields = insert x v o.fields })
]

unfoldable pub unary_value : Host → UnaryOp → Value → Result Value
unary_value host minus v = mul_values host v (int (negsuc 0))
unary_value host bang v = compare_values host CompareOp.eq v (bool false)

unfoldable pub binary_value : Host → List Object → BinaryOp → Value → Value → Result Value
binary_value host heap BinaryOp.add a b = add_values host heap a b
binary_value host heap BinaryOp.sub a b = arith_values host sub a b
binary_value host heap BinaryOp.mul a b = mul_values host a b
binary_value host heap BinaryOp.div a b = arith_values host floor a b
binary_value host heap BinaryOp.lt a b = compare_values host CompareOp.lt a b
binary_value host heap BinaryOp.gt a b = compare_values host CompareOp.gt a b
binary_value host heap BinaryOp.le a b = compare_values host CompareOp.le a b
binary_value host heap BinaryOp.ge a b = compare_values host CompareOp.ge a b
binary_value host heap BinaryOp.eq a b = compare_values host CompareOp.eq a b
binary_value host heap BinaryOp.ne a b = compare_values host CompareOp.ne a b

abbrev pub set_local : String → Value → Store → Store
set_local x v σ = record σ { locals = insert x v σ.locals }

abbrev pub set_member : ℕ → String → Value → Store → Store
set_member r x v σ = record σ { heap = write_field σ.heap r x v }

-- The state in which a call starts, and the caller's state when the call has ended in `σ'`.
abbrev pub entered : Dict Value → Store → Store
entered locals σ = record σ { locals = locals }

abbrev pub resumed : Store → Store → Store
resumed σ σ' = record σ' { locals = σ.locals }

-- A new object of the contract.
abbrev pub allocate : String → Class → Store → Store
allocate name c σ = record σ {
  heap = σ.heap ++ record { class_name = name; fields = c.fields } ∷ [];
}

abbrev pub fresh : Store → Value
fresh σ = object (length σ.heap)

abbrev pub is_print : String → Bool
is_print name = str_eq name "ipakita"

-- The value that a literal stands for.
abbrev pub denoted : Literal → Value
denoted (numero n) = int (pos n)
denoted (decimal x) = float x
denoted (teksto s) = str s
denoted (kondisyon b) = bool b
denoted wala = none_value

-- The default of a state variable is the literal behind its `=`, else None.
unfoldable pub default_value : Option Expr → Value
default_value initializer = elim initializer [
  | none ↦ none_value
  | some e ↦ elim e [ literal l ↦ denoted l | _ ↦ none_value ]
]

unfoldable pub class_defaults : Dict Value → Members → Dict Value
unfolding default_value
class_defaults defaults no_members = defaults
class_defaults defaults (field d ms) =
    class_defaults (insert d.name (default_value d.initializer) defaults) ms
class_defaults defaults (method s b ms) = class_defaults defaults ms

-- A printed line: the texts of the values with a blank between each two.
pub data Line (host : Host) (heap : List Object) : List Value → String → Type 0 where
  no_text : Line host heap [] ""
  last_text : {v : Value} → Line host heap (v ∷ []) (text_of host heap v)
  next_text :
      {v w : Value} {vs : List Value} {s : String}
      → Line host heap (w ∷ vs) s
      → Line host heap (v ∷ w ∷ vs) (text_of host heap v +++ (" " +++ s))

-- Each parameter is bound to the argument at its place; more arguments are passed over.
pub data Binds : List String → List Value → Dict Value → Dict Value → Type 0 where
  p_done : {vs : List Value} {locals : Dict Value} → Binds [] vs locals locals
  p_next :
      {p : String} {ps : List String} {v : Value} {vs : List Value} {locals locals' : Dict Value}
      → Binds ps vs (insert p v locals) locals'
      → Binds (p ∷ ps) (v ∷ vs) locals locals'

-- Which values count as true in a condition: not None, not zero and not the empty text.
pub data Truth (host : Host) : Value → Bool → Type 0 where
  t_none : Truth host none_value false
  t_bool : {b : Bool} → Truth host (bool b) b
  t_zero : Truth host (int (pos 0)) false
  t_positive : {n : ℕ} → Truth host (int (pos (suc n))) true
  t_negative : {n : ℕ} → Truth host (int (negsuc n)) true
  t_float : {x : Float} → Truth host (float x) (host.is_true x)
  t_empty : Truth host (str "") false
  t_text : {s : String} → s ≢ "" → Truth host (str s) true
  t_object : {r : ℕ} → Truth host (object r) true

-- How a body ends in the text: with nothing that does anything, with a `ibalik`, also at the end of its
-- last branch, or with something else.
pub data Ending : Type 0 where
  nothing a_return something_else : Ending

abbrev pub followed_by : Ending → Ending → Ending
followed_by e nothing = e
followed_by e a_return = a_return
followed_by e something_else = something_else

-- The end of a conditional is that of its last branch, if there is anything in it.
abbrev pub of_branch : Ending → Ending
of_branch nothing = something_else
of_branch e = e

-- An assignment to what is neither a name nor a member does nothing.
abbrev pub ending_expr : Expr → Ending
ending_expr (assign (identifier x) e) = something_else
ending_expr (assign (member t x) e) = something_else
ending_expr (assign t e) = nothing
ending_expr e = something_else

unfoldable mutual
  pub ending_stmt : Stmt → Ending
  ending_stmt (contract_decl name ms) = nothing
  ending_stmt (func_decl s b) = nothing
  ending_stmt (var_decl d) = something_else
  ending_stmt (block b) = ending_block b
  ending_stmt (if_stmt c t e) = ending_else (ending_block t) e
  ending_stmt (while_stmt c b) = something_else
  ending_stmt (return_stmt e) = a_return
  ending_stmt (expr_stmt e) = ending_expr e

  pub ending_block : Block → Ending
  ending_block end = nothing
  ending_block (seq s b) = followed_by (ending_stmt s) (ending_block b)

  -- Of the whole conditional, given the end of its first branch.
  pub ending_else : Ending → Else → Ending
  ending_else taken no_else = of_branch taken
  ending_else taken (else_block b) = of_branch (ending_block b)
  ending_else taken (else_if c t e) = ending_else (ending_block t) e

-- The body's end is no `ibalik`.
abbrev pub runs_off : Ending → Bool
runs_off a_return = false
runs_off _ = true

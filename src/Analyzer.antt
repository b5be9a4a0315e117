-- ===== src/Analyzer.antt =====
-- compiler/semantic.py: the analyzer's symbol tables, its scopes, and its type check. A type is a name,
-- or Python's None, which `visit_assign_stmt` returns where an assignment stands as an expression.
pub mod Statements
pub mod Scopes
pub mod Balance
pub mod Names
pub mod Declared
use baybayin_language.Base.{
  ℕ, String, Bool, true, false, ◌||◌, ◌&&◌, Option, none, some, List, [], ◌∷◌, length, ◌==◌,
  if◌then◌else◌, str_eq, Dict, lookup, insert,
}
use baybayin_language.Ast.{
  Literal, numero, decimal, teksto, kondisyon, wala, Expr, literal, identifier, member, call, unary,
  binary, assign, Exprs, no_args, arg, BinaryOp, add, sub, mul, div, lt, gt, le, ge, eq, ne,
  UnaryOp, bang, minus, Signature,
}
use baybayin_language.VmCompiler.{count_args}

abbrev pub TypeName : Type 0
TypeName = Option String

pub data Kind : Type 0 where
  var param func state_var contract_method contract : Kind

-- An entry of a symbol table.
pub record Symbol : Type 0 where
  pub type_name : TypeName
  pub kind : Kind
  pub params : List String

pub record MethodMeta : Type 0 where
  pub params : List String
  pub return_type : String

pub record ContractMeta : Type 0 where
  pub fields : Dict String
  pub methods : Dict MethodMeta

-- The errors: `redeclared` to `no_member` are SemanticError, `no_scope` is a RuntimeError and
-- `unknown_contract` the KeyError of `self.contracts[name]`.
pub data Error : Type 0 where
  redeclared undeclared : String → Error
  mismatch : TypeName → TypeName → Error
  wrong_count : ℕ → ℕ → Error
  no_method no_member : String → Error
  no_scope : Error
  unknown_contract : String → Error

-- A visit that may raise.
pub data Result {ℓ} (T : Type ℓ) : Type ℓ where
  err : Error → Result T
  ok : T → Result T

-- What is raised ends the visits.
infixl 5 ◌>>=◌ ◌>>◌
abbrev pub ◌>>=◌ {ℓ κ} :
    {T : Type ℓ} {U : Type κ} → (visit : Result T) → (next : T → Result U) → Result U
err raised >>= next = err raised
ok value >>= next = next value

-- A visit for its checks alone.
abbrev pub ◌>>◌ {ℓ} : {U : Type ℓ} → (check : Result (Unit {0})) → (next : Result U) → Result U
check >> next = check >>= λ checked. next

-- `SemanticAnalyzer`. The innermost scope stands first; of the current contract only the name is read,
-- of the current function only the heading.
pub record Analyzer : Type 0 where
  pub scopes : List (Dict Symbol)
  pub contracts : Dict ContractMeta
  pub current_contract : Option String
  pub current_function : Option Signature

-- `x or default`
abbrev pub type_or : Option String → String → String
type_or (some t) d = t
type_or none d = d

unfoldable pub enter_scope : Analyzer → Analyzer
enter_scope a = record a { scopes = [] ∷ a.scopes }

abbrev pub drop_scope : List (Dict Symbol) → List (Dict Symbol)
drop_scope [] = []
drop_scope (s ∷ ss) = ss

-- `scopes.pop()`, which every caller makes behind an `enter_scope`.
unfoldable pub exit_scope : Analyzer → Analyzer
exit_scope a = record a { scopes = drop_scope a.scopes }

abbrev pub declare_in : List (Dict Symbol) → String → Symbol → Result (List (Dict Symbol))
declare_in [] name sym = err no_scope
declare_in (s ∷ ss) name sym = elim (lookup name s) [
  | some _ ↦ err (redeclared name)
  | none ↦ ok (insert name sym s ∷ ss)
]

unfoldable pub declare : String → TypeName → Kind → List String → Analyzer → Result Analyzer
declare name t kind params a =
    declare_in a.scopes name (record { type_name = t; kind = kind; params = params }) >>= λ scopes.
    ok (record a { scopes = scopes })

unfoldable pub lookup_scopes : String → List (Dict Symbol) → Option Symbol
lookup_scopes name [] = none
lookup_scopes name (s ∷ ss) = elim (lookup name s) [
  | some sym ↦ some sym
  | none ↦ lookup_scopes name ss
]

-- A state variable or method of the contract.
unfoldable pub lookup_member : String → ContractMeta → Option Symbol
lookup_member name c = elim (lookup name c.fields) [
  | some t ↦ some (record { type_name = some t; kind = Kind.state_var; params = [] })
  | none ↦ elim (lookup name c.methods) [
    | some m ↦
        some (record {
          type_name = some m.return_type;
          kind = Kind.contract_method;
          params = m.params;
        })
    | none ↦ none
  ]
]

unfoldable pub lookup_current : String → Analyzer → Option Symbol
unfolding lookup_member
lookup_current name a = elim a.current_contract [
  | none ↦ none
  | some c ↦ elim (lookup c a.contracts) [ none ↦ none | some meta ↦ lookup_member name meta ]
]

unfoldable pub lookup_global : String → Analyzer → Option Symbol
lookup_global name a = elim (lookup name a.contracts) [
  | none ↦ none
  | some _ ↦ some (record { type_name = some name; kind = Kind.contract; params = [] })
]

-- `lookup`: the scopes from the inside out, then the current contract, then the contracts.
unfoldable pub lookup_symbol : String → Analyzer → Option Symbol
unfolding lookup_scopes lookup_current lookup_global
lookup_symbol name a = elim (lookup_scopes name a.scopes) [
  | some sym ↦ some sym
  | none ↦ elim (lookup_current name a) [ some sym ↦ some sym | none ↦ lookup_global name a ]
]

abbrev pub type_eq : TypeName → TypeName → Bool
type_eq none none = true
type_eq (some s) (some t) = str_eq s t
type_eq _ _ = false

unfoldable pub assert_type : TypeName → TypeName → Result (Unit {0})
assert_type expected actual =
    if type_eq expected (some "any") || type_eq actual (some "any")
    then ok tt
    else if type_eq expected (some "alamat") && type_eq actual (some "teksto")
    then ok tt
    else if type_eq expected actual
    then ok tt
    else err (mismatch expected actual)

abbrev pub literal_type : Literal → TypeName
literal_type (numero n) = some "buo"
literal_type (decimal x) = some "buo"
literal_type (teksto s) = some "teksto"
literal_type (kondisyon b) = some "kondisyon"
literal_type wala = some "wala"

-- Both operands must be numbers.
abbrev pub both_numbers : TypeName → TypeName → TypeName → Result TypeName
both_numbers l r t = do assert_type (some "buo") l; assert_type (some "buo") r; ok t

-- `visit_binary_expr` behind the visits of the operands.
unfoldable pub binary_type : BinaryOp → TypeName → TypeName → Result TypeName
unfolding assert_type
binary_type add l r =
    if type_eq l (some "teksto") || type_eq r (some "teksto")
    then ok (some "teksto")
    else both_numbers l r (some "buo")
binary_type sub l r = both_numbers l r (some "buo")
binary_type mul l r = both_numbers l r (some "buo")
binary_type div l r = both_numbers l r (some "buo")
binary_type lt l r = both_numbers l r (some "kondisyon")
binary_type gt l r = both_numbers l r (some "kondisyon")
binary_type le l r = both_numbers l r (some "kondisyon")
binary_type ge l r = both_numbers l r (some "kondisyon")
binary_type eq l r = do assert_type l r; ok (some "kondisyon")
binary_type ne l r = do assert_type l r; ok (some "kondisyon")

unfoldable pub unary_type : UnaryOp → TypeName → Result TypeName
unfolding assert_type
unary_type bang t = do assert_type (some "kondisyon") t; ok (some "kondisyon")
unary_type minus t = do assert_type (some "buo") t; ok (some "buo")

abbrev pub meta_of : TypeName → Analyzer → Option ContractMeta
meta_of none a = none
meta_of (some t) a = lookup t a.contracts

-- `visit_member_expr` behind the visit of the object.
unfoldable pub member_type : TypeName → String → Analyzer → Result TypeName
member_type t name a = elim (meta_of t a) [
  | none ↦ ok (some "any")
  | some c ↦ elim (lookup name c.fields) [
    | some ft ↦ ok (some ft)
    | none ↦ elim (lookup name c.methods) [
      | some m ↦ ok (some m.return_type)
      | none ↦ err (no_member name)
    ]
  ]
]

unfoldable pub identifier_type : String → Analyzer → Result TypeName
unfolding lookup_symbol
identifier_type name a = elim (lookup_symbol name a) [
  | none ↦ err (undeclared name)
  | some sym ↦ ok sym.type_name
]

-- The parameters of a contract's `simulan`, none without one.
unfoldable pub constructor_params : String → Analyzer → List String
constructor_params name a = elim (lookup name a.contracts) [
  | none ↦ []
  | some c ↦ elim (lookup "simulan" c.methods) [ none ↦ [] | some m ↦ m.params ]
]

-- How a call by name is checked: against parameters, giving a type; as the built-in print; or not at
-- all, where the name is unknown or stands for something else.
pub data CallKind : Type 0 where
  checked : List String → TypeName → CallKind
  printing unchecked : CallKind

abbrev pub other_call : String → CallKind
other_call name = if str_eq name "ipakita" then printing else unchecked

abbrev pub symbol_call : String → Symbol → Analyzer → Kind → CallKind
symbol_call name sym a Kind.contract = checked (constructor_params name a) (some name)
symbol_call name sym a Kind.func = checked sym.params sym.type_name
symbol_call name sym a Kind.contract_method = checked sym.params sym.type_name
symbol_call name sym a _ = other_call name

unfoldable pub named_call : String → Analyzer → CallKind
unfolding lookup_symbol constructor_params
named_call name a = elim (lookup_symbol name a) [
  | none ↦ other_call name
  | some sym ↦ symbol_call name sym a sym.kind
]

-- How a method call on an object of type `t` is checked.
unfoldable pub method_call : TypeName → String → Analyzer → Result CallKind
method_call t name a = elim (meta_of t a) [
  | none ↦ ok unchecked
  | some c ↦ elim (lookup name c.methods) [
    | some m ↦ ok (checked m.params (some m.return_type))
    | none ↦ err (no_method name)
  ]
]

abbrev pub check_count : List String → Exprs → Result (Unit {0})
check_count params args =
    if length params == count_args args
    then ok tt
    else err (wrong_count (length params) (count_args args))

-- Finish a call, given the checks of its arguments against parameters and without.
unfoldable pub finish_call :
    Exprs → CallKind → (List String → Result (Unit {0})) → Result (Unit {0}) → Result TypeName
finish_call args (checked params t) check visits = do check_count params args; check params; ok t
finish_call args printing check visits = do visits; ok (some "wala")
finish_call args unchecked check visits = ok (some "any")

unfoldable mutual
  unfolding binary_type unary_type member_type identifier_type named_call method_call finish_call

  pub type_of : Analyzer → Expr → Result TypeName
  type_of a (literal l) = ok (literal_type l)
  type_of a (identifier name) = identifier_type name a
  type_of a (member e name) = do t ← type_of a e; member_type t name a
  type_of a (unary op e) = do t ← type_of a e; unary_type op t
  type_of a (binary l op r) = do s ← type_of a l; t ← type_of a r; binary_type op s t
  type_of a (call (identifier name) args) =
      finish_call args (named_call name a) (λ ps. check_args a args ps) (visit_args a args)
  type_of a (call (member e name) args) = do
    t ← type_of a e
    kind ← method_call t name a
    finish_call args kind (λ ps. check_args a args ps) (visit_args a args)
  type_of a (call callee args) = ok (some "any")
  type_of a (assign target e) = do s ← type_of a target; t ← type_of a e; assert_type s t; ok none

  -- Each argument against its parameter, in order: the counts agree by then.
  pub check_args : Analyzer → Exprs → List String → Result (Unit {0})
  check_args a no_args params = ok tt
  check_args a (arg e es) [] = ok tt
  check_args a (arg e es) (p ∷ ps) = do t ← type_of a e; assert_type (some p) t; check_args a es ps

  pub visit_args : Analyzer → Exprs → Result (Unit {0})
  visit_args a no_args = ok tt
  visit_args a (arg e es) = do t ← type_of a e; visit_args a es

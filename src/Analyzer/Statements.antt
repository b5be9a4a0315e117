-- ===== src/Analyzer/Statements.antt =====
-- compiler/semantic.py: the visits of statements and declarations, the pre-pass, and `analyze`.
use baybayin_language.Base.{
  String, if◌then◌else◌, str_eq, Option, none, some, List, [], ◌∷◌, map, Dict, lookup, insert,
}
use baybayin_language.Ast.{
  Expr, Param, VarDecl, Signature, Stmt, contract_decl, func_decl, var_decl, block, if_stmt,
  while_stmt, return_stmt, expr_stmt, Block, end, seq, Else, no_else, else_block, else_if, Members,
  no_members, field, method, Program,
}
use baybayin_language.Analyzer.{
  TypeName, Kind, MethodMeta, ContractMeta, Result, ok, err, ◌>>=◌, ◌>>◌, unknown_contract,
  Analyzer, type_or, enter_scope, exit_scope, declare, assert_type, type_of,
}

-- The type of a declaration: its annotation, which the initializer must fit, or the initializer's.
unfoldable pub initialized : String → TypeName → Result TypeName
unfolding assert_type
initialized ann t = if str_eq ann "any" then ok t else (do assert_type (some ann) t; ok (some ann))

unfoldable pub declared_type : Analyzer → VarDecl → Result TypeName
unfolding type_of initialized
declared_type a d = elim d.initializer [
  | none ↦ ok (some (type_or d.type_ann "any"))
  | some e ↦ type_of a e >>= λ t. initialized (type_or d.type_ann "any") t
]

unfoldable pub visit_var_decl : Analyzer → VarDecl → Result Analyzer
unfolding declared_type declare
visit_var_decl a d = do t ← declared_type a d; declare d.name t Kind.var [] a

unfoldable pub visit_param : Analyzer → Param → Result Analyzer
unfolding declare
visit_param a p = declare p.name (some p.type_ann) Kind.param [] a

unfoldable pub visit_params : Analyzer → List Param → Result Analyzer
unfolding visit_param
visit_params a [] = ok a
visit_params a (p ∷ ps) = visit_param a p >>= λ a'. visit_params a' ps

-- The condition of `kung` and `habang`.
unfoldable pub check_condition : Analyzer → Expr → Result (Unit {0})
unfolding type_of assert_type
check_condition a c = type_of a c >>= λ t. assert_type (some "kondisyon") t

-- `visit_return_stmt`: outside of functions nothing is expected.
unfoldable pub return_type_of : Analyzer → Option Expr → Result TypeName
unfolding type_of
return_type_of a none = ok (some "wala")
return_type_of a (some e) = type_of a e

unfoldable pub check_return : Analyzer → Option Expr → Result (Unit {0})
unfolding return_type_of assert_type
check_return a e = do
  t ← return_type_of a e
  elim a.current_function [
    | none ↦ ok tt
    | some s ↦ assert_type (some (type_or s.return_type "wala")) t
  ]

-- The state variables of the contract, declared in its scope.
unfoldable pub declare_fields : Dict String → Analyzer → Result Analyzer
unfolding declare
declare_fields [] a = ok a
declare_fields ((name, t) ∷ fs) a = do
  a' ← declare name (some t) Kind.state_var [] a
  declare_fields fs a'

unfoldable pub enter_contract : String → Analyzer → Result Analyzer
unfolding declare_fields enter_scope
enter_contract name a = elim (lookup name a.contracts) [
  | none ↦ err (unknown_contract name)
  | some c ↦ declare_fields c.fields (enter_scope (record a { current_contract = some name }))
]

abbrev pub leave_contract : Analyzer → Analyzer
leave_contract a = record (exit_scope a) { current_contract = none }

-- The parameters stand in a scope of their own, around that of the body.
unfoldable pub enter_function : Signature → Analyzer → Result Analyzer
unfolding visit_params enter_scope
enter_function s a = visit_params (enter_scope (record a { current_function = some s })) s.params

abbrev pub leave_function : Analyzer → Analyzer
leave_function a = record (exit_scope a) { current_function = none }

unfoldable mutual
  unfolding visit_var_decl check_condition check_return enter_contract enter_function enter_scope
      exit_scope type_of

  pub visit_stmt : Analyzer → Stmt → Result Analyzer
  visit_stmt a (contract_decl name ms) = do
    a₁ ← enter_contract name a
    a₂ ← visit_members a₁ ms
    ok (leave_contract a₂)
  visit_stmt a (func_decl s b) = do
    a₁ ← enter_function s a
    a₂ ← visit_statements (enter_scope a₁) b
    ok (leave_function (exit_scope a₂))
  visit_stmt a (var_decl d) = visit_var_decl a d
  visit_stmt a (block b) = do a₁ ← visit_statements (enter_scope a) b; ok (exit_scope a₁)
  visit_stmt a (if_stmt c t e) = do
    check_condition a c
    a₁ ← visit_statements (enter_scope a) t
    visit_else (exit_scope a₁) e
  visit_stmt a (while_stmt c b) = do
    check_condition a c
    a₁ ← visit_statements (enter_scope a) b
    ok (exit_scope a₁)
  visit_stmt a (return_stmt e) = do check_return a e; ok a
  visit_stmt a (expr_stmt e) = do t ← type_of a e; ok a

  -- The statements of a block, in the scope that is entered.
  pub visit_statements : Analyzer → Block → Result Analyzer
  visit_statements a end = ok a
  visit_statements a (seq s b) = do a₁ ← visit_stmt a s; visit_statements a₁ b

  pub visit_else : Analyzer → Else → Result Analyzer
  visit_else a no_else = ok a
  visit_else a (else_block b) = do a₁ ← visit_statements (enter_scope a) b; ok (exit_scope a₁)
  visit_else a (else_if c t e) = do
    check_condition a c
    a₁ ← visit_statements (enter_scope a) t
    visit_else (exit_scope a₁) e

  -- Only the methods of a contract are visited.
  pub visit_members : Analyzer → Members → Result Analyzer
  visit_members a no_members = ok a
  visit_members a (field d ms) = visit_members a ms
  visit_members a (method s b ms) = do
    a₁ ← enter_function s a
    a₂ ← visit_statements (enter_scope a₁) b
    visit_members (leave_function (exit_scope a₂)) ms

-- `pre_pass`: the fields and methods of each contract.
unfoldable pub field_types : Dict String → Members → Dict String
field_types fs no_members = fs
field_types fs (field d ms) = field_types (insert d.name (type_or d.type_ann "any") fs) ms
field_types fs (method s b ms) = field_types fs ms

abbrev pub method_meta : Signature → MethodMeta
method_meta s = record {
  params = map (λ (p : Param). p.type_ann) s.params;
  return_type = type_or s.return_type "wala";
}

unfoldable pub method_metas : Dict MethodMeta → Members → Dict MethodMeta
method_metas ms' no_members = ms'
method_metas ms' (field d ms) = method_metas ms' ms
method_metas ms' (method s b ms) = method_metas (insert s.name (method_meta s) ms') ms

unfoldable pub pre_pass : Dict ContractMeta → Program → Dict ContractMeta
unfolding field_types method_metas
pre_pass cs end = cs
pre_pass cs (seq (contract_decl name ms) p) =
    pre_pass (insert name (record { fields = field_types [] ms; methods = method_metas [] ms }) cs)
      p
pre_pass cs (seq s p) = pre_pass cs p

-- The functions of the program are declared before any declaration is visited.
unfoldable pub register_functions : Analyzer → Program → Result Analyzer
unfolding declare
register_functions a end = ok a
register_functions a (seq (func_decl s b) p) = do
  a' ←
      declare s.name (some (type_or s.return_type "wala")) Kind.func
        (map (λ (q : Param). q.type_ann) s.params) a
  register_functions a' p
register_functions a (seq s p) = register_functions a p

unfoldable pub visit_program : Analyzer → Program → Result Analyzer
unfolding register_functions visit_statements enter_scope exit_scope
visit_program a p = do
  a₁ ← register_functions (enter_scope a) p
  a₂ ← visit_statements a₁ p
  ok (exit_scope a₂)

unfoldable pub analyze : Program → Result Analyzer
unfolding pre_pass visit_program
analyze p =
    visit_program
      (record {
        scopes = [];
        contracts = pre_pass [] p;
        current_contract = none;
        current_function = none;
      })
      p

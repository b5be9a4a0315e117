-- ===== src/Analyzer/Balance.antt =====
-- The scope stack over whole statements and programs: what is entered is left.
use baybayin_language.Base.{String, ◌≡◌, refl, ◌∙◌, some, Option-cases, inl, inr, [], lookup}
use baybayin_language.Ast.{
  Signature, Stmt, contract_decl, func_decl, var_decl, block, if_stmt, while_stmt, return_stmt,
  expr_stmt, Block, end, seq, Else, no_else, else_block, else_if, Members, no_members, field,
  method, Program,
}
use baybayin_language.Analyzer.{
  Kind, ok, Analyzer, enter_scope, exit_scope, drop_scope, type_of, type_or,
}
use baybayin_language.Analyzer.Statements.{
  check_condition, check_return, enter_contract, enter_function, leave_contract, leave_function,
  visit_stmt, visit_statements, visit_else, visit_members, register_functions, visit_program,
  analyze, pre_pass,
}
use baybayin_language.Analyzer.Scopes.{
  Ensures, holds, refused, Ensures-ok, Ensures-bind, Ensures-any, Ensures-map, Ensures-after,
  Extends, Extends-refl, same_scopes-Extends, visit_params-Ensures, declare_fields-Ensures,
  visit_var_decl-Ensures, declare-Ensures,
}

-- `a₁` has one scope on top of those of `a`.
record Entered (a a₁ : Analyzer) : Type 0 where
  contracts_kept : a₁.contracts ≡ a.contracts
  below : drop_scope a₁.scopes ≡ a.scopes

-- A scope that is entered in `a'`, which has the scopes and contracts of `a`.
enter_scope-Entered : (a : Analyzer) → Entered a (enter_scope a)
unfolding enter_scope
enter_scope-Entered a = record { contracts_kept = refl; below = refl }

Entered-Extends : {a a₁ a₂ : Analyzer} → Entered a a₁ → Extends a₁ a₂ → Entered a a₂
Entered-Extends n x = record {
  contracts_kept = x.same_contracts ∙ n.contracts_kept;
  below = x.outer ∙ n.below;
}

exit_scope-Extends : (a a₁ : Analyzer) → Entered a a₁ → Extends a (exit_scope a₁)
unfolding exit_scope
exit_scope-Extends a a₁ n = same_scopes-Extends a (exit_scope a₁) n.contracts_kept n.below

leave_function-Extends : (a a₁ : Analyzer) → Entered a a₁ → Extends a (leave_function a₁)
unfolding exit_scope
leave_function-Extends a a₁ n = same_scopes-Extends a (leave_function a₁) n.contracts_kept n.below

leave_contract-Extends : (a a₁ : Analyzer) → Entered a a₁ → Extends a (leave_contract a₁)
unfolding exit_scope
leave_contract-Extends a a₁ n = same_scopes-Extends a (leave_contract a₁) n.contracts_kept n.below

enter_function-Ensures : (s : Signature) (a : Analyzer) → Ensures (Entered a) (enter_function s a)
unfolding enter_function enter_scope
enter_function-Ensures s a =
    Ensures-map
      (visit_params-Ensures (enter_scope (record a { current_function = some s })) s.params)
      λ a₁ x. record { contracts_kept = x.same_contracts; below = x.outer }

enter_contract-Ensures :
    (name : String) (a : Analyzer) → Ensures (Entered a) (enter_contract name a)
unfolding enter_contract enter_scope
enter_contract-Ensures name a = elim (Option-cases (lookup name a.contracts)) [
  | inl e ↦ rw (enter_contract, e) refused
  | inr (c, e) ↦
      rw (enter_contract, e)
        (Ensures-map
          (declare_fields-Ensures c.fields
            (enter_scope (record a { current_contract = some name })))
          λ a₁ x. record { contracts_kept = x.same_contracts; below = x.outer })
]

mutual
  unfolding visit_stmt

  pub stmt-Ensures : (s : Stmt) (a : Analyzer) → Ensures (Extends a) (visit_stmt a s)
  stmt-Ensures (contract_decl name ms) a = Ensures-bind (enter_contract-Ensures name a) λ a₁ n.
      Ensures-bind (members-Ensures ms a₁)
        λ a₂ x. holds (leave_contract-Extends a a₂ (Entered-Extends n x))
  stmt-Ensures (func_decl s b) a = Ensures-bind (enter_function-Ensures s a) λ a₁ n.
      Ensures-bind (statements-Ensures b (enter_scope a₁)) λ a₂ x.
        let back = exit_scope-Extends a₁ a₂ (Entered-Extends (enter_scope-Entered a₁) x) in
        holds (leave_function-Extends a (exit_scope a₂) (Entered-Extends n back))
  stmt-Ensures (var_decl d) a = visit_var_decl-Ensures a d
  stmt-Ensures (block b) a =
      Ensures-bind (statements-Ensures b (enter_scope a))
        λ a₁ x. holds (exit_scope-Extends a a₁ (Entered-Extends (enter_scope-Entered a) x))
  stmt-Ensures (if_stmt c t e) a = Ensures-bind (Ensures-any (check_condition a c)) λ _ _.
      Ensures-bind (statements-Ensures t (enter_scope a)) λ a₁ x.
        let back = exit_scope-Extends a a₁ (Entered-Extends (enter_scope-Entered a) x) in
        Ensures-after back (else-Ensures e (exit_scope a₁))
  stmt-Ensures (while_stmt c b) a = Ensures-bind (Ensures-any (check_condition a c)) λ _ _.
      Ensures-bind (statements-Ensures b (enter_scope a))
        λ a₁ x. holds (exit_scope-Extends a a₁ (Entered-Extends (enter_scope-Entered a) x))
  stmt-Ensures (return_stmt e) a =
      Ensures-bind (Ensures-any (check_return a e)) λ _ _. holds (Extends-refl a)
  stmt-Ensures (expr_stmt e) a =
      Ensures-bind (Ensures-any (type_of a e)) λ _ _. holds (Extends-refl a)

  statements-Ensures : (b : Block) (a : Analyzer) → Ensures (Extends a) (visit_statements a b)
  statements-Ensures end a = holds (Extends-refl a)
  statements-Ensures (seq s b) a =
      Ensures-bind (stmt-Ensures s a) λ a₁ x. Ensures-after x (statements-Ensures b a₁)

  else-Ensures : (e : Else) (a : Analyzer) → Ensures (Extends a) (visit_else a e)
  else-Ensures no_else a = holds (Extends-refl a)
  else-Ensures (else_block b) a =
      Ensures-bind (statements-Ensures b (enter_scope a))
        λ a₁ x. holds (exit_scope-Extends a a₁ (Entered-Extends (enter_scope-Entered a) x))
  else-Ensures (else_if c t e) a = Ensures-bind (Ensures-any (check_condition a c)) λ _ _.
      Ensures-bind (statements-Ensures t (enter_scope a)) λ a₁ x.
        let back = exit_scope-Extends a a₁ (Entered-Extends (enter_scope-Entered a) x) in
        Ensures-after back (else-Ensures e (exit_scope a₁))

  members-Ensures : (ms : Members) (a : Analyzer) → Ensures (Extends a) (visit_members a ms)
  members-Ensures no_members a = holds (Extends-refl a)
  members-Ensures (field d ms) a = members-Ensures ms a
  members-Ensures (method s b ms) a = Ensures-bind (enter_function-Ensures s a) λ a₁ n.
      Ensures-bind (statements-Ensures b (enter_scope a₁)) λ a₂ x.
        let back = exit_scope-Extends a₁ a₂ (Entered-Extends (enter_scope-Entered a₁) x) in
        Ensures-after (leave_function-Extends a (exit_scope a₂) (Entered-Extends n back))
          (members-Ensures ms (leave_function (exit_scope a₂)))

register_functions-Ensures :
    (p : Program) (a : Analyzer) → Ensures (Extends a) (register_functions a p)
unfolding register_functions
register_functions-Ensures end a = holds (Extends-refl a)
register_functions-Ensures (seq (func_decl s b) p) a =
    Ensures-bind (declare-Ensures s.name (some (type_or s.return_type "wala")) Kind.func _ a)
      λ a' x. Ensures-after x (register_functions-Ensures p a')
register_functions-Ensures (seq _ p) a = register_functions-Ensures p a

-- A statement or declaration that is accepted leaves the contracts and the outer scopes as they were,
-- and in the innermost scope every name that was there keeps its entry.
pub visit_stmt-Extends : (a a' : Analyzer) (s : Stmt) → visit_stmt a s ≡ ok a' → Extends a a'
visit_stmt-Extends a a' s = Ensures-ok (stmt-Ensures s a)

-- The names that a block declares are gone behind it: the scopes are exactly those from before it.
pub visit_stmt-block_scopes :
    (a a' : Analyzer) (b : Block) → visit_stmt a (block b) ≡ ok a' → a'.scopes ≡ a.scopes
visit_stmt-block_scopes a a' b h = Ensures-ok exact h
  where
    exact : Ensures (λ c. c.scopes ≡ a.scopes) (visit_stmt a (block b))
    exact =
        unfold visit_stmt exit_scope enter_scope in
        Ensures-bind (statements-Ensures b (enter_scope a)) λ a₁ x. holds x.outer

-- A program that is accepted leaves no scope open, and its contracts are those of the pre-pass.
pub analyze_balanced :
    (p : Program) (a : Analyzer)
    → analyze p ≡ ok a
    → (a.scopes ≡ []) × (a.contracts ≡ pre_pass [] p)
analyze_balanced p a = Ensures-ok exact
  where
    exact : Ensures (λ c. (c.scopes ≡ []) × (c.contracts ≡ pre_pass [] p)) (analyze p)
    exact =
        unfold analyze visit_program exit_scope enter_scope in
        Ensures-bind (register_functions-Ensures p _) λ a₁ x.
          Ensures-bind (statements-Ensures p a₁)
            λ a₂ y. holds (y.outer ∙ x.outer, y.same_contracts ∙ x.same_contracts)

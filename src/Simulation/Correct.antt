-- ===== src/Simulation/Correct.antt =====
-- Every derivation of the big-step relation is followed by the machine on the compiled code.
use baybayin_language.Base.{String, Option, List, ◌∷◌, subst}
use baybayin_language.Ast.{literal, Expr, Exprs, Stmt, Block, Else}
use baybayin_language.Bytecode.{Value}
use baybayin_language.VmCompiler.Layout.{stmt_code, block_code}
use baybayin_language.Vm.Operators.{Host}
use baybayin_language.Semantics.{
  Tables, Store, Signal, Eval, e_literal, e_name, e_field, e_member, e_unary, e_binary, e_call,
  e_method, e_make, e_construct, EvalArgs, a_none, a_next, EvalOptional, o_none, o_some, RunBody,
  b_return, b_end, Exec, x_contract, x_function, x_var, x_block, x_if_true, x_if_false,
  x_while_done, x_while_return, x_while_again, x_return, x_expr, x_print, x_assign_name,
  x_assign_field, x_assign_member, Run, r_end, r_next, r_return, RunElse, l_none, l_block,
  l_if_true, l_if_false,
}
use baybayin_language.Simulation.Calls.{count_args-eq}
use baybayin_language.Simulation.Endings.{
  denoted-eq, Line-join_values, Binds-bind_params, Truth-truthy,
}
use baybayin_language.Simulation.Does.{same, Does-nothing}
use baybayin_language.Simulation.Expressions.{
  EvalSim, ArgsSim, sim-literal, sim-name, sim-field, sim-member, sim-unary, sim-binary,
  sim-no_args, sim-arg,
}
use baybayin_language.Simulation.CallExprs.{sim-call, sim-construct, sim-make, sim-method}
use baybayin_language.Simulation.Invoke.{BodySim}
use baybayin_language.Simulation.Statements.{
  ExecSim, sim-straight, sim-return, sim-seq, sim-seq_return,
}
use baybayin_language.Simulation.Simple.{
  OptionalSim, sim-none, sim-var, sim-assign_name, sim-assign_field, sim-assign_member, sim-print,
}
use baybayin_language.Simulation.Branching.{
  ElseSim, sim-if_true, sim-if_false, sim-no_else, sim-else_block, sim-else_if,
}
use baybayin_language.Simulation.Looping.{sim-while_done, sim-while_return, sim-while_again}
use baybayin_language.Simulation.Bodies.{sim-body_return, sim-body_end}

mutual
  unfolding stmt_code

  pub Eval-sim :
      (host : Host) (tb : Tables) {fields : List String} {e : Expr} {σ σ' : Store} {v : Value}
      → Eval host tb fields e σ v σ'
      → EvalSim host tb fields e σ v σ'
  Eval-sim host tb (e_literal {fields} {σ} l) =
      subst (λ v. EvalSim host tb fields (literal l) σ v σ) (denoted-eq l)
        (sim-literal host tb fields l σ)
  Eval-sim host tb (e_name x h) = sim-name host tb _ x _ h
  Eval-sim host tb (e_field x r h own) = sim-field host tb _ x r _ h own
  Eval-sim host tb (e_member {r = r} x d) = sim-member host tb _ _ x r (Eval-sim host tb d)
  Eval-sim host tb (e_unary op d h) = sim-unary host tb _ _ op (Eval-sim host tb d) h
  Eval-sim host tb (e_binary op d₁ d₂ h) =
      sim-binary host tb _ _ _ op (Eval-sim host tb d₁) (Eval-sim host tb d₂) h
  Eval-sim host tb (e_call name d locals p ds h₁ h₂ h₃ body) =
      sim-call host tb _ _ _ (count_args-eq ds) name d locals _ p (EvalArgs-sim host tb ds) h₁ h₂
        (Binds-bind_params h₃) (RunBody-sim host tb body)
  Eval-sim host tb (e_method name ob c d locals ds de h₁ h₂ h₃ h₄ body) =
      sim-method host tb _ _ _ (count_args-eq ds) _ name _ ob c d locals _ (EvalArgs-sim host tb ds)
        (Eval-sim host tb de) h₁ h₂ h₃ (Binds-bind_params h₄) (RunBody-sim host tb body)
  Eval-sim host tb (e_make name c p ds h₁ h₂) =
      sim-make host tb _ _ _ (count_args-eq ds) name c p (EvalArgs-sim host tb ds) h₁ h₂
  Eval-sim host tb (e_construct name c d locals p ds h₁ h₂ h₃ body) =
      sim-construct host tb _ _ _ (count_args-eq ds) name c d locals _ p (EvalArgs-sim host tb ds)
        h₁ h₂ (Binds-bind_params h₃) (RunBody-sim host tb body)

  EvalArgs-sim :
      (host : Host) (tb : Tables) {fields : List String} {es : Exprs} {σ σ' : Store}
      {vs : List Value}
      → EvalArgs host tb fields es σ vs σ'
      → ArgsSim host tb fields es σ vs σ'
  EvalArgs-sim host tb a_none = sim-no_args host tb _ _
  EvalArgs-sim host tb (a_next {v = v} {vs = vs} d ds) =
      sim-arg host tb _ _ _ v vs (Eval-sim host tb d) (EvalArgs-sim host tb ds)

  EvalOptional-sim :
      (host : Host) (tb : Tables) {fields : List String} {e : Option Expr} {σ σ' : Store}
      {v : Value}
      → EvalOptional host tb fields e σ v σ'
      → OptionalSim host tb fields e σ v σ'
  EvalOptional-sim host tb (o_none {fields = fields}) = sim-none host tb fields _
  EvalOptional-sim host tb (o_some d) = Eval-sim host tb d

  RunBody-sim :
      (host : Host) (tb : Tables) {fields : List String} {b : Block} {σ σ' : Store} {v : Value}
      → RunBody host tb fields b σ v σ'
      → BodySim host tb fields b σ v σ'
  RunBody-sim host tb (b_return {fields = fields} {b = b} d) =
      sim-body_return host tb fields b (Run-sim host tb d)
  RunBody-sim host tb (b_end {fields = fields} {b = b} h d) =
      sim-body_end host tb fields b h (Run-sim host tb d)

  Exec-sim :
      (host : Host) (tb : Tables) {fields : List String} {st : Stmt} {σ σ' : Store} {sg : Signal}
      → Exec host tb fields st σ sg σ'
      → ExecSim host tb (λ o. stmt_code fields o st) σ sg σ'
  Exec-sim host tb (x_contract name ms) = sim-straight host tb same (Does-nothing same)
  Exec-sim host tb (x_function s b) = sim-straight host tb same (Does-nothing same)
  Exec-sim host tb (x_var d de) =
      sim-straight host tb same (sim-var host tb _ _ _ (EvalOptional-sim host tb de))
  Exec-sim host tb (x_block d) = Run-sim host tb d
  Exec-sim host tb (x_if_true {c = c} {t = t} {e = e} d h d') =
      sim-if_true host tb _ c t e _ (Eval-sim host tb d) (Truth-truthy h) (Run-sim host tb d')
  Exec-sim host tb (x_if_false {c = c} {t = t} {e = e} d h d') =
      sim-if_false host tb _ c t e _ (Eval-sim host tb d) (Truth-truthy h) (RunElse-sim host tb d')
  Exec-sim host tb (x_while_done {c = c} {b = b} d h) =
      sim-while_done host tb _ c b _ (Eval-sim host tb d) (Truth-truthy h)
  Exec-sim host tb (x_while_return {c = c} {b = b} d h d') =
      sim-while_return host tb _ c b _ (Eval-sim host tb d) (Truth-truthy h) (Run-sim host tb d')
  Exec-sim host tb (x_while_again {c = c} {b = b} d h d' d'') =
      sim-while_again host tb _ c b _ (Eval-sim host tb d) (Truth-truthy h) (Run-sim host tb d')
        (Exec-sim host tb d'')
  Exec-sim host tb (x_return e d) = sim-return host tb (EvalOptional-sim host tb d)
  Exec-sim host tb (x_expr {v = v} d) = sim-straight host tb (λ s. v ∷ s) (Eval-sim host tb d)
  Exec-sim host tb (x_print name h ds l) = sim-straight host tb same (
      sim-print host tb _ _ name _ (count_args-eq ds) h (EvalArgs-sim host tb ds)
        (Line-join_values l))
  Exec-sim host tb (x_assign_name x h d) =
      sim-straight host tb same (sim-assign_name host tb _ _ x h (Eval-sim host tb d))
  Exec-sim host tb (x_assign_field x r h d own) =
      sim-straight host tb same (sim-assign_field host tb _ _ x r h (Eval-sim host tb d) own)
  Exec-sim host tb (x_assign_member x d d') =
      sim-straight host tb same
        (sim-assign_member host tb _ _ _ x _ (Eval-sim host tb d) (Eval-sim host tb d'))

  pub Run-sim :
      (host : Host) (tb : Tables) {fields : List String} {b : Block} {σ σ' : Store} {sg : Signal}
      → Run host tb fields b σ sg σ'
      → ExecSim host tb (λ o. block_code fields o b) σ sg σ'
  Run-sim host tb r_end = sim-straight host tb same (Does-nothing same)
  Run-sim host tb (r_next {fields = fields} {s = s} {b = b} d d') =
      sim-seq host tb (λ o. stmt_code fields o s) (λ o. block_code fields o b) (Exec-sim host tb d)
        (Run-sim host tb d')
  Run-sim host tb (r_return {fields = fields} {s = s} {b = b} d) =
      sim-seq_return host tb (λ o. stmt_code fields o s) (λ o. block_code fields o b)
        (Exec-sim host tb d)

  RunElse-sim :
      (host : Host) (tb : Tables) {fields : List String} {e : Else} {σ σ' : Store} {sg : Signal}
      → RunElse host tb fields e σ sg σ'
      → ElseSim host tb fields e σ sg σ'
  RunElse-sim host tb l_none = sim-no_else host tb _ _
  RunElse-sim host tb (l_block {b = b} d) = sim-else_block host tb _ b (Run-sim host tb d)
  RunElse-sim host tb (l_if_true {c = c} {t = t} {e = e} d h d') =
      sim-else_if host tb _ c t e
        (sim-if_true host tb _ c t e _ (Eval-sim host tb d) (Truth-truthy h) (Run-sim host tb d'))
  RunElse-sim host tb (l_if_false {c = c} {t = t} {e = e} d h d') = sim-else_if host tb _ c t e (
      sim-if_false host tb _ c t e _ (Eval-sim host tb d) (Truth-truthy h) (RunElse-sim host tb d'))

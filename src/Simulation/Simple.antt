-- ===== src/Simulation/Simple.antt =====
-- Statements without branches: declarations, assignments, prints.
use baybayin_language.Base.{
  ℕ, suc, String, ◌≡◌, refl, ap, ◌∙◌, true, false, some, none, Option, List, [], ◌∷◌, ◌++◌, length,
  lookup, mem_name,
}
use baybayin_language.Ast.{Expr, identifier, member, call, assign, Exprs}
use baybayin_language.Bytecode.{Value, none_value, object, load_fast, store_fast, store_attr}
use baybayin_language.VmCompiler.{count_args}
use baybayin_language.VmCompiler.Layout.{expr_code, optional_code}
use baybayin_language.Vm.{running, dispatch, join_values}
use baybayin_language.Vm.Operators.{Host}
use baybayin_language.Semantics.{Tables, Store, set_local, set_member, is_print}
use baybayin_language.Simulation.Setup.{
  machine_at, load_name-machine, read-local, set_field-machine,
}
use baybayin_language.Simulation.Calls.{pop_args-pushed}
use baybayin_language.Simulation.Does.{Does, same, Does-seq, Does-on, Does-one}
use baybayin_language.Simulation.Expressions.{EvalSim, ArgsSim}

abbrev pub OptionalSim : Host → Tables → List String → Option Expr → Store → Value → Store → Type 0
OptionalSim host tb fields e σ v σ' = Does host tb (optional_code fields e) σ σ' same (λ s. v ∷ s)

module _ (host : Host) (tb : Tables) where
  pub sim-none : (fields : List String) (σ : Store) → OptionalSim host tb fields none σ none_value σ
  unfolding dispatch
  sim-none fields σ = Does-one λ code o s k fs. refl

  store_local :
      (x : String) (v : Value) (σ : Store)
      → Does host tb (store_fast x ∷ []) σ (set_local x v σ) (λ s. v ∷ s) same
  unfolding dispatch
  store_local x v σ = Does-one λ code o s k fs. refl

  -- The object is on top, the value below it.
  store_member :
      (x : String) (v : Value) (r : ℕ) (σ : Store)
      → Does host tb (store_attr x ∷ []) σ (set_member r x v σ) (λ s. object r ∷ v ∷ s) same
  unfolding dispatch
  store_member x v r σ = Does-one λ code o s k fs.
      ap
        (λ m. running (record m {
          frames =
              record {
                instructions = code;
                ip = suc o;
                locals = σ.locals;
                stack = s;
                is_constructor = k;
              }
              ∷ fs;
        }))
        (set_field-machine tb code o (object r ∷ v ∷ s) k fs σ r x v)

  pub sim-var :
      (fields : List String) (e : Option Expr) (x : String) {v : Value} {σ σ' : Store}
      → OptionalSim host tb fields e σ v σ'
      → Does host tb (optional_code fields e ++ store_fast x ∷ []) σ (set_local x v σ') same same
  sim-var fields e x {v} {σ' = σ'} f = Does-seq f (store_local x v σ')

module _ (host : Host) (tb : Tables) (fields : List String) where
  pub sim-assign_name :
      (e : Expr) (x : String) {v : Value} {σ σ' : Store}
      → mem_name x fields ≡ false
      → EvalSim host tb fields e σ v σ'
      → Does host tb (expr_code fields (assign (identifier x) e)) σ (set_local x v σ') same same
  unfolding expr_code
  sim-assign_name e x {v} {σ' = σ'} h f = rw h (Does-seq f (store_local host tb x v σ'))

  pub sim-assign_field :
      (e : Expr) (x : String) (r : ℕ) {v : Value} {σ σ' : Store}
      → mem_name x fields ≡ true
      → EvalSim host tb fields e σ v σ'
      → lookup "self" σ'.locals ≡ some (object r)
      → Does host tb (expr_code fields (assign (identifier x) e)) σ (set_member r x v σ') same same
  unfolding expr_code dispatch
  sim-assign_field e x r {v} {σ} {σ'} h f own =
      rw h (Does-seq f (Does-seq self (store_member host tb x v r σ')))
    where
      self : Does host tb (load_fast "self" ∷ []) σ' σ' (λ s. v ∷ s) (λ s. object r ∷ v ∷ s)
      self = Does-one λ code o s k fs.
          ap (λ w. running (machine_at tb code (suc o) (w ∷ v ∷ s) k fs σ'))
            (load_name-machine tb code o (v ∷ s) k fs σ' "self" ∙ read-local tb σ' "self" own)

  pub sim-assign_member :
      (e target : Expr) (x : String) (r : ℕ) {v : Value} {σ σ₁ σ₂ : Store}
      → EvalSim host tb fields e σ v σ₁
      → EvalSim host tb fields target σ₁ (object r) σ₂
      → Does host tb
          (expr_code fields (assign (member target x) e))
          σ
          (set_member r x v σ₂)
          same
          same
  unfolding expr_code
  sim-assign_member e target x r {v} {σ₂ = σ₂} f g =
      Does-seq f (Does-seq (Does-on (λ s. v ∷ s) g) (store_member host tb x v r σ₂))

  pub sim-print :
      (args : Exprs) (name : String) (vs : List Value) {σ σ' : Store}
      → count_args args ≡ length vs
      → is_print name ≡ true
      → ArgsSim host tb fields args σ vs σ'
      → {line : String} → join_values host σ'.heap vs ≡ line
      → Does host tb
          (expr_code fields (call (identifier name) args))
          σ
          (record σ' { output = σ'.output ++ line ∷ [] })
          same
          same
  unfolding expr_code dispatch
  sim-print args name vs count h f joined = rw h (
      Does-seq f
        (Does-one λ code o s k fs. rw (pop_args-pushed vs s (count_args args) count, joined)))

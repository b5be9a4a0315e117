-- ===== src/Simulation/Expressions.antt =====
-- The code of each kind of expression, given that of its parts.
use baybayin_language.Base.{
  ℕ, suc, String, ◌≡◌, refl, true, false, some, List, [], ◌∷◌, ap, ◌∙◌, lookup, mem_name,
}
use baybayin_language.Ast.{
  Expr, literal, identifier, member, unary, binary, Literal, UnaryOp, bang, minus, BinaryOp, Exprs,
  arg, no_args,
}
use baybayin_language.Bytecode.{Value, object, literal_value, load_fast}
use baybayin_language.Vm.{dispatch, running}
use baybayin_language.Vm.Operators.{Host, ok}
use baybayin_language.VmCompiler.{binary_instr}
use baybayin_language.VmCompiler.Layout.{expr_code, args_code}
use baybayin_language.Semantics.{Tables, Store, read, field_value, unary_value, binary_value}
use baybayin_language.Simulation.Setup.{read-local, load_name-machine, machine_at}
use baybayin_language.Simulation.Calls.{pushed}
use baybayin_language.Simulation.Does.{Does, same, Does-nothing, Does-seq, Does-on, Does-one}

abbrev pub EvalSim : Host → Tables → List String → Expr → Store → Value → Store → Type 0
EvalSim host tb fields e σ v σ' = Does host tb (expr_code fields e) σ σ' same (λ s. v ∷ s)

abbrev pub ArgsSim : Host → Tables → List String → Exprs → Store → List Value → Store → Type 0
ArgsSim host tb fields es σ vs σ' = Does host tb (args_code fields es) σ σ' same (pushed vs)

module _ (host : Host) (tb : Tables) (fields : List String) where
  pub sim-literal :
      (l : Literal) (σ : Store) → EvalSim host tb fields (literal l) σ (literal_value l) σ
  unfolding expr_code dispatch
  sim-literal l σ = Does-one λ code o s k fs. refl

  pub sim-name :
      (x : String) (σ : Store)
      → mem_name x fields ≡ false
      → EvalSim host tb fields (identifier x) σ (read tb σ x) σ
  unfolding expr_code dispatch
  sim-name x σ h = rw h (
      Does-one λ code o s k fs.
        ap (λ v. running (machine_at tb code (suc o) (v ∷ s) k fs σ))
          (load_name-machine tb code o s k fs σ x))

  pub sim-field :
      (x : String) (r : ℕ) (σ : Store)
      → mem_name x fields ≡ true
      → lookup "self" σ.locals ≡ some (object r)
      → EvalSim host tb fields (identifier x) σ (field_value σ.heap r x) σ
  unfolding expr_code dispatch field_value
  sim-field x r σ h e = rw h (Does-seq self (Does-one λ code o s k fs. refl))
    where
      self : Does host tb (load_fast "self" ∷ []) σ σ same (λ s. object r ∷ s)
      self = Does-one λ code o s k fs.
          ap (λ v. running (machine_at tb code (suc o) (v ∷ s) k fs σ))
            (load_name-machine tb code o s k fs σ "self" ∙ read-local tb σ "self" e)

  pub sim-member :
      (e : Expr) (x : String) (r : ℕ) {σ σ' : Store}
      → EvalSim host tb fields e σ (object r) σ'
      → EvalSim host tb fields (member e x) σ (field_value σ'.heap r x) σ'
  unfolding expr_code dispatch field_value
  sim-member e x r f = Does-seq f (Does-one λ code o s k fs. refl)

  pub sim-unary :
      (e : Expr) (op : UnaryOp) {v w : Value} {σ σ' : Store}
      → EvalSim host tb fields e σ v σ'
      → unary_value host op v ≡ ok w
      → EvalSim host tb fields (unary op e) σ w σ'
  unfolding expr_code dispatch unary_value
  sim-unary e minus f h =
      Does-seq f (Does-seq (Does-one λ code o s k fs. refl) (Does-one λ code o s k fs. rw h))
  sim-unary e bang f h =
      Does-seq f (Does-seq (Does-one λ code o s k fs. refl) (Does-one λ code o s k fs. rw h))

  binary_step :
      (op : BinaryOp) (a b w : Value) (σ : Store)
      → binary_value host σ.heap op a b ≡ ok w
      → Does host tb (binary_instr op ∷ []) σ σ (λ s. b ∷ a ∷ s) (λ s. w ∷ s)
  unfolding dispatch binary_value
  binary_step BinaryOp.add a b w σ h = Does-one λ code o s k fs. rw h
  binary_step _ a b w σ h = Does-one λ code o s k fs. rw h

  pub sim-binary :
      (l r : Expr) (op : BinaryOp) {a b w : Value} {σ σ₁ σ₂ : Store}
      → EvalSim host tb fields l σ a σ₁
      → EvalSim host tb fields r σ₁ b σ₂
      → binary_value host σ₂.heap op a b ≡ ok w
      → EvalSim host tb fields (binary l op r) σ w σ₂
  unfolding expr_code
  sim-binary l r op {a} {b} {w} {σ₂ = σ₂} f g h =
      Does-seq f (Does-seq (Does-on (λ s. a ∷ s) g) (binary_step op a b w σ₂ h))

  pub sim-no_args : (σ : Store) → ArgsSim host tb fields no_args σ [] σ
  unfolding expr_code
  sim-no_args σ = Does-nothing same

  pub sim-arg :
      (e : Expr) (es : Exprs) (v : Value) (vs : List Value) {σ σ₁ σ₂ : Store}
      → EvalSim host tb fields e σ v σ₁
      → ArgsSim host tb fields es σ₁ vs σ₂
      → ArgsSim host tb fields (arg e es) σ (v ∷ vs) σ₂
  unfolding expr_code
  sim-arg e es v vs f g = Does-seq f (Does-on (λ s. v ∷ s) g)

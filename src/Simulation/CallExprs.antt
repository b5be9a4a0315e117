-- ===== src/Simulation/CallExprs.antt =====
-- The code of the call expressions, given that of the arguments and of the body that runs.
use baybayin_language.Base.{
  ℕ, suc, ◌+◌, String, ◌≡◌, ap, true, false, none, some, List, [], ◌∷◌, length, get_elem?, arith,
  Dict, lookup, insert, keys,
}
use baybayin_language.Ast.{Expr, identifier, member, call, Exprs}
use baybayin_language.Bytecode.{Value, str, object, load_global, call_function, call_method}
use baybayin_language.VmCompiler.{count_args}
use baybayin_language.VmCompiler.Layout.{expr_code}
use baybayin_language.Vm.{running, dispatch, bind_params}
use baybayin_language.Vm.Operators.{Host, Object}
use baybayin_language.Semantics.{
  Decl, Class, Tables, Store, param_names, entered, resumed, allocate, fresh, is_print,
}
use baybayin_language.Simulation.Setup.{Steps-trans, Steps-move, machine_at, one}
use baybayin_language.Simulation.Calls.{pushed}
use baybayin_language.Simulation.Does.{Does, Does-seq, Does-on, Does-one}
use baybayin_language.Simulation.Expressions.{EvalSim, ArgsSim}
use baybayin_language.Simulation.Invoke.{
  BodySim, load_global-function, load_global-contract, call_enters, call_constructs, call_makes,
  method_enters,
}

load_contract :
    (host : Host) (tb : Tables) (vs : List Value) (name : String) (c : Class) (σ : Store)
    → lookup name tb.contracts ≡ some c
    → Does host tb (load_global name ∷ []) σ σ (pushed vs) (λ s. str name ∷ pushed vs s)
unfolding dispatch
load_contract host tb vs name c σ h = Does-one λ code o s k fs.
    ap (λ w. running (machine_at tb code (suc o) (w ∷ pushed vs s) k fs σ))
      (load_global-contract tb name c code o (pushed vs s) k fs σ h)

module _ (host : Host) (tb : Tables) (fields : List String) (args : Exprs) (vs : List Value)
    (count : count_args args ≡ length vs) where
  pub sim-call :
      (name : String) (d : Decl) (locals : Dict Value) (v : Value) {σ σ₁ σ₂ : Store}
      → is_print name ≡ false
      → ArgsSim host tb fields args σ vs σ₁
      → lookup name tb.contracts ≡ none
      → lookup name tb.functions ≡ some d
      → bind_params (param_names d) vs [] ≡ some locals
      → BodySim host tb [] d.body (entered locals σ₁) v σ₂
      → EvalSim host tb fields (call (identifier name) args) σ v (resumed σ₁ σ₂)
  unfolding expr_code dispatch
  sim-call name d locals v {σ} {σ₁} {σ₂} p f h₁ h₂ h₃ body =
      rw p (Does-seq f (Does-seq load invoke))
    where
      load : Does host tb (load_global name ∷ []) σ₁ σ₁ (pushed vs) (λ s. str name ∷ pushed vs s)
      load = Does-one λ code o s k fs.
          ap (λ w. running (machine_at tb code (suc o) (w ∷ pushed vs s) k fs σ₁))
            (load_global-function tb name d code o (pushed vs s) k fs σ₁ h₂)

      invoke :
          Does host tb
            (call_function (count_args args) ∷ [])
            σ₁
            (resumed σ₁ σ₂)
            (λ s. str name ∷ pushed vs s)
            (λ s. v ∷ s)
      invoke = record {
        runs = λ code o s k fs h.
            Steps-trans
              (one tb code o (str name ∷ pushed vs s) k fs σ₁ host _ h.0 (
                call_enters host tb name vs (count_args args) count d locals code o s k fs σ₁ h₁ h₂
                  h₃))
              (Steps-move tb code (suc o) (v ∷ s) k fs (resumed σ₁ σ₂) (o + 1) (omega arith)
                (body.runs code (suc o) s k fs σ₁.locals false));
      }

  pub sim-construct :
      (name : String) (c : Class) (d : Decl) (locals : Dict Value) (v : Value) {σ σ₁ σ₂ : Store}
      → is_print name ≡ false
      → ArgsSim host tb fields args σ vs σ₁
      → lookup name tb.contracts ≡ some c
      → lookup "simulan" c.methods ≡ some d
      → bind_params (param_names d) vs (insert "self" (fresh σ₁) []) ≡ some locals
      → BodySim host tb (keys c.fields) d.body (entered locals (allocate name c σ₁)) v σ₂
      → EvalSim host tb fields (call (identifier name) args) σ (fresh σ₁) (resumed σ₁ σ₂)
  unfolding expr_code dispatch
  sim-construct name c d locals v {σ} {σ₁} {σ₂} p f h₁ h₂ h₃ body =
      rw p (Does-seq f (Does-seq (load_contract host tb vs name c σ₁ h₁) invoke))
    where
      invoke :
          Does host tb
            (call_function (count_args args) ∷ [])
            σ₁
            (resumed σ₁ σ₂)
            (λ s. str name ∷ pushed vs s)
            (λ s. fresh σ₁ ∷ s)
      invoke = record {
        runs = λ code o s k fs h.
            Steps-trans
              (one tb code o (str name ∷ pushed vs s) k fs σ₁ host _ h.0 (
                call_constructs host tb name vs (count_args args) count c d locals code o s k fs σ₁
                  h₁ h₂ h₃))
              (Steps-move tb code (suc o) (fresh σ₁ ∷ s) k fs (resumed σ₁ σ₂) (o + 1) (omega arith)
                (body.runs code (suc o) (fresh σ₁ ∷ s) k fs σ₁.locals true));
      }

  pub sim-make :
      (name : String) (c : Class) {σ σ₁ : Store}
      → is_print name ≡ false
      → ArgsSim host tb fields args σ vs σ₁
      → lookup name tb.contracts ≡ some c
      → lookup "simulan" c.methods ≡ none
      → EvalSim host tb fields (call (identifier name) args) σ (fresh σ₁) (allocate name c σ₁)
  unfolding expr_code dispatch
  sim-make name c {σ} {σ₁} p f h₁ h₂ = rw p (
      Does-seq f (
        Does-seq (load_contract host tb vs name c σ₁ h₁) (
          Does-one λ code o s k fs.
            call_makes host tb name vs (count_args args) count c code o s k fs σ₁ h₁ h₂)))

  pub sim-method :
      (e : Expr) (name : String) (r : ℕ) (ob : Object) (c : Class) (d : Decl) (locals : Dict Value)
      (v : Value) {σ σ₁ σ₂ σ₃ : Store}
      → ArgsSim host tb fields args σ vs σ₁
      → EvalSim host tb fields e σ₁ (object r) σ₂
      → get_elem? σ₂.heap r ≡ some ob
      → lookup ob.class_name tb.contracts ≡ some c
      → lookup name c.methods ≡ some d
      → bind_params (param_names d) vs (insert "self" (object r) []) ≡ some locals
      → BodySim host tb (keys c.fields) d.body (entered locals σ₂) v σ₃
      → EvalSim host tb fields (call (member e name) args) σ v (resumed σ₂ σ₃)
  unfolding expr_code
  sim-method e name r ob c d locals v {σ} {σ₁} {σ₂} {σ₃} f g h₁ h₂ h₃ h₄ body =
      Does-seq f (Does-seq (Does-on (pushed vs) g) invoke)
    where
      invoke :
          Does host tb
            (call_method name (count_args args) ∷ [])
            σ₂
            (resumed σ₂ σ₃)
            (λ s. object r ∷ pushed vs s)
            (λ s. v ∷ s)
      invoke = record {
        runs = λ code o s k fs h.
            Steps-trans
              (one tb code o (object r ∷ pushed vs s) k fs σ₂ host _ h.0 (
                method_enters host tb name vs (count_args args) count r ob c d locals code o s k fs
                  σ₂ h₁ h₂ h₃ h₄))
              (Steps-move tb code (suc o) (v ∷ s) k fs (resumed σ₂ σ₃) (o + 1) (omega arith)
                (body.runs code (suc o) s k fs σ₂.locals false));
      }

-- ===== src/Simulation/Invoke.antt =====
-- Calls: of functions, of methods, and of contracts.
use baybayin_language.Base.{
  ℕ, suc, String, ◌≡◌, inl, inr, Option-cases, Bool, true, false, none, some, List, [], ◌∷◌, length,
  get_elem?, if◌then◌else◌, Dict, lookup, insert, keys, lookup-nil, lookup-map_dict-some,
  lookup-map_dict-none,
}
use baybayin_language.Ast.{Block}
use baybayin_language.Bytecode.{Value, str, object, Code, call_function, call_method}
use baybayin_language.Vm.{
  Frame, running, dispatch, load_global_name, load_definition, bind_params, call_value, enter,
  construct, call_object_method, methods_of,
}
use baybayin_language.Vm.Operators.{Host, Object}
use baybayin_language.Semantics.{Decl, Class, Tables, Store, param_names, entered, allocate, fresh}
use baybayin_language.Simulation.Setup.{
  Steps, body_code, compiled_decl, compiled_class, frame_at, machine_at,
}
use baybayin_language.Simulation.Calls.{pushed, pop_args-pushed}

-- A function's frame, started in `σ`, ends with `v` on the stack of the frame below, or with that
-- stack as it was where the frame is a constructor's.
pub record BodySim (host : Host) (tb : Tables) (fields : List String) (b : Block) (σ : Store)
    (v : Value) (σ' : Store) : Type 0 where
  pub runs :
      (code : Code) (o : ℕ) (s : List Value) (below : Bool) (fs : List Frame) (locals : Dict Value)
      (k : Bool)
      → Steps host
          (machine_at tb (body_code fields b) 0 [] k (frame_at code o s below locals ∷ fs) σ)
          (machine_at tb code o (if k then s else v ∷ s) below fs (record σ' { locals = locals }))

pub load_global-function :
    (tb : Tables) (name : String) (d : Decl) (code : Code) (o : ℕ) (s : List Value) (k : Bool)
    (fs : List Frame) (σ : Store)
    → lookup name tb.functions ≡ some d
    → load_global_name (machine_at tb code o s k fs σ) name ≡ str name
unfolding load_global_name load_definition
load_global-function tb name d code o s k fs σ h = rw (
  load_global_name,
  lookup-nil,
  load_definition,
  lookup-map_dict-some (compiled_decl []) name tb.functions h,
)

pub load_global-contract :
    (tb : Tables) (name : String) (c : Class) (code : Code) (o : ℕ) (s : List Value) (k : Bool)
    (fs : List Frame) (σ : Store)
    → lookup name tb.contracts ≡ some c
    → load_global_name (machine_at tb code o s k fs σ) name ≡ str name
unfolding load_global_name load_definition
load_global-contract tb name c code o s k fs σ h = elim (Option-cases (lookup name tb.functions)) [
  | inl e ↦ rw (
    load_global_name,
    lookup-nil,
    load_definition,
    lookup-map_dict-none (compiled_decl []) name tb.functions e,
    lookup-map_dict-some compiled_class name tb.contracts h,
  )
  | inr (d, e) ↦ rw (
    load_global_name,
    lookup-nil,
    load_definition,
    lookup-map_dict-some (compiled_decl []) name tb.functions e,
  )
]

module _ (host : Host) (tb : Tables) (name : String) (vs : List Value) (n : ℕ)
    (count : n ≡ length vs) where
  -- The call of a function enters a frame of its code.
  pub call_enters :
      (d : Decl) (locals : Dict Value) (code : Code) (o : ℕ) (s : List Value) (k : Bool)
      (fs : List Frame) (σ : Store)
      → lookup name tb.contracts ≡ none
      → lookup name tb.functions ≡ some d
      → bind_params (param_names d) vs [] ≡ some locals
      → dispatch host
          (machine_at tb code o (str name ∷ pushed vs s) k fs σ)
          (frame_at code (suc o) (str name ∷ pushed vs s) k σ.locals)
          fs
          (call_function n)
        ≡ running (
            machine_at tb
              (body_code [] d.body)
              0
              []
              false
              (frame_at code (suc o) s k σ.locals ∷ fs)
              (entered locals σ))
  unfolding dispatch enter
  call_enters d locals code o s k fs σ h₁ h₂ h₃ = rw (
    pop_args-pushed vs s n count,
    call_value,
    lookup-map_dict-none compiled_class name tb.contracts h₁,
    lookup-map_dict-some (compiled_decl []) name tb.functions h₂,
    enter,
    h₃,
  )

  -- The call of a contract with a `simulan` makes the object and enters the constructor.
  pub call_constructs :
      (c : Class) (d : Decl) (locals : Dict Value) (code : Code) (o : ℕ) (s : List Value) (k : Bool)
      (fs : List Frame) (σ : Store)
      → lookup name tb.contracts ≡ some c
      → lookup "simulan" c.methods ≡ some d
      → bind_params (param_names d) vs (insert "self" (fresh σ) []) ≡ some locals
      → dispatch host
          (machine_at tb code o (str name ∷ pushed vs s) k fs σ)
          (frame_at code (suc o) (str name ∷ pushed vs s) k σ.locals)
          fs
          (call_function n)
        ≡ running (
            machine_at tb
              (body_code (keys c.fields) d.body)
              0
              []
              true
              (frame_at code (suc o) (fresh σ ∷ s) k σ.locals ∷ fs)
              (entered locals (allocate name c σ)))
  unfolding dispatch construct enter
  call_constructs c d locals code o s k fs σ h₁ h₂ h₃ = rw (
    pop_args-pushed vs s n count,
    call_value,
    lookup-map_dict-some compiled_class name tb.contracts h₁,
    construct,
    lookup-map_dict-some (compiled_decl (keys c.fields)) "simulan" c.methods h₂,
    enter,
    h₃,
  )

  -- The call of a contract without one makes the object.
  pub call_makes :
      (c : Class) (code : Code) (o : ℕ) (s : List Value) (k : Bool) (fs : List Frame) (σ : Store)
      → lookup name tb.contracts ≡ some c
      → lookup "simulan" c.methods ≡ none
      → dispatch host
          (machine_at tb code o (str name ∷ pushed vs s) k fs σ)
          (frame_at code (suc o) (str name ∷ pushed vs s) k σ.locals)
          fs
          (call_function n)
        ≡ running (machine_at tb code (suc o) (fresh σ ∷ s) k fs (allocate name c σ))
  unfolding dispatch construct
  call_makes c code o s k fs σ h₁ h₂ = rw (
    pop_args-pushed vs s n count,
    call_value,
    lookup-map_dict-some compiled_class name tb.contracts h₁,
    construct,
    lookup-map_dict-none (compiled_decl (keys c.fields)) "simulan" c.methods h₂,
  )

  pub method_enters :
      (r : ℕ) (ob : Object) (c : Class) (d : Decl) (locals : Dict Value) (code : Code) (o : ℕ)
      (s : List Value) (k : Bool) (fs : List Frame) (σ : Store)
      → get_elem? σ.heap r ≡ some ob
      → lookup ob.class_name tb.contracts ≡ some c
      → lookup name c.methods ≡ some d
      → bind_params (param_names d) vs (insert "self" (object r) []) ≡ some locals
      → dispatch host
          (machine_at tb code o (object r ∷ pushed vs s) k fs σ)
          (frame_at code (suc o) (object r ∷ pushed vs s) k σ.locals)
          fs
          (call_method name n)
        ≡ running (
            machine_at tb
              (body_code (keys c.fields) d.body)
              0
              []
              false
              (frame_at code (suc o) s k σ.locals ∷ fs)
              (entered locals σ))
  unfolding dispatch call_object_method methods_of enter
  method_enters r ob c d locals code o s k fs σ h₁ h₂ h₃ h₄ = rw (
    pop_args-pushed vs s n count,
    call_object_method,
    methods_of,
    h₁,
    lookup-map_dict-some compiled_class ob.class_name tb.contracts h₂,
    lookup-map_dict-some (compiled_decl (keys c.fields)) name c.methods h₃,
    enter,
    h₄,
  )

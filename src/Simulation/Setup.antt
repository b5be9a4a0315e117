-- ===== src/Simulation/Setup.antt =====
-- Runs of the machine as sequences of rounds, code at a place, and the machine of a program.
use baybayin_language.Base.{
  ℕ, suc, ◌+◌, String, ◌≡◌, ◌∙◌, subst, Bool, some, List, [], ◌∷◌, ◌++◌, length, get_elem?, arith,
  Dict, keys, map_dict, get_elem?-append_mid, lookup, lookup-map_dict, Option-cases, inl, inr,
  append_assoc, length-append, lookup-nil, if◌then◌else◌,
}
use baybayin_language.Ast.{Block}
use baybayin_language.Bytecode.{
  Value, none_value, Instr, load_const, return_value, Code, Function, Contract,
}
use baybayin_language.VmCompiler.Layout.{block_code}
use baybayin_language.Vm.{
  Frame, Machine, running, step, step_frame, dispatch, load_definition, load_global_name, load_name,
  set_field,
}
use baybayin_language.Vm.Operators.{Host}
use baybayin_language.Semantics.{
  Decl, param_names, Ending, ending_block, runs_off, Class, Tables, Store, definition_value, read,
  write_field,
}

-- Some rounds of the machine's loop.
pub data Steps (host : Host) : Machine → Machine → Type 0 where
  stop : {m : Machine} → Steps host m m
  more : {m m₁ m₂ : Machine} → step host m ≡ running m₁ → Steps host m₁ m₂ → Steps host m m₂

pub Steps-trans :
    {host : Host} {m₁ m₂ m₃ : Machine} → Steps host m₁ m₂ → Steps host m₂ m₃ → Steps host m₁ m₃
Steps-trans stop t = t
Steps-trans (more e s) t = more e (Steps-trans s t)

-- The instructions `seg` stand in `code` from index `o` on.
abbrev pub At : Code → ℕ → Code → Type 0
At code o [] = Unit {0}
At code o (i ∷ is) = (get_elem? code o ≡ some i) × At code (suc o) is

pub At-split :
    (code : Code) (o : ℕ) (xs ys : Code)
    → At code o (xs ++ ys)
    → At code o xs × At code (o + length xs) ys
At-split code o [] ys h = (tt, subst (λ k. At code k ys) (omega arith) h)
At-split code o (x ∷ xs) ys h =
    let (h₁, h₂) = At-split code (suc o) xs ys h.1 in
    ((h.0, h₁), subst (λ k. At code k ys) (omega arith) h₂)

pub At-whole : (pre xs post : Code) → At (pre ++ (xs ++ post)) (length pre) xs
At-whole pre [] post = tt
At-whole pre (x ∷ xs) post = (
  get_elem?-append_mid pre x (xs ++ post),
  subst (λ k. At (pre ++ x ∷ (xs ++ post)) k xs) (omega (arith, length-append pre (x ∷ [])))
      (subst (λ c. At c (length (pre ++ x ∷ [])) xs) (append_assoc pre (x ∷ []) (xs ++ post))
        (At-whole (pre ++ x ∷ []) xs post)),
)

-- The instructions behind a body: a return of None where the body runs off its end.
abbrev pub closing : Ending → Code
closing e = if runs_off e then load_const none_value ∷ return_value ∷ [] else []

abbrev pub body_code : List String → Block → Code
body_code fields b = block_code fields 0 b ++ closing (ending_block b)

-- The compiled functions and contracts of a program.
abbrev pub compiled_decl : List String → Decl → Function
compiled_decl fields d = record { params = param_names d; code = body_code fields d.body }

abbrev pub compiled_class : Class → Contract
compiled_class c = record {
  fields = c.fields;
  methods = map_dict (compiled_decl (keys c.fields)) c.methods;
}

-- A frame that runs `code` at index `o`.
abbrev pub frame_at : Code → ℕ → List Value → Bool → Dict Value → Frame
frame_at code o s constructing locals = record {
  instructions = code;
  ip = o;
  locals = locals;
  stack = s;
  is_constructor = constructing;
}

-- The machine of the program in state `σ`, with that frame on top of `fs`.
abbrev pub machine_at : Tables → Code → ℕ → List Value → Bool → List Frame → Store → Machine
machine_at tb code o s constructing fs σ = record {
  globals = [];
  functions = map_dict (compiled_decl []) tb.functions;
  contracts = map_dict compiled_class tb.contracts;
  frames = frame_at code o s constructing σ.locals ∷ fs;
  output_buffer = σ.output;
  heap = σ.heap;
}

-- One round executes the instruction at the frame's index.
pub step_at :
    (host : Host) (tb : Tables) (code : Code) (o : ℕ) (s : List Value) (k : Bool) (fs : List Frame)
    (σ : Store) (i : Instr)
    → get_elem? code o ≡ some i
    → step host (machine_at tb code o s k fs σ)
      ≡ dispatch host (machine_at tb code o s k fs σ) (frame_at code (suc o) s k σ.locals) fs i
unfolding step step_frame
step_at host tb code o s k fs σ i h = rw h

module _ (tb : Tables) (code : Code) (o : ℕ) (s : List Value) (k : Bool) (fs : List Frame)
    (σ : Store) where
  pub load_definition-machine :
      (x : String) → load_definition (machine_at tb code o s k fs σ) x ≡ definition_value tb x
  unfolding load_definition definition_value
  load_definition-machine x = ground (
    arith,
    lookup-map_dict (compiled_decl []) x tb.functions,
    lookup-map_dict compiled_class x tb.contracts,
  )

  pub load_name-machine :
      (x : String)
      → load_name (machine_at tb code o s k fs σ) (frame_at code (suc o) s k σ.locals) x
        ≡ read tb σ x
  unfolding load_name load_global_name read
  load_name-machine x = elim (Option-cases (lookup x σ.locals)) [
    | inl e ↦ rw (load_name, read, e, load_global_name, lookup-nil) (load_definition-machine x)
    | inr (v, e) ↦ rw (load_name, read, e)
  ]

  pub set_field-machine :
      (r : ℕ) (x : String) (v : Value)
      → set_field (machine_at tb code o s k fs σ) r x v
        ≡ machine_at tb code o s k fs (record σ { heap = write_field σ.heap r x v })
  unfolding set_field write_field
  set_field-machine r x v = elim (Option-cases (get_elem? σ.heap r)) [
    | inl e ↦ rw (set_field, write_field, e)
    | inr (ob, e) ↦ rw (set_field, write_field, e)
  ]

  -- One round, given where its instruction leads.
  pub one :
      (host : Host) (i : Instr) {m : Machine}
      → get_elem? code o ≡ some i
      → dispatch host (machine_at tb code o s k fs σ) (frame_at code (suc o) s k σ.locals) fs i
        ≡ running m
      → Steps host (machine_at tb code o s k fs σ) m
  one host i h d = more (step_at host tb code o s k fs σ i h ∙ d) stop

  -- The same end, its index written another way.
  pub Steps-move :
      {host : Host} {m : Machine} (o' : ℕ)
      → o ≡ o'
      → Steps host m (machine_at tb code o s k fs σ)
      → Steps host m (machine_at tb code o' s k fs σ)
  Steps-move {host} {m} o' e = subst (λ j. Steps host m (machine_at tb code j s k fs σ)) e

pub read-local :
    (tb : Tables) (σ : Store) (x : String) {v : Value}
    → lookup x σ.locals ≡ some v
    → read tb σ x ≡ v
unfolding read
read-local tb σ x e = rw (read, e)

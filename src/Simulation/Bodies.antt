-- ===== src/Simulation/Bodies.antt =====
-- A function's body, from its frame's first instruction to the return into the frame below.
use baybayin_language.Base.{
  ℕ, suc, ◌+◌, String, ◌≡◌, refl, Bool, true, false, some, List, [], ◌∷◌, length, get_elem?, arith,
  Dict, if◌then◌else◌,
}
use baybayin_language.Ast.{Block}
use baybayin_language.Bytecode.{Value, none_value, Code, return_value, load_const}
use baybayin_language.VmCompiler.Layout.{block_code}
use baybayin_language.Vm.{Frame, Machine, dispatch, return_to}
use baybayin_language.Vm.Operators.{Host}
use baybayin_language.Semantics.{ending_block, runs_off, Tables, Store, normal, returned}
use baybayin_language.Simulation.Setup.{
  Steps, stop, Steps-move, Steps-trans, frame_at, machine_at, one, body_code,
}
use baybayin_language.Simulation.Calls.{body-At, end-At}
use baybayin_language.Simulation.Statements.{Reaches, arrives, returns, ExecSim}
use baybayin_language.Simulation.Invoke.{BodySim}

-- A return instruction in a frame that stands on another one.
return_step :
    (host : Host) (tb : Tables) (v : Value) (inner : Code) (o' : ℕ) (s' : List Value) (k : Bool)
    (code : Code) (o : ℕ) (s : List Value) (below : Bool) (fs : List Frame) (locals : Dict Value)
    (σ : Store)
    → get_elem? inner o' ≡ some return_value
    → Steps host
        (machine_at tb inner o' (v ∷ s') k (frame_at code o s below locals ∷ fs) σ)
        (machine_at tb code o (if k then s else v ∷ s) below fs (record σ { locals = locals }))
unfolding dispatch return_to
return_step host tb v inner o' s' true code o s below fs locals σ h =
    one tb inner o' (v ∷ s') true (frame_at code o s below locals ∷ fs) σ host return_value h refl
return_step host tb v inner o' s' false code o s below fs locals σ h =
    one tb inner o' (v ∷ s') false (frame_at code o s below locals ∷ fs) σ host return_value h refl

module _ (host : Host) (tb : Tables) (fields : List String) (b : Block) where
  abbrev inner : Code
  inner = body_code fields b

  -- The implicit return.
  end-Steps :
      (s' : List Value) (k : Bool) (code : Code) (o : ℕ) (s : List Value) (below : Bool)
      (fs : List Frame) (locals : Dict Value) (σ : Store)
      → runs_off (ending_block b) ≡ true
      → Steps host
          (machine_at tb inner
            (0 + length (block_code fields 0 b))
            s'
            k
            (frame_at code o s below locals ∷ fs)
            σ)
          (machine_at tb code o
            (if k then s else none_value ∷ s)
            below
            fs
            (record σ { locals = locals }))
  unfolding dispatch
  end-Steps s' k code o s below fs locals σ e =
      let last = length (block_code fields 0 b) in
      let up = frame_at code o s below locals ∷ fs in
      let closing = end-At fields b e in
      Steps-trans (Steps-move tb inner (0 + last) s' k up σ last (omega arith) stop) (
        Steps-trans (one tb inner last s' k up σ host (load_const none_value) closing.0 refl) (
          return_step host tb none_value inner (suc last) s' k code o s below fs locals σ
            closing.1.0))

  pub sim-body_return :
      {v : Value} {σ σ' : Store}
      → ExecSim host tb (λ o. block_code fields o b) σ (returned v) σ'
      → BodySim host tb fields b σ v σ'
  sim-body_return {v} {σ' = σ'} g = record {
    runs = λ code o s below fs locals k.
        finish code o s below fs locals k
          (g.runs inner 0 [] k (frame_at code o s below locals ∷ fs) (body-At fields b));
  }
    where
      finish :
          (code : Code) (o : ℕ) (s : List Value) (below : Bool) (fs : List Frame)
          (locals : Dict Value) (k : Bool) {m : Machine} {last : ℕ}
          → Reaches host tb inner last k (frame_at code o s below locals ∷ fs) m σ' (returned v)
          → Steps host m (
              machine_at tb code o
                (if k then s else v ∷ s)
                below
                fs
                (record σ' { locals = locals }))
      finish code o s below fs locals k (returns o' s' h t) =
          Steps-trans t (return_step host tb v inner o' s' k code o s below fs locals σ' h)

  pub sim-body_end :
      {σ σ' : Store}
      → runs_off (ending_block b) ≡ true
      → ExecSim host tb (λ o. block_code fields o b) σ normal σ'
      → BodySim host tb fields b σ none_value σ'
  sim-body_end {σ' = σ'} e g = record {
    runs = λ code o s below fs locals k.
        finish code o s below fs locals k
          (g.runs inner 0 [] k (frame_at code o s below locals ∷ fs) (body-At fields b));
  }
    where
      finish :
          (code : Code) (o : ℕ) (s : List Value) (below : Bool) (fs : List Frame)
          (locals : Dict Value) (k : Bool) {m : Machine}
          → Reaches host tb inner
              (0 + length (block_code fields 0 b))
              k
              (frame_at code o s below locals ∷ fs)
              m
              σ'
              normal
          → Steps host m (
              machine_at tb code o
                (if k then s else none_value ∷ s)
                below
                fs
                (record σ' { locals = locals }))
      finish code o s below fs locals k (arrives s' t) =
          Steps-trans t (end-Steps s' k code o s below fs locals σ' e)

-- ===== src/Simulation/Statements.antt =====
-- The code of statements and blocks, given that of their parts.
use baybayin_language.Base.{
  ℕ, suc, ◌+◌, ◌≡◌, refl, Bool, true, false, some, List, [], ◌∷◌, ◌++◌, length, get_elem?, arith,
  length-append,
}
use baybayin_language.Bytecode.{Value, Code, return_value, jump_if_false, jump}
use baybayin_language.Vm.{Frame, Machine, dispatch}
use baybayin_language.Vm.Operators.{Host, truthy}
use baybayin_language.Semantics.{Tables, Store, Signal, normal, returned}
use baybayin_language.Simulation.Setup.{
  Steps, stop, Steps-trans, Steps-move, At, At-split, machine_at, one,
}
use baybayin_language.Simulation.Does.{Does, same}

-- The machine runs from `m` to the index `o` in state `σ'`, or to a return instruction with the
-- returned value on top of the stack. Statements may leave values below: the stack is any.
pub data Reaches (host : Host) (tb : Tables) (code : Code) (o : ℕ) (k : Bool) (fs : List Frame)
    (m : Machine) (σ' : Store) : Signal → Type 0 where
  arrives :
      (s' : List Value)
      → Steps host m (machine_at tb code o s' k fs σ')
      → Reaches host tb code o k fs m σ' normal
  returns :
      {v : Value} (o' : ℕ) (s' : List Value)
      → get_elem? code o' ≡ some return_value
      → Steps host m (machine_at tb code o' (v ∷ s') k fs σ')
      → Reaches host tb code o k fs m σ' (returned v)

module _ {host : Host} {tb : Tables} {code : Code} {o : ℕ} {k : Bool} {fs : List Frame}
    {σ' : Store} where
  pub Reaches-after :
      {m m' : Machine} {sg : Signal}
      → Steps host m m'
      → Reaches host tb code o k fs m' σ' sg
      → Reaches host tb code o k fs m σ' sg
  Reaches-after st (arrives s' t) = arrives s' (Steps-trans st t)
  Reaches-after st (returns o' s' h t) = returns o' s' h (Steps-trans st t)

  -- What follows the place that is arrived at.
  pub Reaches-on :
      {m : Machine} {sg : Signal} (o₂ : ℕ)
      → ((s : List Value)
          → Steps host (machine_at tb code o s k fs σ') (machine_at tb code o₂ s k fs σ'))
      → Reaches host tb code o k fs m σ' sg
      → Reaches host tb code o₂ k fs m σ' sg
  Reaches-on o₂ f (arrives s' t) = arrives s' (Steps-trans t (f s'))
  Reaches-on o₂ f (returns o' s' h t) = returns o' s' h t

  pub Reaches-move :
      {m : Machine} {sg : Signal} (o₂ : ℕ)
      → o ≡ o₂
      → Reaches host tb code o k fs m σ' sg
      → Reaches host tb code o₂ k fs m σ' sg
  Reaches-move o₂ e = Reaches-on o₂ (λ s. Steps-move tb code o s k fs σ' o₂ e stop)

-- A piece of code that stands at index `o`, its layout depending on the place.
pub record ExecSim (host : Host) (tb : Tables) (layout : ℕ → Code) (σ : Store) (sg : Signal)
    (σ' : Store) : Type 0 where
  pub runs :
      (code : Code) (o : ℕ) (s : List Value) (k : Bool) (fs : List Frame)
      → At code o (layout o)
      → Reaches host tb code (o + length (layout o)) k fs (machine_at tb code o s k fs σ) σ' sg

module _ (host : Host) (tb : Tables) where
  -- Straight code is a statement that ends normally.
  pub sim-straight :
      {seg : Code} {σ σ' : Store} (q : List Value → List Value)
      → Does host tb seg σ σ' same q
      → ExecSim host tb (λ o. seg) σ normal σ'
  sim-straight q f = record { runs = λ code o s k fs h. arrives (q s) (f.runs code o s k fs h) }

  pub sim-return :
      {seg : Code} {σ σ' : Store} {v : Value}
      → Does host tb seg σ σ' same (λ s. v ∷ s)
      → ExecSim host tb (λ o. seg ++ return_value ∷ []) σ (returned v) σ'
  sim-return {seg} f = record {
    runs = λ code o s k fs h.
        let (h₁, h₂) = At-split code o seg (return_value ∷ []) h in
        returns (o + length seg) s h₂.0 (f.runs code o s k fs h₁);
  }

  pub sim-seq :
      (first : ℕ → Code) (rest : ℕ → Code) {σ σ₁ σ₂ : Store} {sg : Signal}
      → ExecSim host tb first σ normal σ₁
      → ExecSim host tb rest σ₁ sg σ₂
      → ExecSim host tb (λ o. first o ++ rest (o + length (first o))) σ sg σ₂
  sim-seq first rest {σ} {σ₁} {σ₂} {sg} f g = record {
    runs = λ code o s k fs h.
        let (h₁, h₂) = At-split code o (first o) (rest (o + length (first o))) h in
        then_run code o k fs h₂ (f.runs code o s k fs h₁);
  }
    where
      then_run :
          (code : Code) (o : ℕ) (k : Bool) (fs : List Frame)
          → At code (o + length (first o)) (rest (o + length (first o)))
          → {m : Machine} → Reaches host tb code (o + length (first o)) k fs m σ₁ normal
          → Reaches host tb code (o + length (first o ++ rest (o + length (first o)))) k fs m σ₂ sg
      then_run code o k fs h (arrives s' t) = Reaches-after t (
          Reaches-move _ (omega (arith, length-append (first o) (rest (o + length (first o)))))
            (g.runs code (o + length (first o)) s' k fs h))

  pub sim-seq_return :
      (first : ℕ → Code) (rest : ℕ → Code) {σ σ₁ : Store} {v : Value}
      → ExecSim host tb first σ (returned v) σ₁
      → ExecSim host tb (λ o. first o ++ rest (o + length (first o))) σ (returned v) σ₁
  sim-seq_return first rest {σ} {σ₁} {v} f = record {
    runs = λ code o s k fs h.
        let (h₁, h₂) = At-split code o (first o) (rest (o + length (first o))) h in
        leave (f.runs code o s k fs h₁);
  }
    where
      leave :
          {code : Code} {o o₂ : ℕ} {k : Bool} {fs : List Frame} {m : Machine}
          → Reaches host tb code o k fs m σ₁ (returned v)
          → Reaches host tb code o₂ k fs m σ₁ (returned v)
      leave (returns o' s' h t) = returns o' s' h t

  -- The tests: what the conditional jump does with the value on the stack.
  pub jump_taken :
      (target : ℕ) (v : Value) (code : Code) (o : ℕ) (s : List Value) (k : Bool) (fs : List Frame)
      (σ : Store)
      → truthy host v ≡ false
      → get_elem? code o ≡ some (jump_if_false target)
      → Steps host (machine_at tb code o (v ∷ s) k fs σ) (machine_at tb code target s k fs σ)
  unfolding dispatch
  jump_taken target v code o s k fs σ e h = one tb code o (v ∷ s) k fs σ host _ h (rw e)

  pub jump_passed :
      (target : ℕ) (v : Value) (code : Code) (o : ℕ) (s : List Value) (k : Bool) (fs : List Frame)
      (σ : Store)
      → truthy host v ≡ true
      → get_elem? code o ≡ some (jump_if_false target)
      → Steps host (machine_at tb code o (v ∷ s) k fs σ) (machine_at tb code (suc o) s k fs σ)
  unfolding dispatch
  jump_passed target v code o s k fs σ e h = one tb code o (v ∷ s) k fs σ host _ h (rw e)

  pub jumps :
      (target : ℕ) (code : Code) (o : ℕ) (s : List Value) (k : Bool) (fs : List Frame) (σ : Store)
      → get_elem? code o ≡ some (jump target)
      → Steps host (machine_at tb code o s k fs σ) (machine_at tb code target s k fs σ)
  unfolding dispatch
  jumps target code o s k fs σ h = one tb code o s k fs σ host _ h refl

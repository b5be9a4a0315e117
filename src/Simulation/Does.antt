-- ===== src/Simulation/Does.antt =====
-- Pieces of straight code, and how they compose.
use baybayin_language.Base.{
  ℕ, suc, ◌+◌, ◌≡◌, Bool, List, [], ◌∷◌, ◌++◌, length, length-append, arith,
}
use baybayin_language.Bytecode.{Value, Instr, Code}
use baybayin_language.Vm.{Frame, running, dispatch}
use baybayin_language.Vm.Operators.{Host}
use baybayin_language.Semantics.{Tables, Store}
use baybayin_language.Simulation.Setup.{
  Steps, stop, Steps-trans, Steps-move, At, At-split, frame_at, machine_at, one,
}

-- Wherever `seg` stands, running it takes the state `σ` to `σ'` and the stack `p s` to `q s`.
pub record Does (host : Host) (tb : Tables) (seg : Code) (σ σ' : Store)
    (p q : List Value → List Value) : Type 0 where
  pub runs :
      (code : Code) (o : ℕ) (s : List Value) (k : Bool) (fs : List Frame)
      → At code o seg
      → Steps host
          (machine_at tb code o (p s) k fs σ)
          (machine_at tb code (o + length seg) (q s) k fs σ')

abbrev pub same : List Value → List Value
same s = s

module _ {host : Host} {tb : Tables} where
  pub Does-nothing : {σ : Store} (p : List Value → List Value) → Does host tb [] σ σ p p
  Does-nothing {σ} p = record {
    runs = λ code o s k fs h. Steps-move tb code o (p s) k fs σ (o + 0) (omega arith) stop;
  }

  pub Does-seq :
      {a b : Code} {σ₁ σ₂ σ₃ : Store} {p q r : List Value → List Value}
      → Does host tb a σ₁ σ₂ p q
      → Does host tb b σ₂ σ₃ q r
      → Does host tb (a ++ b) σ₁ σ₃ p r
  Does-seq {a} {b} {σ₁} {σ₂} {σ₃} {p} {q} {r} f g = record {
    runs = λ code o s k fs h.
        let (h₁, h₂) = At-split code o a b h in
        Steps-trans (f.runs code o s k fs h₁) (
          Steps-move tb code (o + length a + length b) (r s) k fs σ₃ (o + length (a ++ b))
            (omega (arith, length-append a b)) (g.runs code (o + length a) s k fs h₂));
  }

  -- The same piece, on top of more.
  pub Does-on :
      {a : Code} {σ σ' : Store} {p q : List Value → List Value} (t : List Value → List Value)
      → Does host tb a σ σ' p q
      → Does host tb a σ σ' (λ s. p (t s)) (λ s. q (t s))
  Does-on t f = record { runs = λ code o s k fs h. f.runs code o (t s) k fs h }

  pub Does-one :
      {i : Instr} {σ σ' : Store} {p q : List Value → List Value}
      → ((code : Code) (o : ℕ) (s : List Value) (k : Bool) (fs : List Frame)
          → dispatch host
              (machine_at tb code o (p s) k fs σ)
              (frame_at code (suc o) (p s) k σ.locals)
              fs
              i
            ≡ running (machine_at tb code (suc o) (q s) k fs σ'))
      → Does host tb (i ∷ []) σ σ' p q
  Does-one {i} {σ} {σ'} {p} {q} d = record {
    runs = λ code o s k fs h.
        Steps-move tb code (suc o) (q s) k fs σ' (o + 1) (omega arith)
          (one tb code o (p s) k fs σ host i h.0 (d code o s k fs));
  }

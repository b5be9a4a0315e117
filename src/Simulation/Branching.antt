-- ===== src/Simulation/Branching.antt =====
-- The code of conditionals and loops, given that of their parts.
use baybayin_language.Base.{
  ℕ, suc, ◌+◌, String, ◌≡◌, refl, Bool, true, false, some, List, ◌∷◌, ◌++◌, length, get_elem?,
  arith, length-append, subst,
}
use baybayin_language.Ast.{Expr, Block, Else, no_else, else_block, else_if}
use baybayin_language.Bytecode.{Value, Code, jump_if_false, jump}
use baybayin_language.VmCompiler.Layout.{expr_code, block_code, else_code, if_code, if_else_code}
use baybayin_language.Vm.{Frame}
use baybayin_language.Vm.Operators.{Host, truthy}
use baybayin_language.Semantics.{Tables, Store, Signal, normal}
use baybayin_language.Simulation.Setup.{
  Steps, stop, Steps-trans, Steps-move, At, At-split, machine_at,
}
use baybayin_language.Simulation.Does.{Does, same}
use baybayin_language.Simulation.Statements.{
  Reaches, arrives, Reaches-after, Reaches-on, Reaches-move, ExecSim, jump_taken, jump_passed,
  jumps,
}

-- A conditional's code laid out at `o`: the test, the jump past the branch, the branch, and whatever
-- takes the branch's end to the conditional's.
record Parts (host : Host) (tb : Tables) (code : Code) (o : ℕ) (tested : Code) (start : ℕ)
    (taken : Code) (target finish : ℕ) : Type 0 where
  test : At code o tested
  leap : get_elem? code (o + length tested) ≡ some (jump_if_false target)
  branch : At code start taken
  leave :
      (s : List Value) (k : Bool) (fs : List Frame) (σ : Store)
      → Steps host
          (machine_at tb code (start + length taken) s k fs σ)
          (machine_at tb code finish s k fs σ)

module _ (host : Host) (tb : Tables) (code : Code) (o : ℕ) (tested : Code) (start : ℕ)
    (taken : Code) (place : start ≡ o + length tested + 1) where
  at_start : (seg : Code) → At code (suc (o + length tested)) seg → At code start seg
  at_start seg = subst (λ j. At code j seg) (omega arith)

  if-Parts :
      At code o (if_code tested start taken)
      → Parts host tb code o tested start taken
          (start + length taken)
          (o + length (if_code tested start taken))
  if-Parts h =
      let (h₁, h₂) = At-split code o tested (jump_if_false (start + length taken) ∷ taken) h in
      record {
        test = h₁;
        leap = h₂.0;
        branch = at_start taken h₂.1;
        leave = λ s k fs σ.
            Steps-move tb code (start + length taken) s k fs σ _
              (omega (arith, length-append tested (jump_if_false (start + length taken) ∷ taken)))
              stop;
      }

  module _ (other : Code) where
    abbrev finish : ℕ
    finish = start + length taken + 1 + length other

    length-if_else : o + length (if_else_code tested start taken other) ≡ finish
    length-if_else = omega (
      arith,
      length-append tested
          (jump_if_false (start + length taken + 1) ∷ (taken ++ jump finish ∷ other)),
      length-append taken (jump finish ∷ other),
    )

    if_else_split :
        At code o (if_else_code tested start taken other)
        → Parts host tb code o tested start taken
            (start + length taken + 1)
            (o + length (if_else_code tested start taken other))
          × At code (start + length taken + 1) other
    if_else_split h =
        let (h₁, h₂) =
          At-split code o tested
            (jump_if_false (start + length taken + 1) ∷ (taken ++ jump finish ∷ other)) h in
        let (h₃, h₄) =
          At-split code start taken (jump finish ∷ other)
            (at_start (taken ++ jump finish ∷ other) h₂.1) in
        (
          record {
            test = h₁;
            leap = h₂.0;
            branch = h₃;
            leave = λ s k fs σ.
                Steps-move tb code finish s k fs σ _ (omega (arith, length-if_else))
                  (jumps host tb finish code (start + length taken) s k fs σ h₄.0);
          },
          subst (λ j. At code j other) (omega arith) h₄.1,
        )

-- Where the code for a failed test starts.
abbrev target : Else → ℕ → Code → ℕ
target no_else start taken = start + length taken
target _ start taken = start + length taken + 1

Parts-of :
    (host : Host) (tb : Tables) (fields : List String) (e : Else) (code : Code) (o : ℕ)
    (tested : Code) (start : ℕ) (taken : Code)
    → start ≡ o + length tested + 1
    → At code o (else_code fields tested start taken e)
    → Parts host tb code o tested start taken
        (target e start taken)
        (o + length (else_code fields tested start taken e))
unfolding else_code
Parts-of host tb fields no_else code o tested start taken place h =
    if-Parts host tb code o tested start taken place h
Parts-of host tb fields (else_block b) code o tested start taken place h =
    (if_else_split host tb code o tested start taken place
      (block_code fields (start + length taken + 1) b) h).0
Parts-of host tb fields (else_if c t e) code o tested start taken place h =
    (if_else_split host tb code o tested start taken place _ h).0

-- From the place that a failed test leads to, to the end of the conditional.
pub record ElseSim (host : Host) (tb : Tables) (fields : List String) (e : Else) (σ : Store)
    (sg : Signal) (σ' : Store) : Type 0 where
  pub runs :
      (code : Code) (o : ℕ) (tested : Code) (start : ℕ) (taken : Code) (s : List Value) (k : Bool)
      (fs : List Frame)
      → start ≡ o + length tested + 1
      → At code o (else_code fields tested start taken e)
      → Reaches host tb code
          (o + length (else_code fields tested start taken e))
          k
          fs
          (machine_at tb code (target e start taken) s k fs σ)
          σ'
          sg

-- The layout of a whole conditional.
abbrev pub conditional : List String → Expr → Block → Else → ℕ → Code
conditional fields c t e o =
    let tested = expr_code fields c in
    let start = o + length tested + 1 in else_code fields tested start (block_code fields start t) e

module _ (host : Host) (tb : Tables) (fields : List String) where
  pub sim-if_true :
      (c : Expr) (t : Block) (e : Else) (v : Value) {σ σ₁ σ₂ : Store} {sg : Signal}
      → Does host tb (expr_code fields c) σ σ₁ same (λ s. v ∷ s)
      → truthy host v ≡ true
      → ExecSim host tb (λ o. block_code fields o t) σ₁ sg σ₂
      → ExecSim host tb (conditional fields c t e) σ sg σ₂
  sim-if_true c t e v {σ} {σ₁} {σ₂} {sg} f b g = record {
    runs = λ code o s k fs h.
        let tested = expr_code fields c in
        let start = o + length tested + 1 in
        let p = Parts-of host tb fields e code o tested start (block_code fields start t) refl h in
        Reaches-after
          (Steps-trans (f.runs code o s k fs p.test) (
            Steps-trans (jump_passed host tb _ v code (o + length tested) s k fs σ₁ b p.leap)
              (Steps-move tb code (suc (o + length tested)) s k fs σ₁ start (omega arith) stop)))
          (Reaches-on _ (λ s'. p.leave s' k fs σ₂) (g.runs code start s k fs p.branch));
  }

  pub sim-if_false :
      (c : Expr) (t : Block) (e : Else) (v : Value) {σ σ₁ σ₂ : Store} {sg : Signal}
      → Does host tb (expr_code fields c) σ σ₁ same (λ s. v ∷ s)
      → truthy host v ≡ false
      → ElseSim host tb fields e σ₁ sg σ₂
      → ExecSim host tb (conditional fields c t e) σ sg σ₂
  sim-if_false c t e v {σ} {σ₁} {σ₂} {sg} f b g = record {
    runs = λ code o s k fs h.
        let tested = expr_code fields c in
        let start = o + length tested + 1 in
        let taken = block_code fields start t in
        let p = Parts-of host tb fields e code o tested start taken refl h in
        Reaches-after
          (Steps-trans (f.runs code o s k fs p.test) (
            jump_taken host tb (target e start taken) v code (o + length tested) s k fs σ₁ b
              p.leap))
          (g.runs code o tested start taken s k fs refl h);
  }

  pub sim-no_else : (σ : Store) → ElseSim host tb fields no_else σ normal σ
  unfolding else_code
  sim-no_else σ = record {
    runs = λ code o tested start taken s k fs place h. arrives s (
        Steps-move tb code (start + length taken) s k fs σ _
          (omega (arith, length-append tested (jump_if_false (start + length taken) ∷ taken)))
          stop);
  }

  -- An `else` whose layout is `other`.
  else_runs :
      (other : ℕ → Code) {σ σ' : Store} {sg : Signal}
      → ExecSim host tb other σ sg σ'
      → (code : Code) (o : ℕ) (tested : Code) (start : ℕ) (taken : Code) (s : List Value) (k : Bool)
        (fs : List Frame)
      → start ≡ o + length tested + 1
      → At code o (if_else_code tested start taken (other (start + length taken + 1)))
      → Reaches host tb code
          (o + length (if_else_code tested start taken (other (start + length taken + 1))))
          k
          fs
          (machine_at tb code (start + length taken + 1) s k fs σ)
          σ'
          sg
  else_runs other g code o tested start taken s k fs place h =
      let rest = other (start + length taken + 1) in
      Reaches-move _ (omega (arith, length-if_else host tb code o tested start taken place rest)) (
        g.runs code (start + length taken + 1) s k fs
          (if_else_split host tb code o tested start taken place rest h).1)

  pub sim-else_block :
      (b : Block) {σ σ' : Store} {sg : Signal}
      → ExecSim host tb (λ o. block_code fields o b) σ sg σ'
      → ElseSim host tb fields (else_block b) σ sg σ'
  unfolding else_code
  sim-else_block b g = record { runs = else_runs (λ o. block_code fields o b) g }

  pub sim-else_if :
      (c : Expr) (t : Block) (e : Else) {σ σ' : Store} {sg : Signal}
      → ExecSim host tb (conditional fields c t e) σ sg σ'
      → ElseSim host tb fields (else_if c t e) σ sg σ'
  unfolding else_code
  sim-else_if c t e g = record { runs = else_runs (conditional fields c t e) g }

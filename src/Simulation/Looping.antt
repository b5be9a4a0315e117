-- ===== src/Simulation/Looping.antt =====
-- The code of loops, given that of the test and the body.
use baybayin_language.Base.{
  ℕ, suc, ◌+◌, String, ◌≡◌, Bool, true, false, some, List, [], ◌∷◌, ◌++◌, length, get_elem?, arith,
  length-append, subst,
}
use baybayin_language.Ast.{Expr, Block}
use baybayin_language.Bytecode.{Value, Code, jump_if_false, jump}
use baybayin_language.VmCompiler.Layout.{expr_code, block_code, while_code}
use baybayin_language.Vm.{Frame, Machine}
use baybayin_language.Vm.Operators.{Host, truthy}
use baybayin_language.Semantics.{Tables, Store, Signal, normal, returned}
use baybayin_language.Simulation.Setup.{
  Steps, stop, Steps-trans, Steps-move, At, At-split, machine_at,
}
use baybayin_language.Simulation.Does.{Does, same}
use baybayin_language.Simulation.Statements.{
  Reaches, arrives, returns, Reaches-after, ExecSim, jump_taken, jump_passed, jumps,
}

abbrev pub loop : List String → Expr → Block → ℕ → Code
loop fields c b o =
    let tested = expr_code fields c in
    while_code o tested (block_code fields (o + length tested + 1) b)

-- A loop's code laid out at `o`.
record Round (fields : List String) (c : Expr) (b : Block) (code : Code) (o : ℕ) : Type 0 where
  test : At code o (expr_code fields c)
  leap :
      get_elem? code (o + length (expr_code fields c))
      ≡ some (jump_if_false (o + length (loop fields c b o)))
  body :
      At code
        (o + length (expr_code fields c) + 1)
        (block_code fields (o + length (expr_code fields c) + 1) b)
  back :
      get_elem? code (
        o
        + length (expr_code fields c)
        + 1
        + length (block_code fields (o + length (expr_code fields c) + 1) b))
      ≡ some (jump o)

Round-of :
    (fields : List String) (c : Expr) (b : Block) (code : Code) (o : ℕ)
    → At code o (loop fields c b o)
    → Round fields c b code o
Round-of fields c b code o h =
    let tested = expr_code fields c in
    let start = o + length tested + 1 in
    let body = block_code fields start b in
    let leaped = jump_if_false (o + length tested + length body + 2) in
    let (h₁, h₂) = At-split code o tested (leaped ∷ (body ++ jump o ∷ [])) h in
    let (h₃, h₄) =
      At-split code start body (jump o ∷ [])
        (subst (λ j. At code j (body ++ jump o ∷ [])) (omega arith) h₂.1) in
    record {
      test = h₁;
      leap =
          subst (λ j. get_elem? code (o + length tested) ≡ some (jump_if_false j))
            (omega (
              arith,
              length-append tested (leaped ∷ (body ++ jump o ∷ [])),
              length-append body (jump o ∷ []),
            ))
            h₂.0;
      body = h₃;
      back = h₄.0;
    }

module _ (host : Host) (tb : Tables) (fields : List String) (c : Expr) (b : Block) (v : Value)
    {σ σ₁ : Store} (f : Does host tb (expr_code fields c) σ σ₁ same (λ s. v ∷ s)) where
  abbrev body_layout : ℕ → Code
  body_layout o = block_code fields o b

  into_body :
      (code : Code) (o : ℕ) (s : List Value) (k : Bool) (fs : List Frame)
      → truthy host v ≡ true
      → Round fields c b code o
      → Steps host
          (machine_at tb code o s k fs σ)
          (machine_at tb code (o + length (expr_code fields c) + 1) s k fs σ₁)
  into_body code o s k fs e p =
      let here = o + length (expr_code fields c) in
      Steps-trans (f.runs code o s k fs p.test) (
        Steps-trans (jump_passed host tb _ v code here s k fs σ₁ e p.leap)
          (Steps-move tb code (suc here) s k fs σ₁ _ (omega arith) stop))

  pub sim-while_done : truthy host v ≡ false → ExecSim host tb (loop fields c b) σ normal σ₁
  sim-while_done e = record {
    runs = λ code o s k fs h.
        let p = Round-of fields c b code o h in
        arrives s (
          Steps-trans (f.runs code o s k fs p.test)
            (jump_taken host tb _ v code (o + length (expr_code fields c)) s k fs σ₁ e p.leap));
  }

  pub sim-while_return :
      {σ₂ : Store} {w : Value}
      → truthy host v ≡ true
      → ExecSim host tb body_layout σ₁ (returned w) σ₂
      → ExecSim host tb (loop fields c b) σ (returned w) σ₂
  sim-while_return {σ₂} {w} e g = record {
    runs = λ code o s k fs h.
        let p = Round-of fields c b code o h in
        Reaches-after (into_body code o s k fs e p)
          (leave (g.runs code (o + length (expr_code fields c) + 1) s k fs p.body));
  }
    where
      leave :
          {code : Code} {o o₂ : ℕ} {k : Bool} {fs : List Frame} {m : Machine}
          → Reaches host tb code o k fs m σ₂ (returned w)
          → Reaches host tb code o₂ k fs m σ₂ (returned w)
      leave (returns o' s' h t) = returns o' s' h t

  pub sim-while_again :
      {σ₂ σ₃ : Store} {sg : Signal}
      → truthy host v ≡ true
      → ExecSim host tb body_layout σ₁ normal σ₂
      → ExecSim host tb (loop fields c b) σ₂ sg σ₃
      → ExecSim host tb (loop fields c b) σ sg σ₃
  sim-while_again {σ₂} {σ₃} {sg} e g again = record {
    runs = λ code o s k fs h.
        let p = Round-of fields c b code o h in
        Reaches-after (into_body code o s k fs e p) (
          around code o k fs h p.back
            (g.runs code (o + length (expr_code fields c) + 1) s k fs p.body));
  }
    where
      around :
          (code : Code) (o : ℕ) (k : Bool) (fs : List Frame)
          → At code o (loop fields c b o)
          → {m : Machine} {end_of_body : ℕ} → get_elem? code end_of_body ≡ some (jump o)
          → Reaches host tb code end_of_body k fs m σ₂ normal
          → Reaches host tb code (o + length (loop fields c b o)) k fs m σ₃ sg
      around code o k fs h {end_of_body = j} back (arrives s' t) =
          Reaches-after (Steps-trans t (jumps host tb o code j s' k fs σ₂ back))
            (again.runs code o s' k fs h)

-- ===== src/Simulation/Execution.antt =====
-- What `execute` returns for a compiled program.
use baybayin_language.Base.{
  ℕ, zero, suc, ◌≤◌, ◌≡◌, refl, false, some, [], ◌∷◌, ◌++◌, length, get_elem?, get_elem?-append_mid,
  arith,
}
use baybayin_language.Ast.{Program}
use baybayin_language.Bytecode.{Value, none_value, Code, Instr, halt, return_value}
use baybayin_language.VmCompiler.{compile}
use baybayin_language.VmCompiler.Layout.{block_code}
use baybayin_language.Vm.{Machine, running, finished, step, run, execute, load, dispatch, return_to}
use baybayin_language.Vm.Operators.{Host}
use baybayin_language.Semantics.{Tables, Store, Signal, normal, returned, Run}
use baybayin_language.Simulation.Setup.{Steps, stop, more, At-whole, machine_at, step_at}
use baybayin_language.Simulation.Statements.{Reaches, arrives, returns, Reaches-move}
use baybayin_language.Simulation.Correct.{Run-sim}
use baybayin_language.Simulation.Programs.{tables_of, compiled, compile_lem, initial}

-- Every fuel from some amount up gives this end.
abbrev Ends : Host → Machine → Value → Machine → Type 0
Ends host m v vm = (n : ℕ) × ((f : ℕ) → n ≤ f → run host f m ≡ finished v vm)

run-finished :
    (host : Host) (m : Machine) (v : Value) (vm : Machine) (f : ℕ)
    → step host m ≡ finished v vm
    → 1 ≤ f
    → run host f m ≡ finished v vm
unfolding run
run-finished host m v vm zero e h = absurd (omega arith)
run-finished host m v vm (suc f) e h = rw (run, e)

run-running :
    (host : Host) (m m₁ : Machine) (v : Value) (vm : Machine) (n f : ℕ)
    → step host m ≡ running m₁
    → ((g : ℕ) → n ≤ g → run host g m₁ ≡ finished v vm)
    → suc n ≤ f
    → run host f m ≡ finished v vm
unfolding run
run-running host m m₁ v vm n zero e ih h = absurd (omega arith)
run-running host m m₁ v vm n (suc f) e ih h = rw (run, e) (ih f (omega arith))

run_Steps :
    {host : Host} {m m' : Machine} {v : Value} {vm : Machine}
    → Steps host m m'
    → step host m' ≡ finished v vm
    → Ends host m v vm
run_Steps {host} {m} {v = v} {vm = vm} stop e = (1, λ f. run-finished host m v vm f e)
run_Steps {host} {m} {v = v} {vm = vm} (more {m₁ = m₁} d ds) e =
    let (n, ih) = run_Steps ds e in (suc n, λ f. run-running host m m₁ v vm n f d ih)

-- The value that `execute` returns: HALT leaves `last_val` at None.
abbrev pub last_val : Signal → Value
last_val normal = none_value
last_val (returned v) = v

-- How a run of the loop relates to the state in which the program ends.
pub record Ending (host : Host) (m : Machine) (sg : Signal) (σ' : Store) : Type 0 where
  pub rounds : ℕ
  pub final : Machine
  pub ends : (f : ℕ) → rounds ≤ f → run host f m ≡ finished (last_val sg) final
  pub printed : final.output_buffer ≡ σ'.output
  pub objects : final.heap ≡ σ'.heap

ending :
    {host : Host} {tb : Tables} {code : Code} {o : ℕ} {m : Machine} {sg : Signal} {σ' : Store}
    → get_elem? code o ≡ some halt
    → Reaches host tb code o false [] m σ' sg
    → Ending host m sg σ'
unfolding dispatch return_to
ending {host} {tb} {code} {o} {σ' = σ'} h (arrives s' t) =
    let e = step_at host tb code o s' false [] σ' halt h in
    let (n, r) = run_Steps t e in
    record {
      rounds = n;
      final = machine_at tb code (suc o) s' false [] σ';
      ends = r;
      printed = refl;
      objects = refl;
    }
ending {host} {tb} {code} {σ' = σ'} h (returns {v} o' s' h' t) =
    let e = step_at host tb code o' (v ∷ s') false [] σ' return_value h' in
    let (n, r) = run_Steps t e in
    record {
      rounds = n;
      final = record (machine_at tb code o' (v ∷ s') false [] σ') { frames = [] };
      ends = r;
      printed = refl;
      objects = refl;
    }

execute-run_code :
    (host : Host) (f : ℕ) (xs : Code) (i : Instr) (tb : Tables)
    → execute host f (compiled (xs ++ i ∷ []) tb) ≡ run host f (load (compiled (xs ++ i ∷ []) tb))
unfolding execute
execute-run_code host f [] i tb = refl
execute-run_code host f (x ∷ xs) i tb = refl

program-Ending :
    (host : Host) (p : Program) (sg : Signal) (σ' : Store)
    → Run host (tables_of p) [] p initial sg σ'
    → Ending host (load (compiled (block_code [] 0 p ++ halt ∷ []) (tables_of p))) sg σ'
program-Ending host p sg σ' d =
    let code = block_code [] 0 p in
    ending (get_elem?-append_mid code halt []) (
      Reaches-move (length code) (omega arith) (
        (Run-sim host (tables_of p) d).runs (code ++ halt ∷ []) 0 [] false []
          (At-whole [] code (halt ∷ []))))

-- If the big-step semantics runs a program to its end, then, from some amount of fuel up, the
-- machine executes the compiled program to its end too: it returns the value that a top-level
-- `ibalik` gave, or None, and has printed the same lines and built the same objects.
pub execute-compile :
    (host : Host) (p : Program) (sg : Signal) (σ' : Store)
    → Run host (tables_of p) [] p initial sg σ'
    → (n : ℕ) × (vm : Machine) × ((f : ℕ)
        → n ≤ f
        → execute host f (compile p) ≡ finished (last_val sg) vm)
      × (vm.output_buffer ≡ σ'.output)
      × (vm.heap ≡ σ'.heap)
execute-compile host p sg σ' d =
    let r = program-Ending host p sg σ' d in
    (
      r.rounds,
      r.final,
      λ f h.
          rw (compile_lem, execute-run_code host f (block_code [] 0 p) halt (tables_of p))
            (r.ends f h),
      r.printed,
      r.objects,
    )

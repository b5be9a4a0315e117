-- ===== src/Tests/Machine.antt =====
-- The compiler and the machine on the repository's sample programs, and instances of their theorems.
use baybayin_language.Base.{
  ℕ, ◌-◌, length, ◌≤◌, String, ◌≡◌, refl, true, false, none, some, List, [], ◌∷◌, ◌++◌, lookup,
  insert, mem_name,
}
use baybayin_language.Base.Int.{pos, ◌+ℤ◌}
use baybayin_language.Ast.{
  Expr, literal, identifier, call, binary, no_args, arg, numero, BinaryOp, var_decl, expr_stmt,
  contract_decl, no_members, field, end, seq, Program, Block, if_stmt, while_stmt, return_stmt,
  else_block,
}
use baybayin_language.Bytecode.{none_value, int, halt}
use baybayin_language.VmCompiler.{compile, compile_function, visit_block, visit_expr}
use baybayin_language.VmCompiler.Layout.{block_code}
use baybayin_language.VmCompiler.Patching.{visit_block-append}
use baybayin_language.Vm.{
  Machine, Outcome, running, finished, raised, execute, pop_args, join_values,
}
use baybayin_language.Vm.Operators.{Host, err, type_error, add_values}
use baybayin_language.Semantics.{
  Store, normal, Run, r_end, r_next, x_var, x_print, last_text, o_some, e_binary, e_literal, e_name,
  a_next, a_none, binary_value, read,
}
use baybayin_language.Simulation.Calls.{pop_args-pushed}
use baybayin_language.Simulation.Programs.{tables_of, initial}
use baybayin_language.VmCompiler.Straight.{JumpsIn}
use baybayin_language.Simulation.Targets.{compile-jumps, compile_function-jumps}
use baybayin_language.Simulation.Execution.{execute-compile}

-- A host that refuses floats: the programs below have none.
abbrev no_floats : Host
no_floats = record {
  arith = λ op a b. err type_error;
  compare = λ op a b. false;
  is_true = λ x. true;
  dict_repr = λ heap fields. "{}";
}

abbrev five_ten : Expr
five_ten = binary (literal (numero 5)) BinaryOp.add (literal (numero 10))

-- itakda x = 5 + 10   ipakita(x)
abbrev sum_program : Program
sum_program =
    seq (var_decl (record { name = "x"; type_ann = none; initializer = some five_ten }))
      (seq (expr_stmt (call (identifier "ipakita") (arg (identifier "x") no_args))) end)

-- What a run printed.
abbrev printed : Outcome → List String
printed (running vm) = vm.output_buffer
printed (finished v vm) = vm.output_buffer
printed (raised e out) = out

sum_runs : printed (execute no_floats 20 (compile sum_program)) ≡ "15" ∷ []
unfolding execute compile visit_block visit_expr ◌+ℤ◌ lookup insert mem_name add_values pop_args
sum_runs = refl

-- The state in which it ends.
abbrev sum_final : Store
sum_final = record { locals = ("x", int (pos 15)) ∷ []; heap = []; output = "15" ∷ [] }

sum_derivation : Run no_floats (tables_of sum_program) [] sum_program initial normal sum_final
unfolding insert lookup mem_name read binary_value add_values ◌+ℤ◌ join_values
sum_derivation =
    r_next
      (x_var (record { name = "x"; type_ann = none; initializer = some five_ten })
        (o_some (e_binary BinaryOp.add (e_literal (numero 5)) (e_literal (numero 10)) refl)))
      (r_next (x_print "ipakita" refl (a_next (e_name "x" refl) a_none) last_text) r_end)

execute-compile_example :
    (n : ℕ) × (vm : Machine) × ((f : ℕ)
      → n ≤ f
      → execute no_floats f (compile sum_program) ≡ finished none_value vm)
    × (vm.output_buffer ≡ "15" ∷ [])
    × (vm.heap ≡ [])
execute-compile_example = execute-compile no_floats sum_program normal sum_final sum_derivation

-- kung (1) { ibalik 1 } kundi { 2 }   habang (x) { x }
abbrev branching : Block
branching =
    seq
      (if_stmt (literal (numero 1)) (seq (return_stmt (some (literal (numero 1)))) end)
        (else_block (seq (expr_stmt (literal (numero 2))) end)))
      (seq (while_stmt (identifier "x") (seq (expr_stmt (identifier "x")) end)) end)

-- At index 3 behind other code.
visit_block-append_example :
    visit_block [] (halt ∷ halt ∷ halt ∷ []) branching
    ≡ (halt ∷ halt ∷ halt ∷ []) ++ block_code [] 3 branching
visit_block-append_example = visit_block-append [] branching (halt ∷ halt ∷ halt ∷ [])

-- kontrata K { itakda n = 1 }   and the program above
abbrev contract_program : Program
contract_program =
    seq
      (contract_decl "K" (
        field (record { name = "n"; type_ann = none; initializer = some (literal (numero 1)) })
          no_members))
      sum_program

pop_args-pushed_example :
    pop_args 2 [] (int (pos 2) ∷ int (pos 1) ∷ none_value ∷ [])
    ≡ some (int (pos 1) ∷ int (pos 2) ∷ [], none_value ∷ [])
pop_args-pushed_example = pop_args-pushed (int (pos 1) ∷ int (pos 2) ∷ []) (none_value ∷ []) 2 refl

compile-jumps_example :
    JumpsIn 0 (length (compile sum_program).main_code - 1) (compile sum_program).main_code
compile-jumps_example = compile-jumps sum_program

compile_function-jumps_example :
    JumpsIn 0 (length (compile_function [] branching)) (compile_function [] branching)
compile_function-jumps_example = compile_function-jumps [] branching

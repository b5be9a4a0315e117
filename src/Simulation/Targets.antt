-- ===== src/Simulation/Targets.antt =====
-- compiler/vm_compiler.py: where the jumps of compiled functions and programs go.
use baybayin_language.Base.{ℕ, ◌+◌, ◌-◌, String, List, [], ◌∷◌, ◌++◌, length, length-append, arith}
use baybayin_language.Ast.{Block, Program}
use baybayin_language.Bytecode.{halt}
use baybayin_language.VmCompiler.{compile_function, compile}
use baybayin_language.VmCompiler.Layout.{block_code}
use baybayin_language.VmCompiler.Straight.{JumpsIn, append-JumpsIn}
use baybayin_language.VmCompiler.Jumps.{widen, block-Local}
use baybayin_language.Simulation.Calls.{compile_function_lem}
use baybayin_language.Semantics.{Ending, nothing, a_return, something_else, ending_block}
use baybayin_language.Simulation.Setup.{closing}
use baybayin_language.Simulation.Programs.{compile_lem}

-- In the code of a program every jump goes to one of its instructions.
pub compile-jumps :
    (p : Program) → JumpsIn 0 (length (compile p).main_code - 1) (compile p).main_code
compile-jumps p =
    let code = block_code [] 0 p in
    let size = length-append code (halt ∷ []) in
    let hi = length (code ++ halt ∷ []) - 1 in
    rw (compile_lem p) (
      append-JumpsIn 0 hi code (halt ∷ [])
        (widen 0 (0 + length code) 0 hi code (omega arith) (omega (arith, size))
          (block-Local [] 0 p))
        (tt, tt))

closing-JumpsIn : (lo hi : ℕ) (e : Ending) → JumpsIn lo hi (closing e)
closing-JumpsIn lo hi nothing = (tt, (tt, tt))
closing-JumpsIn lo hi a_return = tt
closing-JumpsIn lo hi something_else = (tt, (tt, tt))

-- In the code of a function or method every jump goes to one of its instructions or to just behind the
-- last of them.
pub compile_function-jumps :
    (fields : List String) (b : Block)
    → JumpsIn 0 (length (compile_function fields b)) (compile_function fields b)
compile_function-jumps fields b =
    let code = block_code fields 0 b in
    let rest = closing (ending_block b) in
    let size = length-append code rest in
    let hi = length (code ++ rest) in
    rw (compile_function_lem fields b) (
      append-JumpsIn 0 hi code rest
        (widen 0 (0 + length code) 0 hi code (omega arith) (omega (arith, size))
          (block-Local fields 0 b))
        (closing-JumpsIn 0 hi (ending_block b)))

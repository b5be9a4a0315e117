-- ===== src/Lib.antt =====
-- Verification library of the Baybayin Language (BBL), a small Tagalog programming language whose
-- tools are written in Python.
--
-- A BBL program goes through four parts. compiler/lexer.py cuts the text into tokens,
-- compiler/parser.py builds the tree of compiler/ast.py, compiler/semantic.py checks names and types,
-- and then either a transpiler prints Python, JavaScript or Solidity, or compiler/vm_compiler.py emits
-- bytecode (compiler/instructions.py), which runtime/vm/bbvm.py executes.
--
-- Files and the code that they model:
--   Ast          compiler/ast.py, one constructor for each node class.
--   Bytecode     compiler/instructions.py, each opcode with its argument, and the machine's values.
--   VmCompiler   compiler/vm_compiler.py: `emit`, `patch`, the visitor methods, `compile_function` and
--                `compile`, as functions on the list of instructions. VmCompiler/Layout describes the
--                same code without patching.
--   Vm           runtime/vm/bbvm.py: frames, objects, one round of the loop of `execute` (`step`), and
--                the loop (`run`, `execute`). Vm/Operators has Python's operators on BBL values.
--   Semantics    the specification of the last two: a big-step relation over the tree, with its states and
--                values in Semantics/Values.
--                It says itself how parameters are bound, which values are true, what a line prints,
--                what a state variable starts with and when a body runs off its end.
--   Simulation   the proof that compiled code on the machine follows that relation; Simulation/Programs has
--                the functions and contracts of a program, Simulation/Setup their compiled form.
--   Lexer        compiler/lexer.py: Lexer/Patterns the regular expressions, Lexer the table of alternatives,
--                the matches of `finditer` and the loop of `tokenize`; Lexer/Scanned says which tokens a
--                text has; the other children are proofs.
--   Parser       compiler/parser.py: the token helpers and the rules for expressions, one function for
--                each method or loop; Parser/Declarations and Parser/Programs the other rules and
--                `parse`. Parser/Printed and Parser/Source describe the tokens of expressions and of
--                programs; the other children are proofs.
--   Analyzer     compiler/semantic.py: symbols, scopes (`enter_scope`, `exit_scope`, `declare`, `lookup`)
--                and the types of expressions; Analyzer/Statements the visits of statements and
--                declarations, `pre_pass` and `analyze`; the other children are its proofs.
--   Transpiler   compiler/transpiler_python.py: the printer's state and the code of expressions;
--                Transpiler/Scopes the signed indentation and the list of scopes, whose `pop` raises an
--                IndexError where it is empty, for all three printers; Transpiler/Statements the visits
--                of statements, contracts and programs.
--   Transpiler/Js        compiler/transpiler_js.py, in the same way; Js/Balance is its proof.
--   Transpiler/Solidity  compiler/transpiler_solidity.py, in the same way; Solidity/Scans has the walks that
--                decide on `view` and on the console, Solidity/Programs the `Main` contract; Solidity/Views
--                and Solidity/Balance are its proofs, over Transpiler/Layout, which they share with Js.
--   Compiler     compiler/compiler.py: `transpile`, from a text and the name of a target to code or to the
--                exception that ends it; Compiler/Phases is about how the phases meet.
--   Tests        runs at concrete inputs, and instances of the theorems.
--
-- Representation. A dict is an association list in insertion order. Python's int is an integer over the
-- native numbers. A float is the text of its `repr`, and float arithmetic, float comparison and the
-- text of a dict are parameters (`Host`), since they are Python's and not the program's. Objects are
-- shared by reference, so they stand in a heap. An exception is a value that ends the run.
--
-- A type annotation is never the empty text. A text is a list of characters for the lexer, whose regular
-- expressions are written as the functions that Python's `re` computes for them; which characters
-- are digits and how escapes are decoded are parameters (`Unicode`), as are Python's number parsing
-- (`Numbers`, with its ValueError as `none`) and the texts it prints (`Python`).
--
-- Fuel. The scan of the lexer is on fuel, one unit for each character, and the parser's loops and
-- recursive rules are on fuel, one unit for each token; Lexer/Tiles and Parser/Ends are about how much is
-- enough, and `transpile` gives both as much. `run` and `execute` take the number of rounds of the
-- machine's loop, since a BBL program need not stop; they return `running` where the rounds do not
-- suffice. Theorems that speak of a result of the machine give an amount of fuel from which on every fuel
-- gives it.
--
-- Not modelled: `transpile_file`, the loading of bytecode from JSON, the command line, the web server and
-- the AI agents, which are file, process and network calls around these parts; auto-browser/, a copy of
-- another project. The texts of error messages are left out.
pub mod Base
pub mod Ast
pub mod Bytecode
pub mod VmCompiler
pub mod Vm
pub mod Semantics
pub mod Simulation
pub mod Analyzer
pub mod Lexer
pub mod Parser
pub mod Transpiler
pub mod Compiler
mod Tests

-- ===== src/Compiler.antt =====
-- compiler/compiler.py: `BBLCompiler.transpile`, the phases one after another.
pub mod Phases
use baybayin_language.Base.{String, none, some, List, [], ◌∷◌, length, Dict, lookup}
use baybayin_language.Ast.{Program}
use baybayin_language.Lexer.Tokens.{Token}
use baybayin_language.Lexer.Patterns.{Text}
use baybayin_language.Lexer
use baybayin_language.Lexer.{Unicode, tokenize}
use baybayin_language.Parser.{
  Outcome, parsed, unexpected, bad_number, no_token, out_of_fuel, Numbers,
}
use baybayin_language.Parser.Programs.{parse}
use baybayin_language.Analyzer
use baybayin_language.Analyzer.{Result, ok, err}
use baybayin_language.Analyzer.Statements.{analyze}
use baybayin_language.Transpiler.{Python}
use baybayin_language.Transpiler.Scopes.{Stack, stack, index_error}
use baybayin_language.Transpiler
use baybayin_language.Transpiler.Js
use baybayin_language.Transpiler.Solidity

pub data Target : Type 0 where
  python js solidity : Target

-- `self.transpilers`
abbrev pub transpilers : Dict Target
transpilers =
    ("python", Target.python)
    ∷ ("js", Target.js)
    ∷ ("javascript", Target.js)
    ∷ ("solidity", Target.solidity)
    ∷ ("sol", Target.solidity)
    ∷ []

-- The parts of Python that the phases use, and `target.lower().strip()`.
pub record Platform : Type 0 where
  pub unicode : Unicode
  pub numbers : Numbers
  pub python : Python
  pub normalize : String → String

-- The exceptions that `transpile` lets through: the ValueError of an unknown target, those of the phases,
-- with the ValueError of a number, and the IndexError of a printer that pops a scope where there is none.
pub data Failure : Type 0 where
  unknown_target : String → Failure
  lexer_error : Lexer.Error → Failure
  parser_error value_error : Token → Failure
  semantic_error : Analyzer.Error → Failure
  empty_scopes no_such_token fuel_ran_out : Failure

pub data Compiled {ℓ} (A : Type ℓ) : Type ℓ where
  compiled : A → Compiled A
  failed : Failure → Compiled A

infixl 5 ◌>>=◌
abbrev pub ◌>>=◌ {ℓ κ} : {A : Type ℓ} {B : Type κ} → Compiled A → (A → Compiled B) → Compiled B
compiled a >>= next = next a
failed f >>= next = failed f

abbrev pub lexed : Lexer.Result (List Token) → Compiled (List Token)
lexed (Lexer.done ts) = compiled ts
lexed (Lexer.fail e) = failed (lexer_error e)
lexed Lexer.no_fuel = failed fuel_ran_out

abbrev pub program_of : Outcome Program → Compiled Program
program_of (parsed p rest) = compiled p
program_of (unexpected t) = failed (parser_error t)
program_of (bad_number t) = failed (value_error t)
program_of no_token = failed no_such_token
program_of out_of_fuel = failed fuel_ran_out

-- The lexer, the parser and the analyzer, each with as much fuel as it has input. The analyzer only
-- checks.
unfoldable pub front_end : Platform → Text → Compiled Program
unfolding tokenize parse analyze
front_end platform source = do
  ts ← lexed (tokenize platform.unicode (length source) source)
  p ← program_of (parse platform.numbers (length ts) ts)
  elim (analyze p) [ ok a ↦ compiled p | err e ↦ failed (semantic_error e) ]

-- The code, unless a `pop` of a scope has raised.
abbrev pub unless_raised : {S : Type 0} → Stack S → String → Compiled String
unless_raised (stack ss) code = compiled code
unless_raised index_error code = failed empty_scopes

-- `transpiler_class().visit(ast)`
unfoldable pub generate : Platform → Target → Program → Compiled String
unfolding Transpiler.Statements.visit_program Transpiler.Js.Statements.visit_program
    Transpiler.Solidity.Programs.visit_program
generate platform Target.python p =
    let run = Transpiler.Statements.visit_program platform.python Transpiler.Statements.fresh p in
    unless_raised run.1.scopes run.0
generate platform Target.js p =
    let run =
      Transpiler.Js.Statements.visit_program platform.python Transpiler.Js.Statements.fresh p in
    unless_raised run.1.scopes run.0
generate platform Target.solidity p =
    let run =
      Transpiler.Solidity.Programs.visit_program platform.python Transpiler.Solidity.Programs.fresh
        p in
    unless_raised run.1.scopes run.0

unfoldable pub transpile : Platform → Text → String → Compiled String
unfolding front_end generate lookup
transpile platform source target = elim (lookup (platform.normalize target) transpilers) [
  | none ↦ failed (unknown_target target)
  | some t ↦ do p ← front_end platform source; generate platform t p
]

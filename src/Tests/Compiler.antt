-- ===== src/Tests/Compiler.antt =====
-- The phases from a text to code.
use baybayin_language.Base.{String, ◌≡◌, ◌⊎◌, refl, false, some, lookup, insert, mem_name, ◌+++◌}
use baybayin_language.Ast.{Program}
use baybayin_language.Lexer.Patterns.{Text, chars, between}
use baybayin_language.Analyzer.{Analyzer}
use baybayin_language.VmCompiler.{count_args}
use baybayin_language.Transpiler.Scopes.{spaces}
use baybayin_language.Compiler.{
  Target, Platform, Failure, semantic_error, compiled, failed, transpile, transpilers,
}
use baybayin_language.Analyzer
use baybayin_language.Compiler.Phases.{Reported, Accepted, Generated, transpile-ends}

abbrev plain : Platform
plain = record {
  unicode = record { is_digit = between b'0' b'9'; unescape = λ s. some s };
  numbers = record { has_point = λ v. false; to_int = λ v. some 7; to_float = λ v. some v };
  python = record { repr = λ s. "'" +++ (s +++ "'"); str_int = λ n. "7"; strip = λ s. s };
  normalize = λ s. s;
}

abbrev greeting : Text
greeting = chars "itakda x = 7\nipakita(x)"

greeting_js : transpile plain greeting "js" ≡ compiled "let x = 7;\n\nconsole.log(x);"
unfolding transpile lookup insert mem_name spaces count_args
greeting_js = refl

-- An inferred type of a number is printed as it is, and is no type of Solidity.
greeting_solidity :
    transpile plain (chars "itakda x = 7") "sol"
    ≡ compiled
        "// SPDX-License-Identifier: MIT\npragma solidity ^0.8.0;\n\ncontract Main {\n    function run() public {\n        numero x = 7;\n    }\n}"
unfolding transpile lookup insert mem_name spaces count_args
greeting_solidity = refl

undeclared_fails :
    transpile plain (chars "x") "python" ≡ failed (semantic_error (Analyzer.undeclared "x"))
unfolding transpile lookup insert mem_name spaces count_args
undeclared_fails = refl

transpile-ends_example :
    ((t : Target) × (p : Program) × (lookup (plain.normalize "js") transpilers ≡ some t)
      × Accepted plain greeting p
      × ((code : String) × Generated plain p t code
          × (transpile plain greeting "js" ≡ compiled code)))
    ⊎ ((f : Failure) × Reported plain greeting "js" f × (transpile plain greeting "js" ≡ failed f))
transpile-ends_example = transpile-ends plain greeting "js"

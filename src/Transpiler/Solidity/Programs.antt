-- ===== src/Transpiler/Solidity/Programs.antt =====
-- compiler/transpiler_solidity.py: `visit_program`.
use baybayin_language.Base.{
  String, Bool, true, false, List, [], ◌∷◌, ◌++◌, ◌+++◌, if◌then◌else◌, str_eq,
}
use baybayin_language.Ast.{Stmt, contract_decl, func_decl, end, seq, Program}
use baybayin_language.Base.Int.{pos}
use baybayin_language.Transpiler.Scopes.{stack}
use baybayin_language.Transpiler.{Python, join}
use baybayin_language.Transpiler.Js.{terminated}
use baybayin_language.Transpiler.Js.Statements.{contract_names}
use baybayin_language.Transpiler.Solidity.{SolidityTranspiler, indent, deeper, shallower}
use baybayin_language.Transpiler.Solidity.Scans.{prints_block}
use baybayin_language.Transpiler.Solidity.Statements.{visit_stmt}

-- What a declaration becomes: a contract, a method of `Main`, or a statement of its `run`.
pub data Place : Type 0 where
  contract_part main_method main_statement : Place

abbrev pub place_of : Stmt → Place
place_of (contract_decl name ms) = Place.contract_part
place_of (func_decl s b) = Place.main_method
place_of _ = Place.main_statement

abbrev pub same_place : Place → Place → Bool
same_place Place.contract_part Place.contract_part = true
same_place Place.main_method Place.main_method = true
same_place Place.main_statement Place.main_statement = true
same_place _ _ = false

-- The declarations of one place, in order.
unfoldable pub select : Place → Program → Program
select place end = end
select place (seq s p) =
    if same_place (place_of s) place then seq s (select place p) else select place p

-- The codes of some declarations.
unfoldable pub visit_each : Python → SolidityTranspiler → Program → List String × SolidityTranspiler
unfolding visit_stmt
visit_each py t end = ([], t)
visit_each py t (seq s p) =
    let first = visit_stmt py t s in
    let rest = visit_each py first.1 p in (first.0 ∷ rest.0, rest.1)

-- The lines of `run`, without the empty ones.
unfoldable pub run_lines : Python → SolidityTranspiler → Program → String × SolidityTranspiler
unfolding visit_stmt terminated
run_lines py t end = ("", t)
run_lines py t (seq s p) =
    let first = visit_stmt py t s in
    let rest = run_lines py first.1 p in
    (
      if str_eq first.0 ""
          then rest.0
          else indent first.1 +++ (terminated first.0 +++ ("\n" +++ rest.0)),
      rest.1,
    )

unfoldable pub each_with : String → List String → String
each_with after [] = ""
each_with after (c ∷ cs) = c +++ (after +++ each_with after cs)

-- `run`, which is left out where there are no statements.
unfoldable pub run_code : Python → SolidityTranspiler → Program → String × SolidityTranspiler
unfolding run_lines shallower
run_code py t end = ("", t)
run_code py t (seq s p) =
    let body = run_lines py (deeper t) (seq s p) in
    let back = shallower body.1 in
    (indent t +++ ("function run() public {\n" +++ (body.0 +++ (indent back +++ "}\n"))), back)

-- `contract Main`, given the methods and the statements.
unfoldable pub main_code :
    Python → SolidityTranspiler → Program → Program → String × SolidityTranspiler
unfolding visit_each run_code shallower each_with
main_code py t methods statements =
    let first = visit_each py (deeper t) methods in
    let rest = run_code py first.1 statements in
    ("contract Main {\n" +++ (each_with "\n\n" first.0 +++ (rest.0 +++ "}")), shallower rest.1)

-- The list with it, if there is something besides contracts.
unfoldable pub main_part :
    Python → SolidityTranspiler → Program → Program → List String × SolidityTranspiler
unfolding main_code
main_part py t end end = ([], t)
main_part py t methods statements =
    let main = main_code py t methods statements in (main.0 ∷ [], main.1)

unfoldable pub nonempty : List String → List String
nonempty [] = []
nonempty (c ∷ cs) = if str_eq c "" then nonempty cs else c ∷ nonempty cs

abbrev pub header : Bool → String
header console =
    "// SPDX-License-Identifier: MIT\n"
    +++ ("pragma solidity ^0.8.0;\n\n"
        +++ (if console then "import \"hardhat/console.sol\";\n\n" else ""))

unfoldable pub visit_program : Python → SolidityTranspiler → Program → String × SolidityTranspiler
unfolding contract_names prints_block select visit_each main_part nonempty join
visit_program py t p =
    let start = record t {
      declared_contracts = contract_names p;
      needs_console_import = prints_block p;
    } in
    let contracts = visit_each py start (select Place.contract_part p) in
    let rest =
      main_part py contracts.1 (select Place.main_method p) (select Place.main_statement p) in
    (header (prints_block p) +++ join "\n\n" (nonempty (contracts.0 ++ rest.0)), rest.1)

abbrev pub fresh : SolidityTranspiler
fresh = record {
  indent_level = pos 0;
  current_state_vars = [];
  state_var_types = [];
  scopes = stack [];
  inside_class = false;
  inside_function = false;
  needs_console_import = false;
  declared_contracts = [];
}

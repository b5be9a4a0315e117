-- ===== src/Tests/Printers.antt =====
-- The printers of JavaScript and Solidity code on short programs.
use baybayin_language.Base.{◌≡◌, refl, true, false, none, some, [], ◌∷◌, lookup, insert, mem_name}
use baybayin_language.Ast.{
  literal, identifier, call, assign, numero, no_args, Block, contract_decl, var_decl, if_stmt,
  return_stmt, expr_stmt, end, seq, no_else, no_members, field, method, Program,
}
use baybayin_language.Transpiler.Scopes.{spaces, stack}
use baybayin_language.Transpiler.Layout.{Keeps}
use baybayin_language.Base.Int.{pos}
use baybayin_language.Transpiler.Js
use baybayin_language.Transpiler.Js.Balance.{js_layout, js_program-Keeps}
use baybayin_language.Transpiler.Solidity
use baybayin_language.Transpiler.Solidity.Scans.{modifies_block}
use baybayin_language.Transpiler.Solidity.Balance.{sol_layout, solidity_program-Keeps}
use baybayin_language.Transpiler.Solidity.Views.{
  targets_block, any_in, in_sight_block, modifies_block-targets,
}
use baybayin_language.Tests.Transpiler.{plain}

-- `kung (tama_ba) { bilang = 7 }`
abbrev counting : Block
counting =
    seq
      (if_stmt (identifier "tama_ba")
        (seq (expr_stmt (assign (identifier "bilang") (literal (numero 7)))) end) no_else)
      end

-- A contract that counts, and a variable beside it.
abbrev counter : Program
counter =
    seq
      (contract_decl "C" (
        field (record { name = "bilang"; type_ann = some "buo"; initializer = none })
          (method (record { name = "dagdag"; params = []; return_type = none; is_public = true })
            counting no_members)))
      (seq
        (var_decl (record {
          name = "x";
          type_ann = none;
          initializer = some (call (identifier "C") no_args);
        }))
        end)

counter_js :
    (Js.Statements.visit_program plain Js.Statements.fresh counter).0
    ≡ "class C {\n    bilang = null;\n\n    constructor() {\n        this.bilang = null;\n    }\n\n    dagdag() {\n        if (tama_ba) {\n            this.bilang = 7;\n        }\n    }\n}\n\nlet x = new C();"
unfolding Js.Statements.visit_program spaces lookup insert mem_name
counter_js = refl

counter_solidity :
    (Solidity.Programs.visit_program plain Solidity.Programs.fresh counter).0
    ≡ "// SPDX-License-Identifier: MIT\npragma solidity ^0.8.0;\n\ncontract C {\n    uint256 public bilang;\n\n    function dagdag() public {\n        if (tama_ba) {\n            bilang = 7;\n        }\n    }\n}\n\ncontract Main {\n    function run() public {\n        C x = new C();\n    }\n}"
unfolding Solidity.Programs.visit_program spaces lookup insert mem_name
counter_solidity = refl

-- An assignment behind `ibalik` is not seen, and the function is marked `view`.
returned_view :
    modifies_block
      ("bilang" ∷ [])
      (seq (return_stmt (some (assign (identifier "bilang") (literal (numero 7))))) end)
    ≡ false
unfolding modifies_block
returned_view = refl

modifies_block-targets_example :
    modifies_block ("bilang" ∷ []) counting ≡ any_in ("bilang" ∷ []) (targets_block counting)
unfolding in_sight_block
modifies_block-targets_example = modifies_block-targets ("bilang" ∷ []) counting refl

-- Two levels deep, with a scope open.
abbrev js_inside : Js.JsTranspiler
js_inside = record Js.Statements.fresh { indent_level = pos 2; scopes = stack (("y" ∷ []) ∷ []) }

js_program-Keeps_example :
    Keeps js_layout js_inside (Js.Statements.visit_program plain js_inside counter).1
js_program-Keeps_example = js_program-Keeps plain js_inside counter

solidity_program-Keeps_example :
    Keeps sol_layout Solidity.Programs.fresh
      (Solidity.Programs.visit_program plain Solidity.Programs.fresh counter).1
solidity_program-Keeps_example = solidity_program-Keeps plain Solidity.Programs.fresh counter

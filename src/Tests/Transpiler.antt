-- ===== src/Tests/Transpiler.antt =====
-- The printer of Python code on short programs.
use baybayin_language.Base.{◌≡◌, refl, none, some, lookup, insert, mem_name, ◌+++◌}
use baybayin_language.Ast.{
  literal, identifier, numero, Stmt, var_decl, while_stmt, return_stmt, if_stmt, else_block,
  else_if, end, seq, Program,
}
use baybayin_language.Transpiler.{Python}
use baybayin_language.Transpiler.Scopes.{spaces}
use baybayin_language.Transpiler.Statements.{visit_stmt, visit_program, fresh}
use baybayin_language.Transpiler.Balance.{Keeps, visit_stmt-Keeps}

-- Python on texts and numbers of one sign.
abbrev pub plain : Python
plain = record { repr = λ s. "'" +++ (s +++ "'"); str_int = λ n. "7"; strip = λ s. s }

abbrev looping : Stmt
looping = while_stmt (identifier "x") (
    seq
      (var_decl (record { name = "y"; type_ann = some "buo"; initializer = some (identifier "x") }))
      end)

abbrev looping_program : Program
looping_program =
    seq (var_decl (record { name = "x"; type_ann = none; initializer = some (literal (numero 7)) }))
      (seq looping end)

looping_code : (visit_program plain fresh looping_program).0 ≡ "x = 7\n\nwhile x:\n    y: int = x"
unfolding visit_program spaces lookup insert mem_name
looping_code = refl

-- The `else` behind an `elif` stands a level too deep.
elif_code :
    (visit_stmt plain fresh (
      if_stmt (identifier "a") (seq (return_stmt none) end) (
        else_if
          (identifier "b")
          (seq (return_stmt none) end)
          (else_block (seq (return_stmt none) end))))).0
    ≡ "if a:\n    return\nelif b:\n        return\n    else:\n        return"
unfolding visit_stmt spaces lookup insert mem_name
elif_code = refl

visit_stmt-Keeps_example : Keeps fresh (visit_stmt plain fresh looping).1
visit_stmt-Keeps_example = visit_stmt-Keeps plain fresh looping

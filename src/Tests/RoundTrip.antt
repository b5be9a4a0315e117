-- ===== src/Tests/RoundTrip.antt =====
-- The parser on the printed tokens of a program with a contract.
use baybayin_language.Base.{◌≡◌, refl, true, none, some, [], ◌∷◌, arith}
use baybayin_language.Ast.{
  literal, numero, identifier, binary, call, assign, no_args, arg, BinaryOp, contract_decl, if_stmt,
  while_stmt, return_stmt, expr_stmt, end, seq, else_block, else_if, no_members, field, method,
  Block, Program,
}
use baybayin_language.Parser.{parsed}
use baybayin_language.Parser.Programs.{parse}
use baybayin_language.Parser.Printed.{Fine, printed}
use baybayin_language.Parser.Source.{block_tokens, type_token, params_tokens, FineBlock}
use baybayin_language.Parser.WholeProgram.{end_of_file, parse-printed}
use baybayin_language.Tests.Parser.{no_numbers, seven}

abbrev returned : Block
returned = seq (return_stmt (some (identifier "bilang"))) end

-- kung (x < 7) { ibalik bilang; } kundi kung (x) { ibalik; } kundi { bilang = bilang + x; }
abbrev body : Block
body =
    seq
      (if_stmt (binary (identifier "x") BinaryOp.lt (literal (numero 7))) returned (
        else_if (identifier "x") (seq (return_stmt none) end) (
          else_block (
            seq
              (expr_stmt (
                assign (identifier "bilang")
                  (binary (identifier "bilang") BinaryOp.add (identifier "x"))))
              end))))
      returned

abbrev contract_program : Program
contract_program =
    seq
      (contract_decl "C" (
        field
          (record {
            name = "bilang";
            type_ann = some "buo";
            initializer = some (literal (numero 7));
          })
          (method
            (record {
              name = "dagdag";
              params = record { name = "x"; type_ann = "buo" } ∷ [];
              return_type = some "buo";
              is_public = true;
            })
            body no_members)))
      (seq
        (while_stmt (identifier "y")
          (seq (expr_stmt (call (identifier "ipakita") (arg (identifier "y") no_args))) end))
        end)

parse-printed_example :
    parse no_numbers 80 (block_tokens seven contract_program (end_of_file ∷ []))
    ≡ parsed contract_program (end_of_file ∷ [])
unfolding block_tokens FineBlock Fine type_token printed params_tokens
parse-printed_example =
    parse-printed seven no_numbers contract_program 80
      (
        (
          refl,
          ((((tt, refl), (tt, tt), (tt, (tt, tt), ((refl, tt, (tt, tt)), tt))), (tt, tt)), tt),
        ),
        ((tt, ((tt, (tt, tt)), tt)), tt),
      )
      (omega arith)

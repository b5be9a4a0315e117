-- ===== src/Tests/Analyzer.antt =====
-- The analyzer on a program with a function, a shadowing block and a contract.
use baybayin_language.Base.{
  String, ◌≡◌, refl, true, false, none, some, List, [], ◌∷◌, lookup, insert,
}
use baybayin_language.Ast.{
  Expr, literal, identifier, binary, call, BinaryOp, no_args, arg, numero, Stmt, var_decl, block,
  return_stmt, func_decl, contract_decl, Block, end, seq, no_members, field, Program,
}
use baybayin_language.VmCompiler.{count_args}
use baybayin_language.Analyzer.{Kind, Symbol, ContractMeta, ok, err, redeclared, Analyzer, type_of}
use baybayin_language.Analyzer.Statements.{pre_pass, analyze, visit_stmt}
use baybayin_language.Analyzer.Scopes.{Extends}
use baybayin_language.Analyzer.Declared.{AllDeclared, names_of, type_of-AllDeclared}
use baybayin_language.Analyzer.Names.{declared, distinct, visit_stmt-block_names}
use baybayin_language.Analyzer.Balance.{
  visit_stmt-Extends, visit_stmt-block_scopes, analyze_balanced,
}

abbrev itakda : String → Expr → Stmt
itakda name e = var_decl (record { name = name; type_ann = none; initializer = some e })

abbrev one : Expr
one = literal (numero 1)

-- itakda y = 1   { itakda y = y }
abbrev shadowing : Block
shadowing = seq (itakda "y" one) (seq (block (seq (itakda "y" (identifier "y")) end)) end)

-- gawain f(x: buo): buo { ibalik x }
abbrev function_f : Stmt
function_f =
    func_decl
      (record {
        name = "f";
        params = record { name = "x"; type_ann = "buo" } ∷ [];
        return_type = some "buo";
        is_public = false;
      })
      (seq (return_stmt (some (identifier "x"))) end)

-- kontrata K { itakda n: buo = 1 }   gawain f…   itakda z = f(1)   and the block above
abbrev sample : Program
sample =
    seq
      (contract_decl "K"
        (field (record { name = "n"; type_ann = some "buo"; initializer = some one }) no_members))
      (seq function_f
        (seq (itakda "z" (call (identifier "f") (arg one no_args))) (seq (block shadowing) end)))

abbrev sample_contracts : List (String × ContractMeta)
sample_contracts = ("K", record { fields = ("n", "buo") ∷ []; methods = [] }) ∷ []

abbrev sample_end : Analyzer
sample_end = record {
  scopes = [];
  contracts = sample_contracts;
  current_contract = none;
  current_function = none;
}

sample_accepted : analyze sample ≡ ok sample_end
unfolding analyze lookup insert count_args
sample_accepted = refl

analyze_balanced_example : (sample_end.scopes ≡ []) × (sample_end.contracts ≡ sample_contracts)
unfolding pre_pass insert
analyze_balanced_example = analyze_balanced sample sample_end sample_accepted

abbrev number_symbol : Symbol
number_symbol = record { type_name = some "buo"; kind = Kind.var; params = [] }

abbrev inside : Analyzer
inside = record {
  scopes = (("x", number_symbol) ∷ []) ∷ [];
  contracts = [];
  current_contract = none;
  current_function = none;
}

abbrev inside_declared : Analyzer
inside_declared = record inside { scopes = (("x", number_symbol) ∷ ("y", number_symbol) ∷ []) ∷ [] }

declare_runs : visit_stmt inside (itakda "y" (identifier "x")) ≡ ok inside_declared
unfolding visit_stmt lookup insert
declare_runs = refl

block_runs : visit_stmt inside (block shadowing) ≡ ok inside
unfolding visit_stmt lookup insert
block_runs = refl

-- A name that the innermost scope has is refused.
redeclared_runs : visit_stmt inside (itakda "x" one) ≡ err (redeclared "x")
unfolding visit_stmt lookup insert
redeclared_runs = refl

visit_stmt-Extends_example : Extends inside inside_declared
visit_stmt-Extends_example =
    visit_stmt-Extends inside inside_declared (itakda "y" (identifier "x")) declare_runs

visit_stmt-block_scopes_example : inside.scopes ≡ inside.scopes
visit_stmt-block_scopes_example = visit_stmt-block_scopes inside inside shadowing block_runs

visit_stmt-block_names_example : distinct (declared shadowing) ≡ true
visit_stmt-block_names_example = visit_stmt-block_names inside inside shadowing block_runs

abbrev doubled : Expr
doubled = binary (identifier "x") BinaryOp.add (identifier "x")

doubled_type : type_of inside doubled ≡ ok (some "buo")
unfolding type_of lookup
doubled_type = refl

type_of-AllDeclared_example : AllDeclared inside (names_of doubled)
type_of-AllDeclared_example = type_of-AllDeclared inside doubled (some "buo") doubled_type

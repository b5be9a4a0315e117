-- ===== src/Simulation/Programs.antt =====
-- Whole programs: what `compile` makes of the declarations, and what `execute` does with it.
use baybayin_language.Base.{
  String, ◌≡◌, refl, sym, ap, Bool, List, [], ◌∷◌, ◌++◌, Dict, insert, keys, map_dict,
  insert-map_dict,
}
use baybayin_language.Ast.{
  Program, Signature, Block, Stmt, contract_decl, func_decl, end, seq, Members, no_members, field,
  method,
}
use baybayin_language.Bytecode.{Code, Bytecode, halt}
use baybayin_language.VmCompiler.{
  emit, visit_stmt, visit_block, function_entry, contract_methods, contract_entry,
  compile_declaration, compile_declarations, compile,
}
use baybayin_language.VmCompiler.Layout.{block_code}
use baybayin_language.VmCompiler.Patching.{visit_block-append}
use baybayin_language.Vm.{load}
use baybayin_language.Semantics.{Decl, Class, class_defaults, Tables, Store}
use baybayin_language.Simulation.Setup.{compiled_decl, compiled_class, machine_at}
use baybayin_language.Simulation.Calls.{compile_function_lem}
use baybayin_language.Simulation.Endings.{class_defaults-eq}

-- The tables of a program: a later declaration replaces an earlier one of its name.
unfoldable pub class_methods : Dict Decl → Members → Dict Decl
class_methods methods no_members = methods
class_methods methods (field d ms) = class_methods methods ms
class_methods methods (method s b ms) =
    class_methods (insert s.name (record { signature = s; body = b }) methods) ms

unfoldable pub class_of : Members → Class
class_of ms = record { fields = class_defaults [] ms; methods = class_methods [] ms }

unfoldable pub declare : Tables → Stmt → Tables
declare tb (func_decl s b) = record tb {
  functions = insert s.name (record { signature = s; body = b }) tb.functions;
}
declare tb (contract_decl name ms) = record tb {
  contracts = insert name (class_of ms) tb.contracts;
}
declare tb s = tb

unfoldable pub declare_all : Tables → Program → Tables
declare_all tb end = tb
declare_all tb (seq s p) = declare_all (declare tb s) p

abbrev pub tables_of : Program → Tables
tables_of p = declare_all (record { functions = []; contracts = [] }) p

-- The compiled form of tables, behind the code of the main statements so far.
abbrev pub compiled : Code → Tables → Bytecode
compiled code tb = record {
  main_code = code;
  functions = map_dict (compiled_decl []) tb.functions;
  contracts = map_dict compiled_class tb.contracts;
}

-- The compiler's entry of a function: its parameters in order, and its code.
function_entry-compiled :
    (fields : List String) (s : Signature) (b : Block)
    → function_entry fields s b ≡ compiled_decl fields (record { signature = s; body = b })
unfolding function_entry
function_entry-compiled fields s b = rw (compile_function_lem fields b)

contract_methods-compiled :
    (names : List String) (methods : Dict Decl) (ms : Members)
    → contract_methods names (map_dict (compiled_decl names) methods) ms
      ≡ map_dict (compiled_decl names) (class_methods methods ms)
unfolding contract_methods class_methods
contract_methods-compiled names methods no_members = refl
contract_methods-compiled names methods (field d ms) = contract_methods-compiled names methods ms
contract_methods-compiled names methods (method s b ms) =
    rw
      (
        function_entry-compiled names s b,
        ← insert-map_dict (compiled_decl names) s.name (record { signature = s; body = b }) methods,
      )
      (contract_methods-compiled names (insert s.name (record { signature = s; body = b }) methods)
        ms)

contract_entry-compiled : (ms : Members) → contract_entry ms ≡ compiled_class (class_of ms)
unfolding contract_entry class_of map_dict
contract_entry-compiled ms = rw (class_defaults-eq [] ms) (
    ap (λ m. record { fields = class_defaults [] ms; methods = m })
      (contract_methods-compiled (keys (class_defaults [] ms)) [] ms))

compile_declaration-compiled :
    (code : Code) (tb : Tables) (s : Stmt)
    → compile_declaration (compiled code tb) s ≡ compiled (visit_stmt [] code s) (declare tb s)
unfolding compile_declaration declare
compile_declaration-compiled code tb (func_decl s b) = rw (function_entry-compiled [] s b) (
    ap
      (λ m. record {
        main_code = code;
        functions = m;
        contracts = map_dict compiled_class tb.contracts;
      })
      (sym (
        insert-map_dict (compiled_decl []) s.name (record { signature = s; body = b })
          tb.functions)))
compile_declaration-compiled code tb (contract_decl name ms) =
    rw
      (contract_entry-compiled ms, ← insert-map_dict compiled_class name (class_of ms) tb.contracts)
compile_declaration-compiled code tb _ = refl

compile_declarations-compiled :
    (code : Code) (tb : Tables) (p : Program)
    → compile_declarations (compiled code tb) p
      ≡ compiled (visit_block [] code p) (declare_all tb p)
unfolding compile_declarations visit_block declare_all
compile_declarations-compiled code tb end = refl
compile_declarations-compiled code tb (seq s p) =
    rw (compile_declaration-compiled code tb s)
      (compile_declarations-compiled (visit_stmt [] code s) (declare tb s) p)

pub compile_lem :
    (p : Program) → compile p ≡ compiled (block_code [] 0 p ++ halt ∷ []) (tables_of p)
unfolding compile emit map_dict
compile_lem p =
    let e = compile_declarations-compiled [] (record { functions = []; contracts = [] }) p in
    rw (e, visit_block-append [] p [])

abbrev pub initial : Store
initial = record { locals = []; heap = []; output = [] }

load-compiled :
    (p : Program)
    → load (compile p)
      ≡ machine_at (tables_of p) (block_code [] 0 p ++ halt ∷ []) 0 [] Bool.false [] initial
load-compiled p = rw compile_lem

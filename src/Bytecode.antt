-- ===== src/Bytecode.antt =====
-- compiler/instructions.py and the values that instructions and the virtual machine hold.
use baybayin_language.Base.{ℕ, String, Bool, List, Dict}
use baybayin_language.Base.Int.{ℤ, pos}
use baybayin_language.Ast.{Float, Literal, numero, decimal, teksto, kondisyon, wala}

-- The Python values of a BBL program. `object` is a reference to a `BBLObject`. A function or a
-- contract is the text of its name.
pub data Value : Type 0 where
  none_value : Value
  bool : Bool → Value
  int : ℤ → Value
  float : Float → Value
  str : String → Value
  object : ℕ → Value

-- `Literal.value`
abbrev pub literal_value : Literal → Value
literal_value (numero n) = int (pos n)
literal_value (decimal x) = float x
literal_value (teksto s) = str s
literal_value (kondisyon b) = bool b
literal_value wala = none_value

-- The operator texts of COMPARE_OP.
pub data CompareOp : Type 0 where
  lt gt le ge eq ne : CompareOp

-- An opcode with its argument.
pub data Instr : Type 0 where
  load_const : Value → Instr
  store_fast load_fast store_global load_global : String → Instr
  binary_add binary_sub binary_mul binary_div : Instr
  compare_op : CompareOp → Instr
  jump_if_false jump call_function print : ℕ → Instr
  return_value halt : Instr
  call_method : String → ℕ → Instr
  load_attr store_attr : String → Instr

abbrev pub Code : Type 0
Code = List Instr

-- A function or a method: `{"params": [...], "code": [...]}`.
pub record Function : Type 0 where
  pub params : List String
  pub code : Code

-- `{"fields": {...}, "methods": {...}}`
pub record Contract : Type 0 where
  pub fields : Dict Value
  pub methods : Dict Function

-- What `compile` returns and `execute` loads.
pub record Bytecode : Type 0 where
  pub main_code : Code
  pub functions : Dict Function
  pub contracts : Dict Contract

-- ===== src/Vm/Operators.antt =====
-- runtime/vm/bbvm.py: Python's operators on the values of a BBL program, as `BBVM.execute` uses them.
-- Arithmetic on floats and the text of a dict are Python's: a parameter, `Host`.
use Prim.Native.Char.{code}
use baybayin_language.Base.{
  ℕ, zero, suc, ◌/◌, ◌%◌, String, Bool, true, false, not, ◌||◌, ◌&&◌, Option, none, some, List, [],
  ◌∷◌, ltb, ◌+++◌, ◌==◌, if◌then◌else◌, str_eq, get_or, get_elem?, Dict,
}
use baybayin_language.Base.Int.{ℤ, pos, negsuc, ◌+ℤ◌, ◌-ℤ◌, ◌*ℤ◌, ltb_ℤ, eqb_ℤ, floor_div, pos_part}
use baybayin_language.Ast.{Float}
use baybayin_language.Bytecode.{
  Value, none_value, bool, int, float, str, object, CompareOp, lt, gt, le, ge, eq, ne,
}

-- The exceptions that `execute` lets through. `stack_empty` and `missing_argument` are IndexError,
-- `not_object` and `no_method` the RuntimeError of the machine's own checks.
pub data Error : Type 0 where
  stack_empty missing_argument type_error zero_division overflow_error not_object key_error : Error
  no_method : String → String → Error

pub data Result {ℓ} (A : Type ℓ) : Type ℓ where
  ok : A → Result A
  err : Error → Result A

-- `BBLObject`
pub record Object : Type 0 where
  pub class_name : String
  pub fields : Dict Value

pub data Num : Type 0 where
  whole : ℤ → Num
  real : Float → Num

pub data ArithOp : Type 0 where
  add sub mul floor : ArithOp

-- Python's operators where an operand is a float, and `repr` of a dict of field values.
pub record Host : Type 0 where
  pub arith : ArithOp → Num → Num → Result Num
  pub compare : CompareOp → Num → Num → Bool
  pub is_true : Float → Bool
  pub dict_repr : List Object → Dict Value → String

-- The number that a value is: `bool` is a subclass of `int`.
abbrev pub as_num : Value → Option Num
as_num (bool b) = some (whole (pos (if b then 1 else 0)))
as_num (int n) = some (whole n)
as_num (float x) = some (real x)
as_num _ = none

abbrev pub num_value : Num → Value
num_value (whole n) = int n
num_value (real x) = float x

unfoldable pub int_arith : ArithOp → ℤ → ℤ → Result Num
int_arith add a b = ok (whole (a +ℤ b))
int_arith sub a b = ok (whole (a -ℤ b))
int_arith mul a b = ok (whole (a *ℤ b))
int_arith floor a b = if eqb_ℤ b (pos 0) then err zero_division else ok (whole (floor_div a b))

-- A float among the operands: the host's arithmetic.
unfoldable pub num_arith : Host → ArithOp → Num → Num → Result Num
unfolding int_arith
num_arith host op (whole a) (whole b) = int_arith op a b
num_arith host op a b = host.arith op a b

abbrev pub value_of : Result Num → Result Value
value_of (ok n) = ok (num_value n)
value_of (err e) = err e

abbrev pub both {ℓ} : {A : Type ℓ} → Option Num → Option Num → (Num → Num → A) → A → A
both (some a) (some b) f other = f a b
both _ _ f other = other

-- `a - b`, `a // b`, and `a + b` and `a * b` where no text is among the operands.
unfoldable pub arith_values : Host → ArithOp → Value → Value → Result Value
unfolding num_arith
arith_values host op a b =
    both (as_num a) (as_num b) (λ m n. value_of (num_arith host op m n)) (err type_error)

abbrev pub digit_text : ℕ → String
digit_text d = get_or ("0" ∷ "1" ∷ "2" ∷ "3" ∷ "4" ∷ "5" ∷ "6" ∷ "7" ∷ "8" ∷ "9" ∷ []) d ""

-- The decimal digits of a number. Each round divides it by ten, so `suc n` rounds are enough.
unfoldable pub digits_of : ℕ → ℕ → String
digits_of zero n = ""
digits_of (suc fuel) n =
    let front = digits_of fuel (n / 10) in
    if ltb n 10 then digit_text n else front +++ digit_text (n % 10)

unfoldable pub int_text : ℤ → String
unfolding digits_of
int_text (pos n) = digits_of (suc n) n
int_text (negsuc n) = "-" +++ digits_of (suc (suc n)) (suc n)

-- `BBLObject.__repr__`
unfoldable pub object_text : Host → List Object → Object → String
object_text host heap o =
    "<BBLObject " +++ (o.class_name +++ (": " +++ (host.dict_repr heap o.fields +++ ">")))

unfoldable pub repeat_text : ℕ → String → String
repeat_text zero s = ""
repeat_text (suc n) s = s +++ repeat_text n s

abbrev lex_lt : List ℕ → List ℕ → Bool
lex_lt [] [] = false
lex_lt [] (b ∷ bs) = true
lex_lt (a ∷ as') [] = false
lex_lt (a ∷ as') (b ∷ bs) = ltb a b || (a == b && lex_lt as' bs)

abbrev codes : String → List ℕ
codes String.[] = []
codes (String.◌∷◌ c s) = code c ∷ codes s

-- `s < t` for texts: by code points.
unfoldable pub text_lt : String → String → Bool
text_lt s t = lex_lt (codes s) (codes t)

-- `str(v)`
unfoldable pub text_of : Host → List Object → Value → String
unfolding int_text object_text
text_of host heap none_value = "None"
text_of host heap (bool b) = if b then "True" else "False"
text_of host heap (int n) = int_text n
text_of host heap (float x) = x
text_of host heap (str s) = s
text_of host heap (object r) = elim (get_elem? heap r) [
  | none ↦ ""
  | some o ↦ object_text host heap o
]

-- `a + b` as BINARY_ADD has it: with a text among the operands both are turned into texts.
unfoldable pub add_values : Host → List Object → Value → Value → Result Value
unfolding text_of arith_values
add_values host heap (str s) b = ok (str (s +++ text_of host heap b))
add_values host heap a (str t) = ok (str (text_of host heap a +++ t))
add_values host heap a b = arith_values host add a b

-- `s * n`: none for a negative `n`.
unfoldable pub times_text : String → Option Num → Result Value
unfolding repeat_text
times_text s (some (whole n)) = ok (str (repeat_text (pos_part n) s))
times_text s _ = err type_error

-- `a * b`
unfoldable pub mul_values : Host → Value → Value → Result Value
unfolding times_text arith_values
mul_values host (str s) b = times_text s (as_num b)
mul_values host a (str t) = times_text t (as_num a)
mul_values host a b = arith_values host mul a b

abbrev compare_int : CompareOp → ℤ → ℤ → Bool
compare_int lt a b = ltb_ℤ a b
compare_int gt a b = ltb_ℤ b a
compare_int le a b = not (ltb_ℤ b a)
compare_int ge a b = not (ltb_ℤ a b)
compare_int eq a b = eqb_ℤ a b
compare_int ne a b = not (eqb_ℤ a b)

unfoldable pub compare_num : Host → CompareOp → Num → Num → Bool
compare_num host op (whole a) (whole b) = compare_int op a b
compare_num host op a b = host.compare op a b

unfoldable pub compare_text : CompareOp → String → String → Bool
unfolding text_lt
compare_text lt s t = text_lt s t
compare_text gt s t = text_lt t s
compare_text le s t = not (text_lt t s)
compare_text ge s t = not (text_lt s t)
compare_text eq s t = str_eq s t
compare_text ne s t = not (str_eq s t)

-- Values of different kinds, None and objects: `==` is identity, an order is a TypeError.
unfoldable pub compare_other : CompareOp → Bool → Result Value
compare_other eq same = ok (bool same)
compare_other ne same = ok (bool (not same))
compare_other op same = err type_error

-- `a < b`, …, `a != b`
unfoldable pub compare_values : Host → CompareOp → Value → Value → Result Value
unfolding compare_num compare_text compare_other
compare_values host op (str s) (str t) = ok (bool (compare_text op s t))
compare_values host op none_value none_value = compare_other op true
compare_values host op (object r) (object q) = compare_other op (r == q)
compare_values host op a b =
    both (as_num a) (as_num b) (λ m n. ok (bool (compare_num host op m n))) (compare_other op false)

-- `bool(v)`, as `if not cond` reads it.
unfoldable pub truthy : Host → Value → Bool
truthy host none_value = false
truthy host (bool b) = b
truthy host (int n) = not (eqb_ℤ n (pos 0))
truthy host (float x) = host.is_true x
truthy host (str s) = not (str_eq s "")
truthy host (object r) = true

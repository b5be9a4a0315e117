-- ===== src/Vm.antt =====
-- runtime/vm/bbvm.py: the virtual machine. `step` is one round of the loop of `execute`.
-- A frame's stack has its top first, and so has the list of frames. Objects are shared by reference,
-- so they stand in a heap and a value holds the index. An exception ends the run: what had been
-- printed is kept, the frames are not.
pub mod Operators
use baybayin_language.Base.{
  ℕ, zero, suc, String, Bool, true, false, Option, none, some, List, [], ◌∷◌, ◌++◌, length,
  get_elem?, set, if◌then◌else◌, ◌+++◌, Dict, lookup, insert,
}
use baybayin_language.Bytecode.{
  Value, none_value, str, object, Instr, load_const, store_fast, load_fast, store_global,
  load_global, binary_add, binary_sub, binary_mul, binary_div, compare_op, jump_if_false, jump,
  call_function, print, return_value, halt, call_method, load_attr, store_attr, Code, Function,
  Contract, Bytecode,
}
use Operators.{
  Error, stack_empty, missing_argument, not_object, key_error, no_method, Result, ok, err, Object,
  Host, sub, floor, text_of, add_values, mul_values, arith_values, compare_values, truthy,
}

-- `VMFrame`, with the `is_constructor` mark that CALL_FUNCTION may set on it.
pub record Frame : Type 0 where
  pub instructions : Code
  pub ip : ℕ
  pub locals : Dict Value
  pub stack : List Value
  pub is_constructor : Bool

-- `BBVM`, and the heap of the objects made so far.
pub record Machine : Type 0 where
  pub globals : Dict Value
  pub functions : Dict Function
  pub contracts : Dict Contract
  pub frames : List Frame
  pub output_buffer : List String
  pub heap : List Object

-- A round of the loop goes on, leaves the loop with `last_val`, or raises.
pub data Outcome : Type 0 where
  running : Machine → Outcome
  finished : Value → Machine → Outcome
  raised : Error → List String → Outcome

-- The machine with `f` on top of the frames `fs`.
abbrev pub with_frames : Machine → Frame → List Frame → Machine
with_frames vm f fs = record vm { frames = f ∷ fs }

-- Go on in the frame with the stack `s`.
abbrev pub push_stack : Machine → Frame → List Frame → List Value → Outcome
push_stack vm f fs s = running (with_frames vm (record f { stack = s }) fs)

-- Go on with the value of an operator on top of `s`, or raise its exception.
abbrev pub push_result : Machine → Frame → List Frame → List Value → Result Value → Outcome
push_result vm f fs s (ok v) = push_stack vm f fs (v ∷ s)
push_result vm f fs s (err e) = raised e vm.output_buffer

-- `frame.stack.pop()`, once and twice: the second value is the one below.
abbrev pub pop_one : Machine → List Value → (Value → List Value → Outcome) → Outcome
pop_one vm [] k = raised stack_empty vm.output_buffer
pop_one vm (v ∷ s) k = k v s

abbrev pub pop_two : Machine → List Value → (Value → Value → List Value → Outcome) → Outcome
pop_two vm (b ∷ a ∷ s) k = k a b s
pop_two vm _ k = raised stack_empty vm.output_buffer

-- `for _ in range(n): args.insert(0, frame.stack.pop())`
unfoldable pub pop_args : ℕ → List Value → List Value → Option (List Value × List Value)
pop_args zero args s = some (args, s)
pop_args (suc n) args [] = none
pop_args (suc n) args (v ∷ s) = pop_args n (v ∷ args) s

-- `for i, param in enumerate(params): locals_dict[param] = args[i]`
unfoldable pub bind_params : List String → List Value → Dict Value → Option (Dict Value)
bind_params [] args locals = some locals
bind_params (p ∷ ps) [] locals = none
bind_params (p ∷ ps) (v ∷ args) locals = bind_params ps args (insert p v locals)

-- A name that is no variable: the name itself if a function or a contract has it, else None.
unfoldable pub load_definition : Machine → String → Value
load_definition vm name = elim (lookup name vm.functions) [
  | some _ ↦ str name
  | none ↦ elim (lookup name vm.contracts) [ some _ ↦ str name | none ↦ none_value ]
]

unfoldable pub load_global_name : Machine → String → Value
unfolding load_definition
load_global_name vm name = elim (lookup name vm.globals) [
  | some v ↦ v
  | none ↦ load_definition vm name
]

unfoldable pub load_name : Machine → Frame → String → Value
unfolding load_global_name
load_name vm f name = elim (lookup name f.locals) [ some v ↦ v | none ↦ load_global_name vm name ]

-- A new frame on top of `f`, whose locals are the arguments behind `locals`.
unfoldable pub enter :
    Machine → Frame → List Frame → Function → List Value → Dict Value → Bool → Outcome
enter vm f fs callee args locals constructing = elim (bind_params callee.params args locals) [
  | none ↦ raised missing_argument vm.output_buffer
  | some bound ↦ running (
      with_frames vm
        (record {
          instructions = callee.code;
          ip = 0;
          locals = bound;
          stack = [];
          is_constructor = constructing;
        })
        (f ∷ fs))
]

-- The object of a contract is on the stack before its `simulan` runs.
unfoldable pub construct :
    Machine → Frame → List Frame → String → Contract → List Value → List Value → Outcome
unfolding enter
construct vm f fs name c args s =
    let made = object (length vm.heap) in
    let vm' = record vm {
      heap = vm.heap ++ record { class_name = name; fields = c.fields } ∷ [];
    } in
    let f' = record f { stack = made ∷ s } in
    elim (lookup "simulan" c.methods) [
      | none ↦ running (with_frames vm' f' fs)
      | some m ↦ enter vm' f' fs m args (insert "self" made []) true
    ]

-- The callee is a name, or any other value, which no dict holds.
unfoldable pub call_value : Machine → Frame → List Frame → Value → List Value → List Value → Outcome
unfolding construct enter
call_value vm f fs (str name) args s = elim (lookup name vm.contracts) [
  | some c ↦ construct vm f fs name c args s
  | none ↦ elim (lookup name vm.functions) [
    | some m ↦ enter vm (record f { stack = s }) fs m args [] false
    | none ↦ push_stack vm f fs s
  ]
]
call_value vm f fs callee args s = push_stack vm f fs s

-- The methods of an object's contract.
unfoldable pub methods_of : Machine → ℕ → Result (String × Dict Function)
methods_of vm r = elim (get_elem? vm.heap r) [
  | none ↦ err key_error
  | some o ↦ elim (lookup o.class_name vm.contracts) [
    | none ↦ err key_error
    | some c ↦ ok (o.class_name, c.methods)
  ]
]

unfoldable pub call_object_method :
    Machine → Frame → List Frame → String → ℕ → List Value → List Value → Outcome
unfolding methods_of enter
call_object_method vm f fs name r args s = elim (methods_of vm r) [
  | err e ↦ raised e vm.output_buffer
  | ok (class_name, methods) ↦ elim (lookup name methods) [
    | some m ↦ enter vm (record f { stack = s }) fs m args (insert "self" (object r) []) false
    | none ↦ raised (no_method name class_name) vm.output_buffer
  ]
]

-- `obj.fields.get(arg)`
unfoldable pub get_field : Machine → ℕ → String → Value
get_field vm r name = elim (get_elem? vm.heap r) [
  | none ↦ none_value
  | some o ↦ elim (lookup name o.fields) [ none ↦ none_value | some v ↦ v ]
]

-- `obj.fields[arg] = val`
unfoldable pub set_field : Machine → ℕ → String → Value → Machine
set_field vm r name v = elim (get_elem? vm.heap r) [
  | none ↦ vm
  | some o ↦ record vm { heap = set vm.heap r (record o { fields = insert name v o.fields }) }
]

-- `obj = frame.stack.pop()` where the machine insists on an object.
abbrev pub as_object : Machine → Value → (ℕ → Outcome) → Outcome
as_object vm (object r) k = k r
as_object vm v k = raised not_object vm.output_buffer

-- RETURN_VALUE: `f` is gone already, and `fs` are the frames that are left.
unfoldable pub return_to : Machine → Frame → List Frame → Value → Outcome
return_to vm f [] v = finished v (record vm { frames = [] })
return_to vm f (g ∷ fs) v =
    if f.is_constructor
    then running (with_frames vm g fs)
    else running (with_frames vm (record g { stack = v ∷ g.stack }) fs)

-- `" ".join(str(v) for v in args)`
unfoldable pub join_values : Host → List Object → List Value → String
join_values host heap [] = ""
join_values host heap (v ∷ []) = text_of host heap v
join_values host heap (v ∷ w ∷ vs) =
    text_of host heap v +++ (" " +++ join_values host heap (w ∷ vs))

abbrev pub with_args :
    Machine → Option (List Value × List Value) → (List Value → List Value → Outcome) → Outcome
with_args vm none k = raised stack_empty vm.output_buffer
with_args vm (some (args, s)) k = k args s

-- The interpreter's if-chain on the opcode, in frame `f`, whose ip is past the instruction.
unfoldable pub dispatch : Host → Machine → Frame → List Frame → Instr → Outcome
unfolding load_name call_value call_object_method get_field set_field return_to join_values
dispatch host vm f fs (load_const v) = push_stack vm f fs (v ∷ f.stack)
dispatch host vm f fs (store_fast x) =
    pop_one vm f.stack
      λ v s. running (with_frames vm (record f { stack = s; locals = insert x v f.locals }) fs)
dispatch host vm f fs (load_fast x) = push_stack vm f fs (load_name vm f x ∷ f.stack)
dispatch host vm f fs (store_global x) =
    pop_one vm f.stack λ v s. push_stack (record vm { globals = insert x v vm.globals }) f fs s
dispatch host vm f fs (load_global x) = push_stack vm f fs (load_global_name vm x ∷ f.stack)
dispatch host vm f fs binary_add =
    pop_two vm f.stack λ a b s. push_result vm f fs s (add_values host vm.heap a b)
dispatch host vm f fs binary_sub =
    pop_two vm f.stack λ a b s. push_result vm f fs s (arith_values host sub a b)
dispatch host vm f fs binary_mul =
    pop_two vm f.stack λ a b s. push_result vm f fs s (mul_values host a b)
dispatch host vm f fs binary_div =
    pop_two vm f.stack λ a b s. push_result vm f fs s (arith_values host floor a b)
dispatch host vm f fs (compare_op op) =
    pop_two vm f.stack λ a b s. push_result vm f fs s (compare_values host op a b)
dispatch host vm f fs (jump_if_false n) = pop_one vm f.stack λ v s.
    running (with_frames vm (record f { stack = s; ip = if truthy host v then f.ip else n }) fs)
dispatch host vm f fs (jump n) = running (with_frames vm (record f { ip = n }) fs)
dispatch host vm f fs (call_function n) =
    pop_one vm f.stack
      λ callee s. with_args vm (pop_args n [] s) λ args s'. call_value vm f fs callee args s'
dispatch host vm f fs (call_method name n) = pop_one vm f.stack λ v s.
    as_object vm v
      λ r. with_args vm (pop_args n [] s) λ args s'. call_object_method vm f fs name r args s'
dispatch host vm f fs (load_attr name) =
    pop_one vm f.stack λ v s. as_object vm v λ r. push_stack vm f fs (get_field vm r name ∷ s)
dispatch host vm f fs (store_attr name) =
    pop_two vm f.stack λ w v s. as_object vm v λ r. push_stack (set_field vm r name w) f fs s
dispatch host vm f fs return_value = pop_one vm f.stack λ v s. return_to vm f fs v
dispatch host vm f fs (print n) = with_args vm (pop_args n [] f.stack) λ args s.
    push_stack
      (record vm { output_buffer = vm.output_buffer ++ join_values host vm.heap args ∷ [] }) f fs s
dispatch host vm f fs halt = finished none_value (with_frames vm f fs)

-- `frame.ip >= len(frame.instructions)` pops the frame. With no frame left the loop ends.
unfoldable pub step_frame : Host → Machine → Frame → List Frame → Outcome
unfolding dispatch
step_frame host vm f fs = elim (get_elem? f.instructions f.ip) [
  | none ↦ running (record vm { frames = fs })
  | some i ↦ dispatch host vm (record f { ip = suc f.ip }) fs i
]

abbrev pub step_frames : Host → Machine → List Frame → Outcome
step_frames host vm [] = finished none_value vm
step_frames host vm (f ∷ fs) = step_frame host vm f fs

unfoldable pub step : Host → Machine → Outcome
unfolding step_frame
step host vm = step_frames host vm vm.frames

-- The loop, at most `fuel` rounds of it: `running` where they do not suffice.
unfoldable pub run : Host → ℕ → Machine → Outcome
unfolding step
run host zero vm = running vm
run host (suc fuel) vm = elim (step host vm) [
  | running vm' ↦ run host fuel vm'
  | finished v vm' ↦ finished v vm'
  | raised e out ↦ raised e out
]

abbrev pub main_frame : Code → Frame
main_frame code = record {
  instructions = code;
  ip = 0;
  locals = [];
  stack = [];
  is_constructor = false;
}

-- A fresh `BBVM` that has loaded the bytecode.
abbrev pub load : Bytecode → Machine
load b = record {
  globals = [];
  functions = b.functions;
  contracts = b.contracts;
  frames = main_frame b.main_code ∷ [];
  output_buffer = [];
  heap = [];
}

unfoldable pub execute : Host → ℕ → Bytecode → Outcome
unfolding run
execute host fuel b = elim b.main_code [
  | [] ↦ finished none_value (record (load b) { frames = [] })
  | _ ∷ _ ↦ run host fuel (load b)
]

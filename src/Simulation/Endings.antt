-- ===== src/Simulation/Endings.antt =====
-- The premises of the specification, in the terms of the compiler and the machine.
use text.Mathlib.TextEquality.{eq_iff}
use baybayin_language.Base.{
  ℕ, ◌+◌, String, ◌≡◌, refl, ap, ◌+++◌, sym, ◌∙◌, subst, Bool, true, false, Bool-cases, inl, inr,
  Option, none, some, List, [], ◌∷◌, ◌++◌, append_assoc, append-nil, get_last?-append_one,
  if◌then◌else◌, str_eq, mem_name, length, arith, Dict, insert,
}
use baybayin_language.Ast.{
  Literal, numero, decimal, teksto, kondisyon, wala, Expr, literal, identifier, member, call, unary,
  binary, assign, BinaryOp, UnaryOp, bang, minus, Stmt, contract_decl, func_decl, var_decl, block,
  if_stmt, while_stmt, return_stmt, expr_stmt, Block, end, seq, Else, no_else, else_block, else_if,
  Members, no_members, field, method,
}
use baybayin_language.Bytecode.{
  Value, literal_value, Instr, Code, return_value, jump_if_false, jump,
}
use baybayin_language.VmCompiler.{wants_return, binary_instr, contract_fields, field_default}
use baybayin_language.VmCompiler.Layout.{
  expr_code, args_code, load_code, store_code, unary_code, named_call_code, optional_code,
  stmt_code, block_code, else_code, if_else_code,
}
use baybayin_language.Vm.{bind_params, join_values}
use baybayin_language.Vm.Operators.{Object, Host, text_of, truthy}
use baybayin_language.Semantics.{
  Line, no_text, last_text, next_text, Binds, p_done, p_next, Truth, t_none, t_bool, t_zero,
  t_positive, t_negative, t_float, t_empty, t_text, t_object, Ending, nothing, a_return,
  something_else, followed_by, of_branch, ending_expr, ending_stmt, ending_block, ending_else,
  runs_off, default_value, denoted, class_defaults,
}

pub Binds-bind_params :
    {ps : List String} {vs : List Value} {locals locals' : Dict Value}
    → Binds ps vs locals locals'
    → bind_params ps vs locals ≡ some locals'
unfolding bind_params
Binds-bind_params p_done = refl
Binds-bind_params (p_next b) = Binds-bind_params b

pub Line-join_values :
    {host : Host} {heap : List Object} {vs : List Value} {s : String}
    → Line host heap vs s
    → join_values host heap vs ≡ s
unfolding join_values
Line-join_values no_text = refl
Line-join_values last_text = refl
Line-join_values {host} {heap} (next_text {v} h) =
    ap (λ s. text_of host heap v +++ (" " +++ s)) (Line-join_values h)

pub Truth-truthy : {host : Host} {v : Value} {b : Bool} → Truth host v b → truthy host v ≡ b
unfolding truthy
Truth-truthy t_none = refl
Truth-truthy t_bool = refl
Truth-truthy t_zero = refl
Truth-truthy (t_positive {n}) = ground arith
Truth-truthy (t_negative {n}) = ground arith
Truth-truthy t_float = refl
Truth-truthy t_empty = refl
Truth-truthy (t_text {s} h) = elim (Bool-cases (str_eq s "")) [
  | inl e ↦ absurd (h ((eq_iff s "").0 e))
  | inr e ↦ rw e
]
Truth-truthy t_object = refl

pub denoted-eq : (l : Literal) → literal_value l ≡ denoted l
denoted-eq (numero n) = refl
denoted-eq (decimal x) = refl
denoted-eq (teksto s) = refl
denoted-eq (kondisyon b) = refl
denoted-eq wala = refl

default_value-eq : (e : Option Expr) → field_default e ≡ default_value e
unfolding field_default default_value
default_value-eq none = refl
default_value-eq (some (literal l)) = denoted-eq l
default_value-eq (some (identifier x)) = refl
default_value-eq (some (member e x)) = refl
default_value-eq (some (call c es)) = refl
default_value-eq (some (unary op e)) = refl
default_value-eq (some (binary l op r)) = refl
default_value-eq (some (assign t e)) = refl

pub class_defaults-eq :
    (defaults : Dict Value) (ms : Members)
    → contract_fields defaults ms ≡ class_defaults defaults ms
unfolding contract_fields class_defaults
class_defaults-eq defaults no_members = refl
class_defaults-eq defaults (method s b ms) = class_defaults-eq defaults ms
class_defaults-eq defaults (field d ms) =
    rw (default_value-eq d.initializer)
      (class_defaults-eq (insert d.name (default_value d.initializer) defaults) ms)

-- Code with its end.
data Ends : Ending → Code → Type 0 where
  ends_nothing : Ends nothing []
  ends_return : (pre : Code) → Ends a_return (pre ++ return_value ∷ [])
  ends_else :
      (pre : Code) (i : Instr) → wants_return (i ∷ []) ≡ true → Ends something_else (pre ++ i ∷ [])

Ends-followed :
    {e e' : Ending} {xs ys : Code} → Ends e xs → Ends e' ys → Ends (followed_by e e') (xs ++ ys)
Ends-followed {e} {xs = xs} x ends_nothing = subst (λ c. Ends e c) (sym (append-nil xs)) x
Ends-followed {xs = xs} x (ends_return pre) =
    subst (λ c. Ends a_return c) (append_assoc xs pre (return_value ∷ [])) (ends_return (xs ++ pre))
Ends-followed {xs = xs} x (ends_else pre i h) =
    subst (λ c. Ends something_else c) (append_assoc xs pre (i ∷ [])) (ends_else (xs ++ pre) i h)

-- What stands behind a jump.
Ends-jump :
    {e : Ending} (xs : Code) (i : Instr) {ys : Code}
    → wants_return (i ∷ []) ≡ true
    → Ends e ys
    → Ends (of_branch e) (xs ++ i ∷ ys)
Ends-jump xs i h ends_nothing = ends_else xs i h
Ends-jump xs i h (ends_return pre) =
    subst (λ c. Ends a_return c) (append_assoc xs (i ∷ pre) (return_value ∷ []))
      (ends_return (xs ++ i ∷ pre))
Ends-jump xs i h (ends_else pre j h') =
    subst (λ c. Ends something_else c) (append_assoc xs (i ∷ pre) (j ∷ []))
      (ends_else (xs ++ i ∷ pre) j h')

of_branch-twice : (e : Ending) → of_branch (of_branch e) ≡ of_branch e
of_branch-twice nothing = refl
of_branch-twice a_return = refl
of_branch-twice something_else = refl

ending_else-branch : (t : Ending) (e : Else) → of_branch (ending_else t e) ≡ ending_else t e
unfolding ending_else
ending_else-branch t no_else = of_branch-twice t
ending_else-branch t (else_block b) = of_branch-twice (ending_block b)
ending_else-branch t (else_if c u e) = ending_else-branch (ending_block u) e

if_else-Ends :
    (tested : Code) (start : ℕ) (taken other : Code) {e e' : Ending}
    → Ends e other
    → of_branch e ≡ e'
    → Ends e' (if_else_code tested start taken other)
unfolding wants_return
if_else-Ends tested start taken other {e} x same =
    let last = start + length taken + 1 in
    subst (λ k. Ends k (if_else_code tested start taken other)) (of_branch-twice e ∙ same)
      (Ends-jump tested (jump_if_false last) refl
        (Ends-jump taken (jump (last + length other)) refl x))

Ends-wants_return : {e : Ending} {code : Code} → Ends e code → wants_return code ≡ runs_off e
unfolding wants_return
Ends-wants_return ends_nothing = refl
Ends-wants_return (ends_return pre) = rw (wants_return, get_last?-append_one pre return_value)
Ends-wants_return (ends_else pre i h) = rw (wants_return, get_last?-append_one pre i) h

behind : (xs : Code) {ys : Code} → Ends something_else ys → Ends something_else (xs ++ ys)
behind xs (ends_else pre i h) =
    subst (λ c. Ends something_else c) (append_assoc xs pre (i ∷ [])) (ends_else (xs ++ pre) i h)

choose :
    (b : Bool) {xs ys : Code}
    → Ends something_else xs
    → Ends something_else ys
    → Ends something_else (if b then xs else ys)
choose true x y = x
choose false x y = y

module _ (fields : List String) where
  unary-Ends : (op : UnaryOp) → Ends something_else (unary_code op)
  unfolding wants_return
  unary-Ends bang = ends_else (_ ∷ []) _ refl
  unary-Ends minus = ends_else (_ ∷ []) _ refl

  binary-Ends : (op : BinaryOp) → Ends something_else (binary_instr op ∷ [])
  unfolding wants_return
  binary-Ends BinaryOp.add = ends_else [] _ refl
  binary-Ends BinaryOp.sub = ends_else [] _ refl
  binary-Ends BinaryOp.mul = ends_else [] _ refl
  binary-Ends BinaryOp.div = ends_else [] _ refl
  binary-Ends BinaryOp.lt = ends_else [] _ refl
  binary-Ends BinaryOp.gt = ends_else [] _ refl
  binary-Ends BinaryOp.le = ends_else [] _ refl
  binary-Ends BinaryOp.ge = ends_else [] _ refl
  binary-Ends BinaryOp.eq = ends_else [] _ refl
  binary-Ends BinaryOp.ne = ends_else [] _ refl

  load-Ends : (x : String) → Ends something_else (load_code fields x)
  unfolding wants_return
  load-Ends x = choose (mem_name x fields) (ends_else (_ ∷ []) _ refl) (ends_else [] _ refl)

  store-Ends : (x : String) → Ends something_else (store_code fields x)
  unfolding wants_return
  store-Ends x = choose (mem_name x fields) (ends_else (_ ∷ []) _ refl) (ends_else [] _ refl)

  named_call-Ends : (x : String) (n : ℕ) → Ends something_else (named_call_code x n)
  unfolding wants_return
  named_call-Ends x n =
      choose (str_eq x "ipakita") (ends_else [] _ refl) (ends_else (_ ∷ []) _ refl)

  -- No expression ends in a return instruction.
  expr-Ends : (e : Expr) → Ends (ending_expr e) (expr_code fields e)
  unfolding expr_code wants_return
  expr-Ends (literal l) = ends_else [] _ refl
  expr-Ends (identifier x) = load-Ends x
  expr-Ends (member e x) = ends_else (expr_code fields e) _ refl
  expr-Ends (unary op e) = behind (expr_code fields e) (unary-Ends op)
  expr-Ends (binary l op r) =
      behind (expr_code fields l) (behind (expr_code fields r) (binary-Ends op))
  expr-Ends (call (identifier x) args) = behind (args_code fields args) (named_call-Ends x _)
  expr-Ends (call (member e x) args) =
      behind (args_code fields args) (ends_else (expr_code fields e) _ refl)
  expr-Ends (call (literal l) args) =
      behind (args_code fields args) (ends_else (expr_code fields (literal l)) _ refl)
  expr-Ends (call (call c es) args) =
      behind (args_code fields args) (ends_else (expr_code fields (call c es)) _ refl)
  expr-Ends (call (unary op e) args) =
      behind (args_code fields args) (ends_else (expr_code fields (unary op e)) _ refl)
  expr-Ends (call (binary l op r) args) =
      behind (args_code fields args) (ends_else (expr_code fields (binary l op r)) _ refl)
  expr-Ends (call (assign t e) args) =
      behind (args_code fields args) (ends_else (expr_code fields (assign t e)) _ refl)
  expr-Ends (assign (identifier x) e) = behind (expr_code fields e) (store-Ends x)
  expr-Ends (assign (member t x) e) =
      behind (expr_code fields e) (ends_else (expr_code fields t) _ refl)
  expr-Ends (assign (literal l) e) = ends_nothing
  expr-Ends (assign (call c es) e) = ends_nothing
  expr-Ends (assign (unary op t) e) = ends_nothing
  expr-Ends (assign (binary l op r) e) = ends_nothing
  expr-Ends (assign (assign t o) e) = ends_nothing

  mutual
    unfolding stmt_code ending_stmt wants_return

    stmt-Ends : (o : ℕ) (s : Stmt) → Ends (ending_stmt s) (stmt_code fields o s)
    stmt-Ends o (contract_decl x ms) = ends_nothing
    stmt-Ends o (func_decl s b) = ends_nothing
    stmt-Ends o (var_decl d) = ends_else (optional_code fields d.initializer) _ refl
    stmt-Ends o (block b) = block-Ends o b
    stmt-Ends o (if_stmt c t e) =
        else-Ends (expr_code fields c) (o + length (expr_code fields c) + 1)
          (block-Ends (o + length (expr_code fields c) + 1) t) e
    stmt-Ends o (while_stmt c b) =
        let body = block_code fields (o + length (expr_code fields c) + 1) b in
        behind (expr_code fields c) (ends_else (_ ∷ body) _ refl)
    stmt-Ends o (return_stmt e) = ends_return (optional_code fields e)
    stmt-Ends o (expr_stmt e) = expr-Ends e

    block-Ends : (o : ℕ) (b : Block) → Ends (ending_block b) (block_code fields o b)
    block-Ends o end = ends_nothing
    block-Ends o (seq s b) = Ends-followed (stmt-Ends o s) (block-Ends _ b)

    else-Ends :
        (tested : Code) (start : ℕ) {ending : Ending} {taken : Code}
        → Ends ending taken
        → (e : Else) → Ends (ending_else ending e) (else_code fields tested start taken e)
    else-Ends tested start t no_else = Ends-jump tested _ refl t
    else-Ends tested start {taken = taken} t (else_block b) =
        if_else-Ends tested start taken _ (block-Ends (start + length taken + 1) b) refl
    else-Ends tested start {taken = taken} t (else_if c u e) =
        let next = start + length taken + 1 + length (expr_code fields c) + 1 in
        if_else-Ends tested start taken _
          (else-Ends (expr_code fields c) next (block-Ends next u) e)
          (ending_else-branch (ending_block u) e)

  -- The compiler adds a return instruction to the bodies that run off their end, and to no others.
  pub body-wants_return :
      (b : Block) → wants_return (block_code fields 0 b) ≡ runs_off (ending_block b)
  body-wants_return b = Ends-wants_return (block-Ends 0 b)

-- ===== src/VmCompiler/Straight.antt =====
-- compiler/vm_compiler.py: the targets of jumps; expressions hold none.
use baybayin_language.Base.{
  ℕ, ◌≤◌, String, Bool, true, false, Option, none, some, List, [], ◌∷◌, ◌++◌, if◌then◌else◌, str_eq,
  mem_name,
}
use baybayin_language.Ast.{
  Expr, literal, identifier, member, call, unary, binary, assign, Exprs, no_args, arg, BinaryOp,
  UnaryOp, bang, minus,
}
use baybayin_language.Bytecode.{Instr, jump_if_false, jump, Code}
use baybayin_language.VmCompiler.{binary_instr}
use baybayin_language.VmCompiler.Layout.{unary_code, expr_code, args_code, optional_code}

-- Where an instruction jumps to.
abbrev pub target : Instr → Option ℕ
target (jump_if_false n) = some n
target (jump n) = some n
target _ = none

abbrev pub Bounded : ℕ → ℕ → Option ℕ → Type 0
Bounded lo hi none = Unit {0}
Bounded lo hi (some n) = (lo ≤ n) × (n ≤ hi)

-- Every jump goes to an index from `lo` to `hi`.
abbrev pub JumpsIn : ℕ → ℕ → Code → Type 0
JumpsIn lo hi [] = Unit {0}
JumpsIn lo hi (i ∷ is) = Bounded lo hi (target i) × JumpsIn lo hi is

module _ (lo hi : ℕ) where
  pub append-JumpsIn :
      (xs ys : Code) → JumpsIn lo hi xs → JumpsIn lo hi ys → JumpsIn lo hi (xs ++ ys)
  append-JumpsIn [] ys h k = k
  append-JumpsIn (x ∷ xs) ys (h, hs) k = (h, append-JumpsIn xs ys hs k)

  choose-JumpsIn :
      (b : Bool) (xs ys : Code)
      → JumpsIn lo hi xs
      → JumpsIn lo hi ys
      → JumpsIn lo hi (if b then xs else ys)
  choose-JumpsIn true xs ys h k = h
  choose-JumpsIn false xs ys h k = k

  binary-Bounded : (op : BinaryOp) → Bounded lo hi (target (binary_instr op))
  binary-Bounded BinaryOp.add = tt
  binary-Bounded BinaryOp.sub = tt
  binary-Bounded BinaryOp.mul = tt
  binary-Bounded BinaryOp.div = tt
  binary-Bounded BinaryOp.lt = tt
  binary-Bounded BinaryOp.gt = tt
  binary-Bounded BinaryOp.le = tt
  binary-Bounded BinaryOp.ge = tt
  binary-Bounded BinaryOp.eq = tt
  binary-Bounded BinaryOp.ne = tt

  unary-JumpsIn : (op : UnaryOp) → JumpsIn lo hi (unary_code op)
  unary-JumpsIn bang = (tt, (tt, tt))
  unary-JumpsIn minus = (tt, (tt, tt))

  -- Expressions hold no jumps.
  mutual
    unfolding expr_code

    pub expr-JumpsIn : (fields : List String) (e : Expr) → JumpsIn lo hi (expr_code fields e)
    expr-JumpsIn fields (literal l) = (tt, tt)
    expr-JumpsIn fields (identifier x) =
        choose-JumpsIn (mem_name x fields) _ _ (tt, (tt, tt)) (tt, tt)
    expr-JumpsIn fields (member e x) =
        append-JumpsIn (expr_code fields e) _ (expr-JumpsIn fields e) (tt, tt)
    expr-JumpsIn fields (unary op e) =
        append-JumpsIn (expr_code fields e) _ (expr-JumpsIn fields e) (unary-JumpsIn op)
    expr-JumpsIn fields (binary l op r) =
        append-JumpsIn (expr_code fields l) _ (expr-JumpsIn fields l)
          (append-JumpsIn (expr_code fields r) _ (expr-JumpsIn fields r) (binary-Bounded op, tt))
    expr-JumpsIn fields (call (identifier x) args) =
        append-JumpsIn (args_code fields args) _ (args-JumpsIn fields args)
          (choose-JumpsIn (str_eq x "ipakita") _ _ (tt, tt) (tt, (tt, tt)))
    expr-JumpsIn fields (call (member e x) args) =
        append-JumpsIn (args_code fields args) _ (args-JumpsIn fields args)
          (append-JumpsIn (expr_code fields e) _ (expr-JumpsIn fields e) (tt, tt))
    expr-JumpsIn fields (call (literal l) args) =
        append-JumpsIn (args_code fields args) _ (args-JumpsIn fields args) (tt, (tt, tt))
    expr-JumpsIn fields (call (call c es) args) =
        append-JumpsIn (args_code fields args) _ (args-JumpsIn fields args) (
          append-JumpsIn (expr_code fields (call c es)) _ (expr-JumpsIn fields (call c es))
            (tt, tt))
    expr-JumpsIn fields (call (unary op e) args) =
        append-JumpsIn (args_code fields args) _ (args-JumpsIn fields args) (
          append-JumpsIn (expr_code fields (unary op e)) _ (expr-JumpsIn fields (unary op e))
            (tt, tt))
    expr-JumpsIn fields (call (binary l op r) args) =
        append-JumpsIn (args_code fields args) _ (args-JumpsIn fields args) (
          append-JumpsIn (expr_code fields (binary l op r)) _ (expr-JumpsIn fields (binary l op r))
            (tt, tt))
    expr-JumpsIn fields (call (assign t e) args) =
        append-JumpsIn (args_code fields args) _ (args-JumpsIn fields args) (
          append-JumpsIn (expr_code fields (assign t e)) _ (expr-JumpsIn fields (assign t e))
            (tt, tt))
    expr-JumpsIn fields (assign (identifier x) e) =
        append-JumpsIn (expr_code fields e) _ (expr-JumpsIn fields e)
          (choose-JumpsIn (mem_name x fields) _ _ (tt, (tt, tt)) (tt, tt))
    expr-JumpsIn fields (assign (member t x) e) =
        append-JumpsIn (expr_code fields e) _ (expr-JumpsIn fields e)
          (append-JumpsIn (expr_code fields t) _ (expr-JumpsIn fields t) (tt, tt))
    expr-JumpsIn fields (assign (literal l) e) = tt
    expr-JumpsIn fields (assign (call c es) e) = tt
    expr-JumpsIn fields (assign (unary op t) e) = tt
    expr-JumpsIn fields (assign (binary l op r) e) = tt
    expr-JumpsIn fields (assign (assign t o) e) = tt

    args-JumpsIn : (fields : List String) (es : Exprs) → JumpsIn lo hi (args_code fields es)
    args-JumpsIn fields no_args = tt
    args-JumpsIn fields (arg e es) =
        append-JumpsIn (expr_code fields e) _ (expr-JumpsIn fields e) (args-JumpsIn fields es)

  pub optional-JumpsIn :
      (fields : List String) (e : Option Expr) → JumpsIn lo hi (optional_code fields e)
  optional-JumpsIn fields none = (tt, tt)
  optional-JumpsIn fields (some e) = expr-JumpsIn fields e

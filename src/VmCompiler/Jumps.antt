-- ===== src/VmCompiler/Jumps.antt =====
-- compiler/vm_compiler.py: the targets of the jumps lie inside the code.
use baybayin_language.Base.{
  ℕ, ◌+◌, ◌≤◌, String, Option, none, some, List, [], ◌∷◌, ◌++◌, length, length-append, arith,
}
use baybayin_language.Ast.{
  Stmt, contract_decl, func_decl, var_decl, block, if_stmt, while_stmt, return_stmt, expr_stmt,
  Block, end, seq, Else, no_else, else_block, else_if,
}
use baybayin_language.Bytecode.{jump_if_false, jump, Code}
use baybayin_language.VmCompiler.Layout.{
  expr_code, optional_code, if_code, if_else_code, while_code, stmt_code, block_code, else_code,
}
use baybayin_language.VmCompiler.Straight.{
  target, Bounded, JumpsIn, append-JumpsIn, expr-JumpsIn, optional-JumpsIn,
}

widen-Bounded :
    (lo hi lo' hi' : ℕ) (o : Option ℕ) → lo' ≤ lo → hi ≤ hi' → Bounded lo hi o → Bounded lo' hi' o
widen-Bounded lo hi lo' hi' none low high h = tt
widen-Bounded lo hi lo' hi' (some n) low high (h, k) = (omega arith, omega arith)

pub widen :
    (lo hi lo' hi' : ℕ) (code : Code)
    → lo' ≤ lo
    → hi ≤ hi'
    → JumpsIn lo hi code
    → JumpsIn lo' hi' code
widen lo hi lo' hi' [] low high h = tt
widen lo hi lo' hi' (i ∷ is) low high (h, hs) =
    (widen-Bounded lo hi lo' hi' (target i) low high h, widen lo hi lo' hi' is low high hs)

-- Code that stands at `o` and jumps within itself, or to just behind itself.
abbrev pub Local : ℕ → Code → Type 0
Local o code = JumpsIn o (o + length code) code

-- Code without jumps.
abbrev Straight : Code → Type 0
Straight code = (lo hi : ℕ) → JumpsIn lo hi code

if-Local :
    (o : ℕ) (tested taken : Code)
    → Straight tested
    → Local (o + length tested + 1) taken
    → Local o (if_code tested (o + length tested + 1) taken)
if-Local o tested taken straight inner =
    let start = o + length tested + 1 in
    let size = length-append tested (jump_if_false (start + length taken) ∷ taken) in
    let hi = o + length (if_code tested start taken) in
    append-JumpsIn o hi tested _ (straight o hi) (
      (omega arith, omega (arith, size)),
      widen start (start + length taken) o hi taken (omega arith) (omega (arith, size)) inner,
    )

if_else-Local :
    (o : ℕ) (tested taken other : Code)
    → Straight tested
    → Local (o + length tested + 1) taken
    → Local (o + length tested + 1 + length taken + 1) other
    → Local o (if_else_code tested (o + length tested + 1) taken other)
if_else-Local o tested taken other straight inner outer =
    let start = o + length tested + 1 in
    let next = start + length taken + 1 in
    let rest = jump (next + length other) ∷ other in
    let size = length-append tested (jump_if_false next ∷ (taken ++ rest)) in
    let size' = length-append taken rest in
    let hi = o + length (if_else_code tested start taken other) in
    append-JumpsIn o hi tested _ (straight o hi) (
      (omega arith, omega (arith, size, size')),
      append-JumpsIn o hi taken rest
          (widen start (start + length taken) o hi taken (omega arith) (omega (arith, size, size'))
            inner)
          (
            (omega arith, omega (arith, size, size')),
            widen next (next + length other) o hi other (omega arith) (omega (arith, size, size'))
                outer,
          ),
    )

while-Local :
    (o : ℕ) (tested body : Code)
    → Straight tested
    → Local (o + length tested + 1) body
    → Local o (while_code o tested body)
while-Local o tested body straight inner =
    let start = o + length tested + 1 in
    let rest = jump o ∷ [] in
    let size =
      length-append tested (jump_if_false (o + length tested + length body + 2) ∷ (body ++ rest)) in
    let size' = length-append body rest in
    let hi = o + length (while_code o tested body) in
    append-JumpsIn o hi tested _ (straight o hi) (
      (omega arith, omega (arith, size, size')),
      append-JumpsIn o hi body rest
          (widen start (start + length body) o hi body (omega arith) (omega (arith, size, size'))
            inner)
          ((omega arith, omega arith), tt),
    )

mutual
  unfolding stmt_code

  stmt-Local : (fields : List String) (o : ℕ) (s : Stmt) → Local o (stmt_code fields o s)
  stmt-Local fields o (contract_decl x ms) = tt
  stmt-Local fields o (func_decl s b) = tt
  stmt-Local fields o (var_decl d) =
      append-JumpsIn o _ (optional_code fields d.initializer) _
        (optional-JumpsIn o _ fields d.initializer) (tt, tt)
  stmt-Local fields o (block b) = block-Local fields o b
  stmt-Local fields o (if_stmt c t e) =
      else-Local fields o (expr_code fields c) t e (λ lo hi. expr-JumpsIn lo hi fields c)
        (block-Local fields (o + length (expr_code fields c) + 1) t)
  stmt-Local fields o (while_stmt c b) =
      while-Local o (expr_code fields c) _ (λ lo hi. expr-JumpsIn lo hi fields c)
        (block-Local fields (o + length (expr_code fields c) + 1) b)
  stmt-Local fields o (return_stmt e) =
      append-JumpsIn o _ (optional_code fields e) _ (optional-JumpsIn o _ fields e) (tt, tt)
  stmt-Local fields o (expr_stmt e) = expr-JumpsIn o _ fields e

  pub block-Local : (fields : List String) (o : ℕ) (b : Block) → Local o (block_code fields o b)
  block-Local fields o end = tt
  block-Local fields o (seq s b) =
      let first = stmt_code fields o s in
      let rest = block_code fields (o + length first) b in
      let size = length-append first rest in
      let hi = o + length (first ++ rest) in
      append-JumpsIn o hi first rest
        (widen o (o + length first) o hi first (omega arith) (omega (arith, size))
          (stmt-Local fields o s))
        (widen (o + length first) (o + length first + length rest) o hi rest (omega arith)
          (omega (arith, size)) (block-Local fields (o + length first) b))

  else-Local :
      (fields : List String) (o : ℕ) (tested : Code) (t : Block) (e : Else)
      → Straight tested
      → Local (o + length tested + 1) (block_code fields (o + length tested + 1) t)
      → Local o (
          else_code fields tested
            (o + length tested + 1)
            (block_code fields (o + length tested + 1) t)
            e)
  else-Local fields o tested t no_else straight inner = if-Local o tested _ straight inner
  else-Local fields o tested t (else_block b) straight inner =
      if_else-Local o tested _ _ straight inner (block-Local fields _ b)
  else-Local fields o tested t (else_if c u e) straight inner =
      let taken = block_code fields (o + length tested + 1) t in
      let next = o + length tested + 1 + length taken + 1 in
      if_else-Local o tested taken _ straight inner (
        else-Local fields next (expr_code fields c) u e (λ lo hi. expr-JumpsIn lo hi fields c)
          (block-Local fields (next + length (expr_code fields c) + 1) u))

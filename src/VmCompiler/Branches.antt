-- ===== src/VmCompiler/Branches.antt =====
-- compiler/vm_compiler.py: the patched jumps of visit_if_stmt and visit_while_stmt.
use baybayin_language.Base.{
  ℕ, ◌+◌, String, ◌≡◌, sym, none, some, List, [], ◌∷◌, ◌++◌, append_assoc, append-nil, length,
  length-append, get_elem?-append_mid, set-append_mid, arith,
}
use baybayin_language.Ast.{Expr}
use baybayin_language.Bytecode.{Instr, jump_if_false, jump, Code}
use baybayin_language.VmCompiler.{
  emit, patch, with_target, visit_expr, visit_if_stmt, visit_while_stmt,
}
use baybayin_language.VmCompiler.Layout.{expr_code, if_code, if_else_code, while_code}
use baybayin_language.VmCompiler.Emitted.{visit_expr-append}

patch-append_mid :
    (code : Code) (i : Instr) (more : Code) (target : ℕ)
    → patch (code ++ i ∷ more) (length code) target ≡ code ++ with_target target i ∷ more
unfolding patch
patch-append_mid code i more target =
    rw (get_elem?-append_mid code i more, patch) (set-append_mid code i more (with_target target i))

-- A patch of an instruction that was emitted behind `code`, with `more` emitted since.
pub patch-emit :
    (code : Code) (i : Instr) (more : Code) (target : ℕ)
    → patch (emit code i ++ more) (length code) target ≡ code ++ with_target target i ∷ more
unfolding patch emit
patch-emit code i more target =
    let whole = append_assoc code (i ∷ []) more in rw whole (patch-append_mid code i more target)

-- A visit appends the code that `layout` has for its place.
abbrev pub Appends : (Code → Code) → (ℕ → Code) → Type 0
Appends visit layout = (c : Code) → visit c ≡ c ++ layout (length c)

length-emit :
    (code : Code) (i : Instr) (more : Code)
    → length (emit code i ++ more) ≡ length code + 1 + length more
unfolding emit
length-emit code i more =
    omega (arith, length-append (code ++ i ∷ []) more, length-append code (i ∷ []))

emit_behind : (code more : Code) (i : Instr) → emit (code ++ more) i ≡ code ++ (more ++ i ∷ [])
unfolding emit
emit_behind code more i = append_assoc code more (i ∷ [])

-- `tested` ends with the test, `taken` is the branch behind it and `last` what was emitted last.
module _ (tested taken : Code) (last : Instr) where
  abbrev branch : Code
  branch = emit tested (jump_if_false 0) ++ taken

  abbrev over : ℕ
  over = length tested + 1 + length taken + 1

  length-branch_end : length (emit branch last) ≡ over
  length-branch_end = rw emit_behind (
      omega (
        arith,
        length-emit tested (jump_if_false 0) (taken ++ last ∷ []),
        length-append taken (last ∷ []),
      ))

  patch_test :
      patch (emit branch last) (length tested) (length (emit branch last))
      ≡ tested ++ jump_if_false over ∷ (taken ++ last ∷ [])
  patch_test = rw (length-branch_end, emit_behind, patch-emit)

-- A patch of the jump that ends `front`, when `more` is there.
patch_last :
    (front more done : Code)
    → done ≡ emit front (jump 0) ++ more
    → patch done (length front) (length done)
      ≡ front ++ jump (length front + 1 + length more) ∷ more
patch_last front more done e = rw (e, length-emit, patch-emit)

-- The jump behind the branch, patched when the other branch is there.
module _ (tested taken : Code) (visit_other : Code → Code) (other : ℕ → Code) where
  abbrev next : ℕ
  next = over tested taken (jump 0)

  abbrev front : Code
  front = tested ++ jump_if_false next ∷ taken

  length-front : length front + 1 ≡ next
  length-front = omega (arith, length-append tested (jump_if_false next ∷ taken))

  front_lem : tested ++ jump_if_false next ∷ (taken ++ jump 0 ∷ []) ≡ emit front (jump 0)
  front_lem = sym (emit_behind tested (jump_if_false next ∷ taken) (jump 0))

  other_lem :
      Appends visit_other other
      → visit_other (emit front (jump 0)) ≡ emit front (jump 0) ++ other next
  other_lem k =
      let place : length (emit front (jump 0)) ≡ next =
        rw (← append-nil (emit front (jump 0)))
          (omega (arith, length-emit front (jump 0) [], length-front)) in
      rw (k, place)

  patch_jump :
      Appends visit_other other
      → let done = visit_other (tested ++ jump_if_false next ∷ (taken ++ jump 0 ∷ [])) in
        patch done (length (emit tested (jump_if_false 0) ++ taken)) (length done)
        ≡ tested ++ jump_if_false next ∷ (taken ++ jump (next + length (other next)) ∷ other next)
  patch_jump k =
      let place : length (emit tested (jump_if_false 0) ++ taken) ≡ length front =
        omega (arith, length-emit tested (jump_if_false 0) taken, length-front) in
      rw (front_lem, place, patch_last front (other next) _ (other_lem k), length-front)
        (append_assoc tested (jump_if_false next ∷ taken) _)

-- The visit of a branch behind its test, from the place where the branch starts.
module _ (fields : List String) (cond : Expr) (visit_then : Code → Code) (taken : ℕ → Code)
    (h : Appends visit_then taken) (code : Code) where
  abbrev start : ℕ
  start = length code + length (expr_code fields cond) + 1

  -- The code up to the test's end, and that of the branch.
  abbrev here : Code
  here = code ++ expr_code fields cond

  then_end_lem :
      visit_then (emit (visit_expr fields code cond) (jump_if_false 0))
      ≡ emit here (jump_if_false 0) ++ taken start
  unfolding emit
  then_end_lem =
      let place : length (emit here (jump_if_false 0)) ≡ start = omega (
        arith,
        length-append code (expr_code fields cond),
        length-append here (jump_if_false 0 ∷ []),
      ) in
      rw (visit_expr-append, h, place)

  then_end_length :
      length (emit here (jump_if_false 0) ++ taken start) ≡ start + length (taken start)
  then_end_length = omega (
    arith,
    length-emit here (jump_if_false 0) (taken start),
    length-append code (expr_code fields cond),
  )

  pub visit_if_stmt-none :
      visit_if_stmt fields cond visit_then none code
      ≡ code ++ if_code (expr_code fields cond) start (taken start)
  unfolding visit_if_stmt
  visit_if_stmt-none =
      rw (then_end_lem, visit_expr-append, then_end_length, patch-emit)
        (append_assoc code (expr_code fields cond) _)

  pub visit_if_stmt-some :
      (visit_other : Code → Code) (other : ℕ → Code)
      → Appends visit_other other
      → visit_if_stmt fields cond visit_then (some visit_other) code
        ≡ code
          ++ if_else_code
              (expr_code fields cond)
              start
              (taken start)
              (other (start + length (taken start) + 1))
  unfolding visit_if_stmt
  visit_if_stmt-some visit_other other k =
      let place : over here (taken start) (jump 0) ≡ start + length (taken start) + 1 =
        omega (arith, length-append code (expr_code fields cond)) in
      rw
        (
          then_end_lem,
          visit_expr-append,
          patch_test,
          patch_jump here (taken start) visit_other other k,
          place,
        )
        (append_assoc code (expr_code fields cond) _)

  pub visit_while_stmt_lem :
      visit_while_stmt fields cond visit_then code
      ≡ code ++ while_code (length code) (expr_code fields cond) (taken start)
  unfolding visit_while_stmt
  visit_while_stmt_lem =
      let place : over here (taken start) (jump (length code))
          ≡ length code + length (expr_code fields cond) + length (taken start) + 2 =
        omega (arith, length-append code (expr_code fields cond)) in
      rw (then_end_lem, visit_expr-append, patch_test, place)
        (append_assoc code (expr_code fields cond) _)

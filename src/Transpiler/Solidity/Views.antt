-- ===== src/Transpiler/Solidity/Views.antt =====
-- compiler/transpiler_solidity.py: `check_state_modification`, against the list of all the names that a
-- body assigns.
use baybayin_language.Base.{
  String, ◌≡◌, refl, sym, ap, ◌∙◌, Bool, true, false, ◌&&◌, ◌||◌, none, some, List, [], ◌∷◌, ◌++◌,
  mem_name, arith,
}
use baybayin_language.Ast.{
  Expr, literal, identifier, member, call, unary, binary, assign, Exprs, no_args, arg, Stmt,
  contract_decl, func_decl, var_decl, block, if_stmt, while_stmt, return_stmt, expr_stmt, Block,
  end, seq, Else, no_else, else_block, else_if, Members, no_members, field, method,
}
use baybayin_language.Transpiler.Solidity.Scans.{
  modifies_expr, modifies_args, modifies_stmt, modifies_block, modifies_else,
}

-- The names that are assigned to, wherever in an expression the assignment stands.
unfoldable mutual
  pub targets_expr : Expr → List String
  targets_expr (literal l) = []
  targets_expr (identifier name) = []
  targets_expr (member e name) = targets_expr e
  targets_expr (call callee args) = targets_expr callee ++ targets_args args
  targets_expr (unary op e) = targets_expr e
  targets_expr (binary l op r) = targets_expr l ++ targets_expr r
  targets_expr (assign (identifier name) e) = name ∷ targets_expr e
  targets_expr (assign target e) = targets_expr target ++ targets_expr e

  pub targets_args : Exprs → List String
  targets_args no_args = []
  targets_args (arg e es) = targets_expr e ++ targets_args es

-- The same in a statement, those of the declarations inside of it included.
unfoldable mutual
  unfolding targets_expr

  pub targets_stmt : Stmt → List String
  targets_stmt (contract_decl name ms) = targets_members ms
  targets_stmt (func_decl s b) = targets_block b
  targets_stmt (var_decl d) = elim d.initializer [ none ↦ [] | some e ↦ targets_expr e ]
  targets_stmt (block b) = targets_block b
  targets_stmt (if_stmt c t e) = targets_expr c ++ (targets_block t ++ targets_else e)
  targets_stmt (while_stmt c b) = targets_expr c ++ targets_block b
  targets_stmt (return_stmt none) = []
  targets_stmt (return_stmt (some e)) = targets_expr e
  targets_stmt (expr_stmt e) = targets_expr e

  pub targets_block : Block → List String
  targets_block end = []
  targets_block (seq s b) = targets_stmt s ++ targets_block b

  pub targets_else : Else → List String
  targets_else no_else = []
  targets_else (else_block b) = targets_block b
  targets_else (else_if c t e) = targets_expr c ++ (targets_block t ++ targets_else e)

  pub targets_members : Members → List String
  targets_members no_members = []
  targets_members (field d ms) =
      elim d.initializer [ none ↦ [] | some e ↦ targets_expr e ] ++ targets_members ms
  targets_members (method s b ms) = targets_block b ++ targets_members ms

-- Whether one of the names is a state variable.
unfoldable pub any_in : List String → List String → Bool
unfolding mem_name
any_in vars [] = false
any_in vars (n ∷ ns) = mem_name n vars || any_in vars ns

abbrev pub is_nil : List String → Bool
is_nil [] = true
is_nil (n ∷ ns) = false

-- Assignments stand as statements, in conditions, in arguments, or in another assignment, and nowhere
-- else.
unfoldable mutual
  unfolding targets_expr

  pub in_sight_expr : Expr → Bool
  in_sight_expr (call callee args) = is_nil (targets_expr callee) && in_sight_args args
  in_sight_expr (assign (identifier name) e) = in_sight_expr e
  in_sight_expr (assign target e) = in_sight_expr target && in_sight_expr e
  in_sight_expr e = is_nil (targets_expr e)

  pub in_sight_args : Exprs → Bool
  in_sight_args no_args = true
  in_sight_args (arg e es) = in_sight_expr e && in_sight_args es

unfoldable mutual
  unfolding in_sight_expr targets_stmt

  pub in_sight_stmt : Stmt → Bool
  in_sight_stmt (block b) = in_sight_block b
  in_sight_stmt (if_stmt c t e) = in_sight_expr c && (in_sight_block t && in_sight_else e)
  in_sight_stmt (while_stmt c b) = in_sight_expr c && in_sight_block b
  in_sight_stmt (expr_stmt e) = in_sight_expr e
  in_sight_stmt s = is_nil (targets_stmt s)

  pub in_sight_block : Block → Bool
  in_sight_block end = true
  in_sight_block (seq s b) = in_sight_stmt s && in_sight_block b

  pub in_sight_else : Else → Bool
  in_sight_else no_else = true
  in_sight_else (else_block b) = in_sight_block b
  in_sight_else (else_if c t e) = in_sight_expr c && (in_sight_block t && in_sight_else e)

first_true : (a b : Bool) → a && b ≡ true → a ≡ true
first_true true b e = refl
first_true false b e = ground arith

rest_true : (a b : Bool) → a && b ≡ true → b ≡ true
rest_true true b e = e
rest_true false b e = ground arith

or_assoc : (a b c : Bool) → (a || b) || c ≡ a || (b || c)
or_assoc true b c = refl
or_assoc false b c = refl

module _ (vars : List String) where
  any_in-append : (xs ys : List String) → any_in vars (xs ++ ys) ≡ any_in vars xs || any_in vars ys
  unfolding any_in
  any_in-append [] ys = refl
  any_in-append (x ∷ xs) ys =
      ap (λ b. mem_name x vars || b) (any_in-append xs ys)
      ∙ sym (or_assoc (mem_name x vars) (any_in vars xs) (any_in vars ys))

  -- Two parts that are scanned one after the other, each in sight by `p` and `q`.
  both :
      (xs ys : List String) (p q a b : Bool)
      → p && q ≡ true
      → (p ≡ true → a ≡ any_in vars xs)
      → (q ≡ true → b ≡ any_in vars ys)
      → a || b ≡ any_in vars (xs ++ ys)
  both xs ys p q a b h first second =
      ap (λ c. c || b) (first (first_true p q h))
      ∙ ap (λ c. any_in vars xs || c) (second (rest_true p q h))
      ∙ sym (any_in-append xs ys)

  -- What is not scanned assigns nothing.
  none_in : (xs : List String) → is_nil xs ≡ true → false ≡ any_in vars xs
  unfolding any_in
  none_in [] e = refl
  none_in (x ∷ xs) e = ground arith

  before_nil :
      (xs ys : List String) {b : Bool}
      → is_nil xs ≡ true
      → b ≡ any_in vars ys
      → b ≡ any_in vars (xs ++ ys)
  before_nil [] ys e f = f
  before_nil (x ∷ xs) ys e f = ground arith

  mutual
    unfolding modifies_expr targets_expr in_sight_expr any_in

    expr-targets :
        (e : Expr) → in_sight_expr e ≡ true → modifies_expr vars e ≡ any_in vars (targets_expr e)
    expr-targets (literal l) h = refl
    expr-targets (identifier name) h = refl
    expr-targets (member e name) h = none_in (targets_expr e) h
    expr-targets (call callee args) h =
        before_nil (targets_expr callee) (targets_args args) (first_true _ _ h)
          (args-targets args (rest_true (is_nil (targets_expr callee)) _ h))
    expr-targets (unary op e) h = none_in (targets_expr e) h
    expr-targets (binary l op r) h = none_in (targets_expr l ++ targets_expr r) h
    expr-targets (assign (identifier name) e) h =
        ap (λ b. mem_name name vars || b) (expr-targets e h)
    expr-targets (assign (literal l) e) h = expr-targets e h
    expr-targets (assign (member o name) e) h =
        both (targets_expr (member o name)) (targets_expr e) _ _ _ _ h
          (expr-targets (member o name)) (expr-targets e)
    expr-targets (assign (call callee args) e) h =
        both (targets_expr (call callee args)) (targets_expr e) _ _ _ _ h
          (expr-targets (call callee args)) (expr-targets e)
    expr-targets (assign (unary op o) e) h =
        both (targets_expr (unary op o)) (targets_expr e) _ _ _ _ h (expr-targets (unary op o))
          (expr-targets e)
    expr-targets (assign (binary l op r) e) h =
        both (targets_expr (binary l op r)) (targets_expr e) _ _ _ _ h
          (expr-targets (binary l op r)) (expr-targets e)
    expr-targets (assign (assign target o) e) h =
        both (targets_expr (assign target o)) (targets_expr e) _ _ _ _ h
          (expr-targets (assign target o)) (expr-targets e)

    args-targets :
        (es : Exprs)
        → in_sight_args es ≡ true
        → modifies_args vars es ≡ any_in vars (targets_args es)
    args-targets no_args h = refl
    args-targets (arg e es) h =
        both (targets_expr e) (targets_args es) _ _ _ _ h (expr-targets e) (args-targets es)

  mutual
    unfolding modifies_stmt targets_stmt in_sight_stmt any_in

    stmt-targets :
        (s : Stmt) → in_sight_stmt s ≡ true → modifies_stmt vars s ≡ any_in vars (targets_stmt s)
    stmt-targets (contract_decl name ms) h = none_in (targets_members ms) h
    stmt-targets (func_decl s b) h = none_in (targets_block b) h
    stmt-targets (var_decl d) h = none_in (targets_stmt (var_decl d)) h
    stmt-targets (block b) h = block-targets b h
    stmt-targets (if_stmt c t e) h =
        both (targets_expr c) (targets_block t ++ targets_else e) _ _ _ _ h (expr-targets c) (λ k.
          both (targets_block t) (targets_else e) _ _ _ _ k (block-targets t) (else-targets e))
    stmt-targets (while_stmt c b) h =
        both (targets_expr c) (targets_block b) _ _ _ _ h (expr-targets c) (block-targets b)
    stmt-targets (return_stmt none) h = refl
    stmt-targets (return_stmt (some e)) h = none_in (targets_expr e) h
    stmt-targets (expr_stmt e) h = expr-targets e h

    block-targets :
        (b : Block)
        → in_sight_block b ≡ true
        → modifies_block vars b ≡ any_in vars (targets_block b)
    block-targets end h = refl
    block-targets (seq s b) h =
        both (targets_stmt s) (targets_block b) _ _ _ _ h (stmt-targets s) (block-targets b)

    else-targets :
        (e : Else) → in_sight_else e ≡ true → modifies_else vars e ≡ any_in vars (targets_else e)
    else-targets no_else h = refl
    else-targets (else_block b) h = block-targets b h
    else-targets (else_if c t e) h =
        both (targets_expr c) (targets_block t ++ targets_else e) _ _ _ _ h (expr-targets c) (λ k.
          both (targets_block t) (targets_else e) _ _ _ _ k (block-targets t) (else-targets e))

-- Where a body assigns only in its statements, conditions, arguments and assignments, it is found to
-- modify the state exactly when one of the names that it assigns anywhere is a state variable.
pub modifies_block-targets :
    (vars : List String) (b : Block)
    → in_sight_block b ≡ true
    → modifies_block vars b ≡ any_in vars (targets_block b)
modifies_block-targets vars b h = block-targets vars b h

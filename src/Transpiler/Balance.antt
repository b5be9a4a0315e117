-- ===== src/Transpiler/Balance.antt =====
-- compiler/transpiler_python.py: its indentation and its scopes.
use baybayin_language.Base.{String, ◌≡◌, refl, ap, ◌∙◌, List, [], ◌∷◌, insert}
use baybayin_language.Ast.{
  Param, VarDecl, Signature, Stmt, contract_decl, func_decl, var_decl, block, if_stmt, while_stmt,
  return_stmt, expr_stmt, Block, end, seq, Else, no_else, else_block, else_if, Members, no_members,
  field, method, Program,
}
use baybayin_language.Transpiler.Scopes.{
  up, stack, pop, depth, pop-push, pop-on_top, depth-on_top, no_scopes, one_less,
}
use baybayin_language.Transpiler.{
  Python, Transpiler, deeper, shallower, enter_scope, exit_scope, declare_local, raw_type,
  visit_var_decl, visit_params, visit_heading,
}
use baybayin_language.Transpiler.Statements.{
  enter_contract, leave_contract, visit_stmt, visit_lines, visit_else, visit_methods,
  visit_declarations, visit_program, fresh,
}

-- `t'` has the indentation of `t`, as many scopes, and all but the innermost unchanged.
pub record Keeps (t t' : Transpiler) : Type 0 where
  pub level : t'.indent_level ≡ t.indent_level
  pub outer : pop t'.scopes ≡ pop t.scopes
  pub depth : depth t'.scopes ≡ depth t.scopes

Keeps-refl : (t : Transpiler) → Keeps t t
Keeps-refl t = record { level = refl; outer = refl; depth = refl }

Keeps-trans : {a b c : Transpiler} → Keeps a b → Keeps b c → Keeps a c
Keeps-trans x y = record {
  level = y.level ∙ x.level;
  outer = y.outer ∙ x.outer;
  depth = y.depth ∙ x.depth;
}

-- What has the indentation and exactly the scopes of `t`.
same-Keeps :
    (t t' : Transpiler) → t'.indent_level ≡ t.indent_level → t'.scopes ≡ t.scopes → Keeps t t'
same-Keeps t t' level scopes = record {
  level = level;
  outer = ap pop scopes;
  depth = ap depth scopes;
}

declare_local-Keeps : (t : Transpiler) (name u : String) → Keeps t (declare_local name u t)
unfolding declare_local
declare_local-Keeps t name u = record {
  level = refl;
  outer = pop-on_top (insert name u) t.scopes;
  depth = depth-on_top (insert name u) t.scopes;
}

visit_var_decl-Keeps :
    (py : Python) (t : Transpiler) (d : VarDecl) → Keeps t (visit_var_decl py t d).1
unfolding visit_var_decl
visit_var_decl-Keeps py t d = declare_local-Keeps t d.name (raw_type d.type_ann d.initializer)

visit_params-Keeps : (t : Transpiler) (ps : List Param) → Keeps t (visit_params t ps).1
unfolding visit_params
visit_params-Keeps t [] = Keeps-refl t
visit_params-Keeps t (p ∷ ps) =
    Keeps-trans (declare_local-Keeps t p.name p.type_ann)
      (visit_params-Keeps (declare_local p.name p.type_ann t) ps)

-- One scope and one level more than `t`.
record Inside (t t' : Transpiler) : Type 0 where
  level : t'.indent_level ≡ up t.indent_level
  below : pop t'.scopes ≡ t.scopes

Inside-Keeps : {t a b : Transpiler} → Inside t a → Keeps a b → Inside t b
Inside-Keeps x y = record { level = y.level ∙ x.level; below = y.outer ∙ x.below }

enter-Inside : (t : Transpiler) → Inside t (enter_scope (deeper t))
unfolding enter_scope
enter-Inside t = record { level = refl; below = pop-push [] t.scopes }

visit_heading-Inside : (t : Transpiler) (s : Signature) → Inside t (visit_heading t s).1
unfolding visit_heading enter_scope
visit_heading-Inside t s =
    let x = visit_params-Keeps (enter_scope t) s.params in
    record { level = ap up x.level; below = x.outer ∙ pop-push [] t.scopes }

-- Back outside, in either order of the two resets.
leave-Keeps : (t t' : Transpiler) → Inside t t' → Keeps t (shallower (exit_scope t'))
unfolding shallower exit_scope
leave-Keeps t t' x = same-Keeps t (shallower (exit_scope t')) (one_less x.level) x.below

leave_function-Keeps : (t t' : Transpiler) → Inside t t' → Keeps t (exit_scope (shallower t'))
unfolding shallower exit_scope
leave_function-Keeps t t' x = same-Keeps t (exit_scope (shallower t')) (one_less x.level) x.below

exit_scope-Keeps : (t t' : Transpiler) → Keeps (enter_scope t) t' → Keeps t (exit_scope t')
unfolding enter_scope exit_scope
exit_scope-Keeps t t' x = same-Keeps t (exit_scope t') x.level (x.outer ∙ pop-push [] t.scopes)

-- A level deeper, in the scopes that are there.
shallower-Keeps : (t t' : Transpiler) → Keeps (deeper t) t' → Keeps t (shallower t')
unfolding shallower
shallower-Keeps t t' x = record { level = one_less x.level; outer = x.outer; depth = x.depth }

leave_contract-Keeps :
    (t t' : Transpiler) (ms : Members)
    → Keeps (enter_contract t ms) t'
    → Keeps t (leave_contract t')
unfolding shallower enter_contract leave_contract
leave_contract-Keeps t t' ms x = record {
  level = one_less x.level;
  outer = x.outer;
  depth = x.depth;
}

function-Keeps :
    (py : Python) (t : Transpiler) (s : Signature) (b : Block)
    → Keeps (visit_heading t s).1 (visit_lines py (visit_heading t s).1 b).1
    → Keeps t (exit_scope (shallower (visit_lines py (visit_heading t s).1 b).1))
function-Keeps py t s b x = leave_function-Keeps t _ (Inside-Keeps (visit_heading-Inside t s) x)

branch-Keeps :
    (py : Python) (t : Transpiler) (b : Block)
    → Keeps (enter_scope (deeper t)) (visit_lines py (enter_scope (deeper t)) b).1
    → Keeps t (shallower (exit_scope (visit_lines py (enter_scope (deeper t)) b).1))
branch-Keeps py t b x = leave-Keeps t _ (Inside-Keeps (enter-Inside t) x)

mutual
  unfolding visit_stmt

  stmt-Keeps : (py : Python) (t : Transpiler) (s : Stmt) → Keeps t (visit_stmt py t s).1
  stmt-Keeps py t (contract_decl name ms) =
      leave_contract-Keeps t _ ms (methods-Keeps py (enter_contract t ms) ms)
  stmt-Keeps py t (func_decl s b) = function-Keeps py t s b (lines-Keeps py (visit_heading t s).1 b)
  stmt-Keeps py t (var_decl d) = visit_var_decl-Keeps py t d
  stmt-Keeps py t (block b) = exit_scope-Keeps t _ (lines-Keeps py (enter_scope t) b)
  stmt-Keeps py t (if_stmt c b e) =
      Keeps-trans (branch-Keeps py t b (lines-Keeps py (enter_scope (deeper t)) b))
        (else-Keeps py (shallower (exit_scope (visit_lines py (enter_scope (deeper t)) b).1)) e)
  stmt-Keeps py t (while_stmt c b) = branch-Keeps py t b (lines-Keeps py (enter_scope (deeper t)) b)
  stmt-Keeps py t (return_stmt e) = Keeps-refl t
  stmt-Keeps py t (expr_stmt e) = Keeps-refl t

  lines-Keeps : (py : Python) (t : Transpiler) (b : Block) → Keeps t (visit_lines py t b).1
  lines-Keeps py t end = Keeps-refl t
  lines-Keeps py t (seq s b) =
      Keeps-trans (stmt-Keeps py t s) (lines-Keeps py (visit_stmt py t s).1 b)

  else-Keeps : (py : Python) (t : Transpiler) (e : Else) → Keeps t (visit_else py t e).1
  else-Keeps py t no_else = Keeps-refl t
  else-Keeps py t (else_block b) = branch-Keeps py t b (lines-Keeps py (enter_scope (deeper t)) b)
  else-Keeps py t (else_if c b e) = shallower-Keeps t _ (
      Keeps-trans
        (branch-Keeps py (deeper t) b (lines-Keeps py (enter_scope (deeper (deeper t))) b))
        (else-Keeps py
          (shallower (exit_scope (visit_lines py (enter_scope (deeper (deeper t))) b).1)) e))

  methods-Keeps : (py : Python) (t : Transpiler) (ms : Members) → Keeps t (visit_methods py t ms).1
  methods-Keeps py t no_members = Keeps-refl t
  methods-Keeps py t (field d ms) = methods-Keeps py t ms
  methods-Keeps py t (method s b ms) =
      Keeps-trans (function-Keeps py t s b (lines-Keeps py (visit_heading t s).1 b))
        (methods-Keeps py (exit_scope (shallower (visit_lines py (visit_heading t s).1 b).1)) ms)

-- Printing a statement or declaration leaves the indentation, the number of scopes and all but the
-- innermost scope as they were.
pub visit_stmt-Keeps : (py : Python) (t : Transpiler) (s : Stmt) → Keeps t (visit_stmt py t s).1
visit_stmt-Keeps py t s = stmt-Keeps py t s

declarations-Keeps :
    (py : Python) (t : Transpiler) (p : Program) → Keeps t (visit_declarations py t p).1
unfolding visit_declarations
declarations-Keeps py t end = Keeps-refl t
declarations-Keeps py t (seq s p) =
    Keeps-trans (stmt-Keeps py t s) (declarations-Keeps py (visit_stmt py t s).1 p)

pub visit_program-Keeps :
    (py : Python) (t : Transpiler) (p : Program) → Keeps t (visit_program py t p).1
unfolding visit_program
visit_program-Keeps py t p = declarations-Keeps py t p

-- A fresh printer has no scope open behind a program.
pub visit_program-scopes :
    (py : Python) (p : Program) → (visit_program py fresh p).1.scopes ≡ stack []
visit_program-scopes py p = no_scopes _ (visit_program-Keeps py fresh p).depth

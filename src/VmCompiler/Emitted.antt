-- ===== src/VmCompiler/Emitted.antt =====
-- compiler/vm_compiler.py: what the visits of expressions append to the instructions.
use baybayin_language.Base.{
  String, ◌≡◌, refl, sym, ap, ◌∙◌, inl, inr, Bool-cases, Option, none, some, List, [], ◌∷◌, ◌++◌,
  append_assoc, append-nil, mem_name, str_eq,
}
use baybayin_language.Ast.{
  Expr, literal, identifier, member, call, unary, binary, assign, Exprs, no_args, arg, UnaryOp,
  bang, minus,
}
use baybayin_language.Bytecode.{Instr, Code}
use baybayin_language.VmCompiler.{
  emit, visit_expr, visit_args, visit_unary_op, visit_identifier, store_identifier, visit_optional,
}
use baybayin_language.VmCompiler.Layout.{
  load_code, store_code, unary_code, expr_code, args_code, optional_code,
}

visit_unary_op-append :
    (code : Code) (op : UnaryOp) → visit_unary_op code op ≡ code ++ unary_code op
unfolding visit_unary_op
visit_unary_op-append code minus = append_assoc code _ _
visit_unary_op-append code bang = append_assoc code _ _

visit_identifier-append :
    (fields : List String) (code : Code) (name : String)
    → visit_identifier fields code name ≡ code ++ load_code fields name
unfolding visit_identifier
visit_identifier-append fields code name = elim (Bool-cases (mem_name name fields)) [
  | inl e ↦ rw e (append_assoc code _ _)
  | inr e ↦ rw e
]

store_identifier-append :
    (fields : List String) (code : Code) (name : String)
    → store_identifier fields code name ≡ code ++ store_code fields name
unfolding store_identifier
store_identifier-append fields code name = elim (Bool-cases (mem_name name fields)) [
  | inl e ↦ rw e (append_assoc code _ _)
  | inr e ↦ rw e
]

emit-append :
    (code more last visited : Code) (i : Instr)
    → visited ≡ (code ++ more) ++ last
    → emit visited i ≡ code ++ (more ++ (last ++ i ∷ []))
unfolding emit
emit-append code more last visited i e = simp (e, append_assoc)

ruleset emitted =
    (append_assoc, visit_unary_op-append, visit_identifier-append, store_identifier-append)

mutual
  unfolding visit_expr expr_code

  visit_expr-eq :
      (fields : List String) (e : Expr) (code : Code)
      → visit_expr fields code e ≡ code ++ expr_code fields e
  visit_expr-eq fields (literal l) code = refl
  visit_expr-eq fields (identifier name) code = visit_identifier-append fields code name
  visit_expr-eq fields (member e name) code = simp (emitted, visit_expr-eq fields e)
  visit_expr-eq fields (unary op e) code = simp (emitted, visit_expr-eq fields e)
  visit_expr-eq fields (binary l op r) code =
      simp (emitted, visit_expr-eq fields l, visit_expr-eq fields r)
  visit_expr-eq fields (call (identifier name) args) code =
      elim (Bool-cases (str_eq name "ipakita")) [
        | inl e ↦ rw e (simp (emitted, visit_args-eq fields args))
        | inr e ↦ rw e (simp (emitted, visit_args-eq fields args))
      ]
  visit_expr-eq fields (call (member e name) args) code =
      simp (emitted, visit_args-eq fields args, visit_expr-eq fields e)
  visit_expr-eq fields (call callee args) code =
      emit-append code (args_code fields args) (expr_code fields callee) _ _ (
        visit_expr-eq fields callee (visit_args fields code args)
        ∙ ap (λ c. c ++ expr_code fields callee) (visit_args-eq fields args code))
  visit_expr-eq fields (assign (identifier name) e) code =
      ap (λ c. store_identifier fields c name) (visit_expr-eq fields e code)
      ∙ (store_identifier-append fields (code ++ expr_code fields e) name ∙ append_assoc code _ _)
  visit_expr-eq fields (assign (member target name) e) code =
      simp (emitted, visit_expr-eq fields e, visit_expr-eq fields target)
  visit_expr-eq fields (assign _ e) code = sym (append-nil code)

  visit_args-eq :
      (fields : List String) (es : Exprs) (code : Code)
      → visit_args fields code es ≡ code ++ args_code fields es
  visit_args-eq fields no_args code = sym (append-nil code)
  visit_args-eq fields (arg e es) code =
      simp (emitted, visit_expr-eq fields e, visit_args-eq fields es)

-- An expression's code is appended, wherever the pass stands.
pub visit_expr-append :
    (fields : List String) (e : Expr) (code : Code)
    → visit_expr fields code e ≡ code ++ expr_code fields e
visit_expr-append fields e code = visit_expr-eq fields e code

pub visit_optional-append :
    (fields : List String) (code : Code) (e : Option Expr)
    → visit_optional fields code e ≡ code ++ optional_code fields e
unfolding visit_optional
visit_optional-append fields code none = refl
visit_optional-append fields code (some e) = visit_expr-append fields e code

-- ===== src/Semantics.antt =====
-- What a BBL program does, as a big-step relation over the syntax tree: the specification for
-- compiler/vm_compiler.py and runtime/vm/bbvm.py together. There is no bytecode in it, no stack and no
-- fuel. Of the machine it has only Python's operators on values and their texts (Vm/Operators). A state is
-- the variables of the running function, the objects and what was printed (Semantics/Values).
mod Values
unfoldable pub use Values.*
use baybayin_language.Base.{
  ℕ, String, ◌≡◌, true, false, Option, none, some, List, [], ◌∷◌, ◌++◌, get_elem?, mem_name, Dict,
  lookup, insert, keys,
}
use baybayin_language.Ast.{
  Literal, Expr, literal, identifier, member, call, unary, binary, assign, Exprs, no_args, arg,
  BinaryOp, UnaryOp, VarDecl, Signature, Stmt, contract_decl, func_decl, var_decl, block, if_stmt,
  while_stmt, return_stmt, expr_stmt, Block, end, seq, Else, no_else, else_block, else_if, Members,
}
use baybayin_language.Bytecode.{Value, none_value, object}
use baybayin_language.Vm.Operators.{ok, Object, Host}

-- `fields` are the state variables of the contract whose method runs: such a name means `self`'s.
mutual
  pub data Eval (host : Host) (tb : Tables)
      : List String → Expr → Store → Value → Store → Type 0 where
    e_literal :
        {fields : List String} {σ : Store} (l : Literal)
        → Eval host tb fields (literal l) σ (denoted l) σ
    e_name :
        {fields : List String} {σ : Store} (x : String)
        → mem_name x fields ≡ false
        → Eval host tb fields (identifier x) σ (read tb σ x) σ
    e_field :
        {fields : List String} {σ : Store} (x : String) (r : ℕ)
        → mem_name x fields ≡ true
        → lookup "self" σ.locals ≡ some (object r)
        → Eval host tb fields (identifier x) σ (field_value σ.heap r x) σ
    e_member :
        {fields : List String} {σ σ' : Store} {e : Expr} {r : ℕ} (x : String)
        → Eval host tb fields e σ (object r) σ'
        → Eval host tb fields (member e x) σ (field_value σ'.heap r x) σ'
    e_unary :
        {fields : List String} {σ σ' : Store} {e : Expr} {v w : Value} (op : UnaryOp)
        → Eval host tb fields e σ v σ'
        → unary_value host op v ≡ ok w
        → Eval host tb fields (unary op e) σ w σ'
    e_binary :
        {fields : List String} {σ σ₁ σ₂ : Store} {l r : Expr} {a b w : Value} (op : BinaryOp)
        → Eval host tb fields l σ a σ₁
        → Eval host tb fields r σ₁ b σ₂
        → binary_value host σ₂.heap op a b ≡ ok w
        → Eval host tb fields (binary l op r) σ w σ₂
    e_call :
        {fields : List String} {σ σ₁ σ₂ : Store} {args : Exprs} {vs : List Value} {v : Value}
        (name : String) (d : Decl) (locals : Dict Value)
        → is_print name ≡ false
        → EvalArgs host tb fields args σ vs σ₁
        → lookup name tb.contracts ≡ none
        → lookup name tb.functions ≡ some d
        → Binds (param_names d) vs [] locals
        → RunBody host tb [] d.body (entered locals σ₁) v σ₂
        → Eval host tb fields (call (identifier name) args) σ v (resumed σ₁ σ₂)
    e_method :
        {fields : List String} {σ σ₁ σ₂ σ₃ : Store} {args : Exprs} {e : Expr} {vs : List Value}
        {v : Value} {r : ℕ} (name : String) (o : Object) (c : Class) (d : Decl)
        (locals : Dict Value)
        → EvalArgs host tb fields args σ vs σ₁
        → Eval host tb fields e σ₁ (object r) σ₂
        → get_elem? σ₂.heap r ≡ some o
        → lookup o.class_name tb.contracts ≡ some c
        → lookup name c.methods ≡ some d
        → Binds (param_names d) vs (insert "self" (object r) []) locals
        → RunBody host tb (keys c.fields) d.body (entered locals σ₂) v σ₃
        → Eval host tb fields (call (member e name) args) σ v (resumed σ₂ σ₃)
    e_make :
        {fields : List String} {σ σ₁ : Store} {args : Exprs} {vs : List Value} (name : String)
        (c : Class)
        → is_print name ≡ false
        → EvalArgs host tb fields args σ vs σ₁
        → lookup name tb.contracts ≡ some c
        → lookup "simulan" c.methods ≡ none
        → Eval host tb fields (call (identifier name) args) σ (fresh σ₁) (allocate name c σ₁)
    e_construct :
        {fields : List String} {σ σ₁ σ₂ : Store} {args : Exprs} {vs : List Value} {v : Value}
        (name : String) (c : Class) (d : Decl) (locals : Dict Value)
        → is_print name ≡ false
        → EvalArgs host tb fields args σ vs σ₁
        → lookup name tb.contracts ≡ some c
        → lookup "simulan" c.methods ≡ some d
        → Binds (param_names d) vs (insert "self" (fresh σ₁) []) locals
        → RunBody host tb (keys c.fields) d.body (entered locals (allocate name c σ₁)) v σ₂
        → Eval host tb fields (call (identifier name) args) σ (fresh σ₁) (resumed σ₁ σ₂)

  pub data EvalArgs (host : Host) (tb : Tables)
      : List String → Exprs → Store → List Value → Store → Type 0 where
    a_none : {fields : List String} {σ : Store} → EvalArgs host tb fields no_args σ [] σ
    a_next :
        {fields : List String} {σ σ₁ σ₂ : Store} {e : Expr} {es : Exprs} {v : Value}
        {vs : List Value}
        → Eval host tb fields e σ v σ₁
        → EvalArgs host tb fields es σ₁ vs σ₂
        → EvalArgs host tb fields (arg e es) σ (v ∷ vs) σ₂

  -- An absent initializer or return value is None.
  pub data EvalOptional (host : Host) (tb : Tables)
      : List String → Option Expr → Store → Value → Store → Type 0 where
    o_none : {fields : List String} {σ : Store} → EvalOptional host tb fields none σ none_value σ
    o_some :
        {fields : List String} {σ σ' : Store} {e : Expr} {v : Value}
        → Eval host tb fields e σ v σ'
        → EvalOptional host tb fields (some e) σ v σ'

  -- A call: the body returns, or runs off its end, which returns None. The latter is specified for
  -- the bodies whose end in the text is no `ibalik`, also none in a last branch.
  pub data RunBody (host : Host) (tb : Tables)
      : List String → Block → Store → Value → Store → Type 0 where
    b_return :
        {fields : List String} {b : Block} {σ σ' : Store} {v : Value}
        → Run host tb fields b σ (returned v) σ'
        → RunBody host tb fields b σ v σ'
    b_end :
        {fields : List String} {b : Block} {σ σ' : Store}
        → runs_off (ending_block b) ≡ true
        → Run host tb fields b σ normal σ'
        → RunBody host tb fields b σ none_value σ'

  pub data Exec (host : Host) (tb : Tables)
      : List String → Stmt → Store → Signal → Store → Type 0 where
    x_contract :
        {fields : List String} {σ : Store} (name : String) (ms : Members)
        → Exec host tb fields (contract_decl name ms) σ normal σ
    x_function :
        {fields : List String} {σ : Store} (s : Signature) (b : Block)
        → Exec host tb fields (func_decl s b) σ normal σ
    x_var :
        {fields : List String} {σ σ' : Store} {v : Value} (d : VarDecl)
        → EvalOptional host tb fields d.initializer σ v σ'
        → Exec host tb fields (var_decl d) σ normal (set_local d.name v σ')
    x_block :
        {fields : List String} {σ σ' : Store} {b : Block} {sg : Signal}
        → Run host tb fields b σ sg σ'
        → Exec host tb fields (block b) σ sg σ'
    x_if_true :
        {fields : List String} {σ σ₁ σ₂ : Store} {c : Expr} {t : Block} {e : Else} {v : Value}
        {sg : Signal}
        → Eval host tb fields c σ v σ₁
        → Truth host v true
        → Run host tb fields t σ₁ sg σ₂
        → Exec host tb fields (if_stmt c t e) σ sg σ₂
    x_if_false :
        {fields : List String} {σ σ₁ σ₂ : Store} {c : Expr} {t : Block} {e : Else} {v : Value}
        {sg : Signal}
        → Eval host tb fields c σ v σ₁
        → Truth host v false
        → RunElse host tb fields e σ₁ sg σ₂
        → Exec host tb fields (if_stmt c t e) σ sg σ₂
    x_while_done :
        {fields : List String} {σ σ₁ : Store} {c : Expr} {b : Block} {v : Value}
        → Eval host tb fields c σ v σ₁
        → Truth host v false
        → Exec host tb fields (while_stmt c b) σ normal σ₁
    x_while_return :
        {fields : List String} {σ σ₁ σ₂ : Store} {c : Expr} {b : Block} {v w : Value}
        → Eval host tb fields c σ v σ₁
        → Truth host v true
        → Run host tb fields b σ₁ (returned w) σ₂
        → Exec host tb fields (while_stmt c b) σ (returned w) σ₂
    x_while_again :
        {fields : List String} {σ σ₁ σ₂ σ₃ : Store} {c : Expr} {b : Block} {v : Value} {sg : Signal}
        → Eval host tb fields c σ v σ₁
        → Truth host v true
        → Run host tb fields b σ₁ normal σ₂
        → Exec host tb fields (while_stmt c b) σ₂ sg σ₃
        → Exec host tb fields (while_stmt c b) σ sg σ₃
    x_return :
        {fields : List String} {σ σ' : Store} {v : Value} (e : Option Expr)
        → EvalOptional host tb fields e σ v σ'
        → Exec host tb fields (return_stmt e) σ (returned v) σ'
    x_expr :
        {fields : List String} {σ σ' : Store} {e : Expr} {v : Value}
        → Eval host tb fields e σ v σ'
        → Exec host tb fields (expr_stmt e) σ normal σ'
    x_print :
        {fields : List String} {σ σ' : Store} {args : Exprs} {vs : List Value} (name : String)
        → is_print name ≡ true
        → EvalArgs host tb fields args σ vs σ'
        → {line : String} → Line host σ'.heap vs line
        → Exec host tb fields
            (expr_stmt (call (identifier name) args))
            σ
            normal
            (record σ' { output = σ'.output ++ line ∷ [] })
    x_assign_name :
        {fields : List String} {σ σ' : Store} {e : Expr} {v : Value} (x : String)
        → mem_name x fields ≡ false
        → Eval host tb fields e σ v σ'
        → Exec host tb fields (expr_stmt (assign (identifier x) e)) σ normal (set_local x v σ')
    x_assign_field :
        {fields : List String} {σ σ' : Store} {e : Expr} {v : Value} (x : String) (r : ℕ)
        → mem_name x fields ≡ true
        → Eval host tb fields e σ v σ'
        → lookup "self" σ'.locals ≡ some (object r)
        → Exec host tb fields (expr_stmt (assign (identifier x) e)) σ normal (set_member r x v σ')
    x_assign_member :
        {fields : List String} {σ σ₁ σ₂ : Store} {e target : Expr} {v : Value} {r : ℕ} (x : String)
        → Eval host tb fields e σ v σ₁
        → Eval host tb fields target σ₁ (object r) σ₂
        → Exec host tb fields
            (expr_stmt (assign (member target x) e))
            σ
            normal
            (set_member r x v σ₂)

  pub data Run (host : Host) (tb : Tables)
      : List String → Block → Store → Signal → Store → Type 0 where
    r_end : {fields : List String} {σ : Store} → Run host tb fields end σ normal σ
    r_next :
        {fields : List String} {σ σ₁ σ₂ : Store} {s : Stmt} {b : Block} {sg : Signal}
        → Exec host tb fields s σ normal σ₁
        → Run host tb fields b σ₁ sg σ₂
        → Run host tb fields (seq s b) σ sg σ₂
    r_return :
        {fields : List String} {σ σ₁ : Store} {s : Stmt} {b : Block} {v : Value}
        → Exec host tb fields s σ (returned v) σ₁
        → Run host tb fields (seq s b) σ (returned v) σ₁

  pub data RunElse (host : Host) (tb : Tables)
      : List String → Else → Store → Signal → Store → Type 0 where
    l_none : {fields : List String} {σ : Store} → RunElse host tb fields no_else σ normal σ
    l_block :
        {fields : List String} {σ σ' : Store} {b : Block} {sg : Signal}
        → Run host tb fields b σ sg σ'
        → RunElse host tb fields (else_block b) σ sg σ'
    l_if_true :
        {fields : List String} {σ σ₁ σ₂ : Store} {c : Expr} {t : Block} {e : Else} {v : Value}
        {sg : Signal}
        → Eval host tb fields c σ v σ₁
        → Truth host v true
        → Run host tb fields t σ₁ sg σ₂
        → RunElse host tb fields (else_if c t e) σ sg σ₂
    l_if_false :
        {fields : List String} {σ σ₁ σ₂ : Store} {c : Expr} {t : Block} {e : Else} {v : Value}
        {sg : Signal}
        → Eval host tb fields c σ v σ₁
        → Truth host v false
        → RunElse host tb fields e σ₁ sg σ₂
        → RunElse host tb fields (else_if c t e) σ sg σ₂

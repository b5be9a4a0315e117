-- ===== src/Ast.antt =====
-- compiler/ast.py: the nodes of the syntax tree, one constructor for each node class.
use baybayin_language.Base.{ℕ, String, Bool, Option, List}

-- A Python float, as the text that `repr` gives for it, which determines it.
abbrev pub Float : Type 0
Float = String

-- `Literal`: the value and its `value_type` together. The parser gives `numero` for both kinds of
-- number, `teksto`, `kondisyon` and `wala`.
pub data Literal : Type 0 where
  numero : ℕ → Literal
  decimal : Float → Literal
  teksto : String → Literal
  kondisyon : Bool → Literal
  wala : Literal

-- The operator texts of `BinaryExpr`: `+ - * / < > <= >= == !=`.
pub data BinaryOp : Type 0 where
  add sub mul div lt gt le ge eq ne : BinaryOp

-- The operator texts of `UnaryExpr`: `!` and `-`.
pub data UnaryOp : Type 0 where
  bang minus : UnaryOp

-- `assign` is `AssignStmt`: the parser makes one wherever an expression stands.
mutual
  pub data Expr : Type 0 where
    literal : Literal → Expr
    identifier : String → Expr
    member : Expr → String → Expr
    call : Expr → Exprs → Expr
    unary : UnaryOp → Expr → Expr
    binary : Expr → BinaryOp → Expr → Expr
    assign : Expr → Expr → Expr

  -- The list of a call's arguments.
  pub data Exprs : Type 0 where
    no_args : Exprs
    arg : Expr → Exprs → Exprs

pub record Param : Type 0 where
  pub name : String
  pub type_ann : String

pub record VarDecl : Type 0 where
  pub name : String
  pub type_ann : Option String
  pub initializer : Option Expr

-- `FuncDecl` without its body.
pub record Signature : Type 0 where
  pub name : String
  pub params : List Param
  pub return_type : Option String
  pub is_public : Bool

-- Statements and declarations. `Block` is the list of its statements, `Else` the optional branch
-- of an `IfStmt`, `Members` the members of a `ContractDecl`.
mutual
  pub data Stmt : Type 0 where
    contract_decl : String → Members → Stmt
    func_decl : Signature → Block → Stmt
    var_decl : VarDecl → Stmt
    block : Block → Stmt
    if_stmt : Expr → Block → Else → Stmt
    while_stmt : Expr → Block → Stmt
    return_stmt : Option Expr → Stmt
    expr_stmt : Expr → Stmt

  pub data Block : Type 0 where
    end : Block
    seq : Stmt → Block → Block

  pub data Else : Type 0 where
    no_else : Else
    else_block : Block → Else
    else_if : Expr → Block → Else → Else

  pub data Members : Type 0 where
    no_members : Members
    field : VarDecl → Members → Members
    method : Signature → Block → Members → Members

-- `Program.declarations`
abbrev pub Program : Type 0
Program = Block

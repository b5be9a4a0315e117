-- ===== src/Parser/Statements.antt =====
-- compiler/parser.py: every rule for declarations and statements ends and takes a token.
use baybayin_language.Base.{ℕ, zero, suc, ◌≤◌, String, ◌||◌, arith}
use baybayin_language.Ast.{Expr, Stmt}
use baybayin_language.Parser.{Numbers, Parse}
use baybayin_language.Parser.Declarations.{
  skip, holds_next, type_names, parse_type, optional_type, param, params_list, params, signature,
  at_close, initializer, variable, statements, block_statement, condition, else_branch,
  if_statement, while_statement, return_value_of, return_statement, expression_statement, members,
  contract, function,
}
use baybayin_language.Parser.Takes.{
  Takes, Takes-weaken, Takes-none, if-Takes, give-Takes, unexpected_here-Takes, then-Takes,
  match_any-Takes, consume-Takes, check-Takes, is_at_end-Takes,
}

module _ {nums : Numbers} where
  skip-Takes : {k : ℕ} (type : String) → Takes nums 0 k (skip type)
  unfolding skip
  skip-Takes type = match_any-Takes _ _ 0 (omega arith) give-Takes λ _. give-Takes

  holds_next-Takes : {k : ℕ} (type : String) → Takes nums 0 k (holds_next type)
  unfolding holds_next
  holds_next-Takes type = match_any-Takes _ _ 0 (omega arith) give-Takes λ _. give-Takes

  parse_type-Takes : {k : ℕ} → Takes nums 1 k parse_type
  unfolding parse_type
  parse_type-Takes =
      match_any-Takes type_names _ 0 (omega arith) unexpected_here-Takes λ _. give-Takes

  optional_type-Takes : {k : ℕ} → Takes nums 0 k optional_type
  unfolding optional_type
  optional_type-Takes =
      match_any-Takes _ _ 1 (omega arith) give-Takes
        λ _. then-Takes 1 0 (omega arith) parse_type-Takes λ s. give-Takes

  param-Takes : {k : ℕ} → Takes nums 1 k param
  unfolding param
  param-Takes = then-Takes 1 0 (omega arith) (consume-Takes "IDENTIFIER") λ t.
      then-Takes 1 0 (omega arith) (consume-Takes "COLON")
        λ _. then-Takes 1 0 (omega arith) parse_type-Takes λ s. give-Takes

  params_list-Takes : (n : ℕ) {k : ℕ} → k ≤ n → Takes nums 1 k (params_list n)
  unfolding params_list
  params_list-Takes zero k_le = Takes-none k_le
  params_list-Takes (suc n) k_le = then-Takes 1 0 (omega arith) param-Takes λ p.
      match_any-Takes _ _ 0 (omega arith) give-Takes
        λ _. then-Takes 1 0 (omega arith) (params_list-Takes n (omega arith)) λ ps. give-Takes

  params-Takes : (n : ℕ) {k : ℕ} → k ≤ n → Takes nums 0 k (params n)
  unfolding params
  params-Takes n k_le = then-Takes 0 0 (omega arith) (check-Takes "RPAREN") λ empty.
      if-Takes empty give-Takes
        (Takes-weaken (omega arith) (omega arith) (params_list-Takes n k_le))

  signature-Takes : (n : ℕ) {k : ℕ} → k ≤ n → Takes nums 1 k (signature n)
  unfolding signature
  signature-Takes n k_le = then-Takes 1 0 (omega arith) (consume-Takes "IDENTIFIER") λ t.
      then-Takes 1 0 (omega arith) (consume-Takes "LPAREN") λ _.
        then-Takes 0 0 (omega arith) (params-Takes n (omega arith)) λ ps.
          then-Takes 1 0 (omega arith) (consume-Takes "RPAREN") λ _.
            then-Takes 0 0 (omega arith) (holds_next-Takes "IBAHAGI")
              λ shared. then-Takes 0 0 (omega arith) optional_type-Takes λ s. give-Takes

  at_close-Takes : {k : ℕ} → Takes nums 0 k at_close
  unfolding at_close
  at_close-Takes =
      then-Takes 0 0 (omega arith) (check-Takes "RBRACE")
        λ closing. then-Takes 0 0 (omega arith) is_at_end-Takes λ ended. give-Takes

  module _ (expr : Parse Expr) (b : ℕ) (expr-Takes : Takes nums 1 b expr) where
    initializer-Takes : {k : ℕ} → k ≤ suc b → Takes nums 0 k (initializer expr)
    unfolding initializer
    initializer-Takes k_le = match_any-Takes _ _ 1 (omega arith) give-Takes λ _.
        then-Takes 1 0 (omega arith) (Takes-weaken (omega arith) (omega arith) expr-Takes)
          λ e. give-Takes

    pub variable-Takes : {k : ℕ} → k ≤ suc b → Takes nums 1 k (variable expr)
    unfolding variable
    variable-Takes k_le = then-Takes 1 0 (omega arith) (consume-Takes "IDENTIFIER") λ t.
        then-Takes 0 0 (omega arith) optional_type-Takes λ s.
          then-Takes 0 0 (omega arith) (initializer-Takes (omega arith))
            λ e. then-Takes 0 0 (omega arith) (skip-Takes "SEMICOLON") λ _. give-Takes

    condition-Takes : {k : ℕ} → k ≤ b → Takes nums 1 k (condition expr)
    unfolding condition
    condition-Takes k_le = then-Takes 0 1 (omega arith) (holds_next-Takes "LPAREN") λ opened.
        if-Takes opened
          (then-Takes 1 0 (omega arith) (Takes-weaken (omega arith) (omega arith) expr-Takes)
            λ e. then-Takes 1 0 (omega arith) (consume-Takes "RPAREN") λ _. give-Takes)
          (Takes-weaken (omega arith) (omega arith) expr-Takes)

    return_value_of-Takes : {k : ℕ} → k ≤ b → Takes nums 0 k (return_value_of expr)
    unfolding return_value_of
    return_value_of-Takes k_le = then-Takes 0 0 (omega arith) (check-Takes "SEMICOLON") λ bare.
        then-Takes 0 0 (omega arith) at_close-Takes λ stop. if-Takes (bare || stop) give-Takes (
          then-Takes 1 0 (omega arith) (Takes-weaken (omega arith) (omega arith) expr-Takes)
            λ e. give-Takes)

    pub return_statement-Takes : {k : ℕ} → k ≤ b → Takes nums 0 k (return_statement expr)
    unfolding return_statement
    return_statement-Takes k_le =
        then-Takes 0 0 (omega arith) (return_value_of-Takes k_le)
          λ e. then-Takes 0 0 (omega arith) (skip-Takes "SEMICOLON") λ _. give-Takes

    pub expression_statement-Takes : {k : ℕ} → k ≤ b → Takes nums 1 k (expression_statement expr)
    unfolding expression_statement
    expression_statement-Takes k_le =
        then-Takes 1 0 (omega arith) (Takes-weaken (omega arith) k_le expr-Takes)
          λ e. then-Takes 0 0 (omega arith) (skip-Takes "SEMICOLON") λ _. give-Takes

  module _ (expr : Parse Expr) (inner : Parse Stmt) (b : ℕ) (expr-Takes : Takes nums 1 (suc b) expr)
      (inner-Takes : Takes nums 1 b inner) where
    statements-Takes : (n : ℕ) {k : ℕ} → k ≤ n → k ≤ b → Takes nums 0 k (statements expr inner n)
    unfolding statements
    statements-Takes zero k_le within = Takes-none k_le
    statements-Takes (suc n) k_le within = then-Takes 0 0 (omega arith) at_close-Takes λ stop.
        if-Takes stop give-Takes (
          then-Takes 1 0 (omega arith) (Takes-weaken (omega arith) (omega arith) inner-Takes) λ s.
            then-Takes 0 0 (omega arith) (statements-Takes n (omega arith) (omega arith))
              λ p. give-Takes)

    pub block_statement-Takes :
        (n : ℕ) {k : ℕ} → k ≤ n → k ≤ suc b → Takes nums 1 k (block_statement expr inner n)
    unfolding block_statement
    block_statement-Takes n k_le within = then-Takes 1 0 (omega arith) (consume-Takes "LBRACE") λ _.
        then-Takes 0 0 (omega arith) (statements-Takes n (omega arith) (omega arith))
          λ p. then-Takes 1 0 (omega arith) (consume-Takes "RBRACE") λ _. give-Takes

    else_branch-Takes :
        (n : ℕ) {k : ℕ} → k ≤ n → k ≤ suc b → Takes nums 0 k (else_branch expr inner n)
    unfolding else_branch
    else_branch-Takes zero k_le within = Takes-none k_le
    else_branch-Takes (suc n) k_le within = match_any-Takes _ _ 0 (omega arith) give-Takes λ _.
        match_any-Takes _ _ 0 (omega arith)
          (then-Takes 1 0 (omega arith) (block_statement-Takes n (omega arith) (omega arith))
            λ p. give-Takes)
          λ _.
            then-Takes 1 0 (omega arith) (condition-Takes expr (suc b) expr-Takes (omega arith))
              λ c.
                then-Takes 1 0 (omega arith) (block_statement-Takes n (omega arith) (omega arith))
                  λ t.
                    then-Takes 0 0 (omega arith) (else_branch-Takes n (omega arith) (omega arith))
                      λ e. give-Takes

    pub if_statement-Takes :
        (n : ℕ) {k : ℕ} → k ≤ n → k ≤ suc b → Takes nums 1 k (if_statement expr inner n)
    unfolding if_statement
    if_statement-Takes n k_le within =
        then-Takes 1 0 (omega arith) (condition-Takes expr (suc b) expr-Takes (omega arith)) λ c.
          then-Takes 1 0 (omega arith) (block_statement-Takes n (omega arith) (omega arith)) λ t.
            then-Takes 0 0 (omega arith) (else_branch-Takes n (omega arith) (omega arith))
              λ e. give-Takes

    pub while_statement-Takes :
        (n : ℕ) {k : ℕ} → k ≤ n → k ≤ suc b → Takes nums 1 k (while_statement expr inner n)
    unfolding while_statement
    while_statement-Takes n k_le within =
        then-Takes 1 0 (omega arith) (condition-Takes expr (suc b) expr-Takes (omega arith)) λ c.
          then-Takes 1 0 (omega arith) (block_statement-Takes n (omega arith) (omega arith))
            λ p. give-Takes

    members-Takes : (n : ℕ) {k : ℕ} → k ≤ n → k ≤ suc b → Takes nums 0 k (members expr inner n)
    unfolding members
    members-Takes zero k_le within = Takes-none k_le
    members-Takes (suc n) k_le within = then-Takes 0 0 (omega arith) at_close-Takes λ stop.
        if-Takes stop give-Takes (
          match_any-Takes _ _ 0 (omega arith) unexpected_here-Takes λ (is_field, t).
            if-Takes is_field
              (then-Takes 1 0 (omega arith) (variable-Takes expr (suc b) expr-Takes (omega arith))
                λ d.
                  then-Takes 0 0 (omega arith) (members-Takes n (omega arith) (omega arith))
                    λ ms. give-Takes)
              (then-Takes 1 0 (omega arith) (signature-Takes n (omega arith)) λ s.
                then-Takes 1 0 (omega arith) (block_statement-Takes n (omega arith) (omega arith))
                  λ p.
                    then-Takes 0 0 (omega arith) (members-Takes n (omega arith) (omega arith))
                      λ ms. give-Takes))

    pub contract-Takes :
        (n : ℕ) {k : ℕ} → k ≤ n → k ≤ suc b → Takes nums 1 k (contract expr inner n)
    unfolding contract
    contract-Takes n k_le within = then-Takes 1 0 (omega arith) (consume-Takes "IDENTIFIER") λ t.
        then-Takes 1 0 (omega arith) (consume-Takes "LBRACE") λ _.
          then-Takes 0 0 (omega arith) (members-Takes n (omega arith) (omega arith))
            λ ms. then-Takes 1 0 (omega arith) (consume-Takes "RBRACE") λ _. give-Takes

    pub function-Takes :
        (n : ℕ) {k : ℕ} → k ≤ n → k ≤ suc b → Takes nums 1 k (function expr inner n)
    unfolding function
    function-Takes n k_le within = then-Takes 1 0 (omega arith) (signature-Takes n k_le) λ s.
        then-Takes 1 0 (omega arith) (block_statement-Takes n (omega arith) (omega arith))
          λ p. give-Takes

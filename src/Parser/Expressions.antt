-- ===== src/Parser/Expressions.antt =====
-- compiler/parser.py: every rule for expressions ends and takes a token.
use baybayin_language.Base.{ℕ, zero, suc, ◌≤◌, arith, Dict}
use baybayin_language.Ast.{Expr, BinaryOp}
use baybayin_language.Lexer.Tokens.{Token}
use baybayin_language.Parser.{
  Parse, Numbers, Primary, constant, number, text, name, print_name, paren, primaries, suffixes,
  Suffix, arguments_of, member_of, prefixes, assignable, primary_of, primary, arguments,
  call_arguments, call_suffixes, call_rule, unary_rule, binary_tail, binary_rule, assignment,
  expression_rule, expression,
}
use baybayin_language.Parser.Takes.{
  Takes, Takes-weaken, Takes-none, if-Takes, give-Takes, literal_of-Takes, unexpected_here-Takes,
  unexpected-Takes, then-Takes, match_any-Takes, consume-Takes, check-Takes,
}

suffix-Takes {ℓ} :
    {nums : Numbers} {A : Type ℓ} {d k : ℕ} {p q : Parse A} (s : Suffix)
    → Takes nums d k p
    → Takes nums d k q
    → Takes nums d k (elim s [ arguments_of ↦ p | member_of ↦ q ])
suffix-Takes arguments_of h h' = h
suffix-Takes member_of h h' = h'

module _ (nums : Numbers) (inner : Parse Expr) (b : ℕ) (inner-Takes : Takes nums 1 b inner) where
  inner-Takes_within : {k : ℕ} → k ≤ b → Takes nums 1 k inner
  inner-Takes_within k_le = Takes-weaken (omega arith) k_le inner-Takes

  -- The token that begins it has been taken already.
  primary_of-Takes :
      (p : Primary) (t : Token) {k : ℕ} → k ≤ b → Takes nums 0 k (primary_of nums inner p t)
  unfolding primary_of
  primary_of-Takes (constant l) t k_le = give-Takes
  primary_of-Takes number t k_le = literal_of-Takes t
  primary_of-Takes text t k_le = give-Takes
  primary_of-Takes name t k_le = give-Takes
  primary_of-Takes print_name t k_le = give-Takes
  primary_of-Takes paren t k_le =
      then-Takes 1 0 (omega arith) (inner-Takes_within k_le)
        λ e. then-Takes 1 0 (omega arith) (consume-Takes "RPAREN") λ _. give-Takes

  primary-Takes : {k : ℕ} → k ≤ suc b → Takes nums 1 k (primary nums inner)
  unfolding primary
  primary-Takes k_le =
      match_any-Takes primaries _ 0 (omega arith) unexpected_here-Takes
        λ (p, t). primary_of-Takes p t (omega arith)

  arguments-Takes : (n : ℕ) {k : ℕ} → k ≤ n → k ≤ b → Takes nums 1 k (arguments nums inner n)
  unfolding arguments
  arguments-Takes zero k_le within = Takes-none k_le
  arguments-Takes (suc n) k_le within =
      then-Takes 1 0 (omega arith) (inner-Takes_within within) λ e.
        match_any-Takes _ _ 0 (omega arith) give-Takes λ _.
          then-Takes 1 0 (omega arith) (arguments-Takes n (omega arith) (omega arith))
            λ es. give-Takes

  call_arguments-Takes :
      (n : ℕ) {k : ℕ} → k ≤ n → k ≤ b → Takes nums 1 k (call_arguments nums inner n)
  unfolding call_arguments
  call_arguments-Takes n k_le within = then-Takes 0 1 (omega arith) (check-Takes "RPAREN") λ empty.
      if-Takes empty (then-Takes 1 0 (omega arith) (consume-Takes "RPAREN") λ _. give-Takes) (
        then-Takes 1 0 (omega arith) (arguments-Takes n (omega arith) (omega arith))
          λ es. then-Takes 1 0 (omega arith) (consume-Takes "RPAREN") λ _. give-Takes)

  call_suffixes-Takes :
      (n : ℕ) (e : Expr) {k : ℕ} → k ≤ n → k ≤ suc b → Takes nums 0 k (call_suffixes nums inner n e)
  unfolding call_suffixes
  call_suffixes-Takes zero e k_le within = Takes-none k_le
  call_suffixes-Takes (suc n) e k_le within =
      match_any-Takes suffixes _ 0 (omega arith) give-Takes λ (s, t).
        suffix-Takes s
          (then-Takes 1 0 (omega arith) (call_arguments-Takes n (omega arith) (omega arith))
            λ es. call_suffixes-Takes n _ (omega arith) (omega arith))
          (then-Takes 1 0 (omega arith) (consume-Takes "IDENTIFIER")
            λ t'. call_suffixes-Takes n _ (omega arith) (omega arith))

  call_rule-Takes : (n : ℕ) {k : ℕ} → k ≤ n → k ≤ suc b → Takes nums 1 k (call_rule nums inner n)
  unfolding call_rule
  call_rule-Takes n k_le within =
      then-Takes 1 0 (omega arith) (primary-Takes within)
        λ e. call_suffixes-Takes n e (omega arith) (omega arith)

  unary_rule-Takes : (n : ℕ) {k : ℕ} → k ≤ n → k ≤ suc b → Takes nums 1 k (unary_rule nums inner n)
  unfolding unary_rule
  unary_rule-Takes zero k_le within = Takes-none k_le
  unary_rule-Takes (suc n) k_le within =
      match_any-Takes prefixes _ 1 (omega arith) (call_rule-Takes (suc n) k_le within) λ (op, t).
        then-Takes 1 0 (omega arith) (unary_rule-Takes n (omega arith) (omega arith))
          λ e. give-Takes

module _ {nums : Numbers} (ops : Dict BinaryOp) (operand : Parse Expr) (b : ℕ)
    (operand-Takes : Takes nums 1 b operand) where
  binary_tail-Takes :
      (n : ℕ) (e : Expr) {k : ℕ} → k ≤ n → k ≤ b → Takes nums 0 k (binary_tail n ops operand e)
  unfolding binary_tail
  binary_tail-Takes zero e k_le within = Takes-none k_le
  binary_tail-Takes (suc n) e k_le within =
      match_any-Takes ops _ 0 (omega arith) give-Takes λ (op, t).
        then-Takes 1 0 (omega arith) (Takes-weaken (omega arith) (omega arith) operand-Takes)
          λ r. binary_tail-Takes n _ (omega arith) (omega arith)

  binary_rule-Takes : (n : ℕ) → b ≤ n → Takes nums 1 b (binary_rule n ops operand)
  unfolding binary_rule
  binary_rule-Takes n b_le =
      then-Takes 1 0 (omega arith) operand-Takes
        λ e. binary_tail-Takes n e (omega arith) (omega arith)

assignment-Takes :
    {nums : Numbers} (n : ℕ) (operand : Parse Expr) (b : ℕ) {k : ℕ}
    → Takes nums 1 b operand
    → k ≤ n
    → k ≤ b
    → Takes nums 1 k (assignment n operand)
unfolding assignment
assignment-Takes zero operand b h k_le within = Takes-none k_le
assignment-Takes (suc n) operand b h k_le within =
    then-Takes 1 0 (omega arith) (Takes-weaken (omega arith) within h) λ target.
      match_any-Takes _ _ 0 (omega arith) give-Takes λ (_, t).
        then-Takes 1 0 (omega arith) (assignment-Takes n operand b h (omega arith) (omega arith))
          λ e. if-Takes (assignable target) give-Takes unexpected-Takes

-- An expression takes a token at least, and fuel for the tokens that are left is enough.
pub expression-Takes : (nums : Numbers) (n : ℕ) → Takes nums 1 n (expression nums n)
unfolding expression expression_rule
expression-Takes nums zero = Takes-none (omega arith)
expression-Takes nums (suc n) =
    let same : suc n ≤ suc n = omega arith in
    let unary =
      unary_rule-Takes nums (expression nums n) n (expression-Takes nums n) (suc n) same same in
    let factor = binary_rule-Takes _ _ (suc n) unary (suc n) same in
    let term = binary_rule-Takes _ _ (suc n) factor (suc n) same in
    let comparison = binary_rule-Takes _ _ (suc n) term (suc n) same in
    let equality = binary_rule-Takes _ _ (suc n) comparison (suc n) same in
    assignment-Takes (suc n) _ (suc n) equality same same

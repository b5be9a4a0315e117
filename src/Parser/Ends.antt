-- ===== src/Parser/Ends.antt =====
-- compiler/parser.py: `parse` ends, with a program or a ParserError.
use baybayin_language.Base.{
  ℕ, zero, suc, ◌-◌, ◌≤◌, ◌≡◌, refl, ◌⊎◌, inl, inr, true, none, List, length, arith,
}
use baybayin_language.Ast.{Expr, Stmt, Program}
use baybayin_language.Lexer.Tokens.{Token}
use baybayin_language.Parser.{
  Outcome, parsed, unexpected, bad_number, number_literal, Parse, Numbers, expression,
}
use baybayin_language.Parser.Programs.{
  Keyword, kontrata, tungkulin, itakda, kung, habang, ibalik, keywords, keyword_rule,
  plain_statement, declaration_rule, declaration, declarations, parse,
}
use baybayin_language.Parser.Takes.{
  has_end, Fits, Leaves, left, stopped, refused, Takes, Takes-weaken, Takes-none, if-Takes,
  give-Takes, then-Takes, match_any-Takes, check-Takes, is_at_end-Takes,
}
use baybayin_language.Parser.Expressions.{expression-Takes}
use baybayin_language.Parser.Statements.{
  variable-Takes, return_statement-Takes, expression_statement-Takes, block_statement-Takes,
  if_statement-Takes, while_statement-Takes, contract-Takes, function-Takes,
}

module _ {nums : Numbers} (expr : Parse Expr) (inner : Parse Stmt) (b : ℕ)
    (expr-Takes : Takes nums 1 (suc b) expr) (inner-Takes : Takes nums 1 b inner) where
  -- The keyword has been taken already.
  keyword_rule-Takes :
      (n : ℕ) (w : Keyword) {k : ℕ}
      → k ≤ n
      → k ≤ suc b
      → Takes nums 0 k (keyword_rule expr inner n w)
  unfolding keyword_rule
  keyword_rule-Takes n kontrata k_le within =
      Takes-weaken (omega arith) (omega arith)
        (contract-Takes expr inner b expr-Takes inner-Takes n k_le within)
  keyword_rule-Takes n tungkulin k_le within =
      Takes-weaken (omega arith) (omega arith)
        (function-Takes expr inner b expr-Takes inner-Takes n k_le within)
  keyword_rule-Takes n itakda k_le within =
      then-Takes 1 0 (omega arith) (variable-Takes expr (suc b) expr-Takes (omega arith))
        λ d. give-Takes
  keyword_rule-Takes n kung k_le within =
      Takes-weaken (omega arith) (omega arith)
        (if_statement-Takes expr inner b expr-Takes inner-Takes n k_le within)
  keyword_rule-Takes n habang k_le within =
      Takes-weaken (omega arith) (omega arith)
        (while_statement-Takes expr inner b expr-Takes inner-Takes n k_le within)
  keyword_rule-Takes n ibalik k_le within = return_statement-Takes expr (suc b) expr-Takes within

  plain_statement-Takes :
      (n : ℕ) {k : ℕ} → k ≤ n → k ≤ suc b → Takes nums 1 k (plain_statement expr inner n)
  unfolding plain_statement
  plain_statement-Takes n k_le within =
      then-Takes 0 1 (omega arith) (check-Takes "LBRACE") λ opened.
        if-Takes opened
          (then-Takes 1 0 (omega arith)
            (block_statement-Takes expr inner b expr-Takes inner-Takes n (omega arith)
              (omega arith))
            λ p. give-Takes)
          (expression_statement-Takes expr (suc b) expr-Takes (omega arith))

  declaration_rule-Takes :
      (n : ℕ) {k : ℕ} → k ≤ n → k ≤ suc b → Takes nums 1 k (declaration_rule expr inner n)
  unfolding declaration_rule
  declaration_rule-Takes n k_le within =
      match_any-Takes keywords _ 0 (omega arith) (plain_statement-Takes n k_le within)
        λ (w, t). keyword_rule-Takes n w (omega arith) (omega arith)

declaration-Takes : (nums : Numbers) (n : ℕ) → Takes nums 1 n (declaration nums n)
unfolding declaration
declaration-Takes nums zero = Takes-none (omega arith)
declaration-Takes nums (suc n) =
    let same : suc n ≤ suc n = omega arith in
    declaration_rule-Takes (expression nums (suc n)) (declaration nums n) n
      (expression-Takes nums (suc n)) (declaration-Takes nums n) (suc n) same same

declarations-Takes :
    {nums : Numbers} (rule : Parse Stmt) (b : ℕ)
    → Takes nums 1 b rule
    → (n : ℕ) {k : ℕ} → k ≤ n
    → k ≤ b
    → Takes nums 0 k (declarations rule n)
unfolding declarations
declarations-Takes rule b h zero k_le within = Takes-none k_le
declarations-Takes rule b h (suc n) k_le within =
    then-Takes 0 0 (omega arith) is_at_end-Takes λ stop. if-Takes stop give-Takes (
      then-Takes 1 0 (omega arith) (Takes-weaken (omega arith) (omega arith) h) λ s.
        then-Takes 0 0 (omega arith) (declarations-Takes rule b h n (omega arith) (omega arith))
          λ p. give-Takes)

-- A run that leaves tokens, a ParserError, or the ValueError of a number.
Leaves-cases {ℓ} :
    {A : Type ℓ} {nums : Numbers} {k : ℕ} {r : Outcome A}
    → Leaves nums k r
    → ((a : A) × (ts : List Token) × (r ≡ parsed a ts))
      ⊎ ((t : Token) × (r ≡ unexpected t))
      ⊎ ((t : Token) × (r ≡ bad_number t) × (number_literal nums t.value ≡ none))
Leaves-cases (left {a} {ts} h) = inl (a, ts, refl)
Leaves-cases (stopped {t}) = inr (inl (t, refl))
Leaves-cases (refused {t} e) = inr (inr (t, refl, e))

-- On tokens with an EOF among them, with as much fuel as there are tokens, the parser gives a program, a
-- ParserError at a token, or the ValueError of a number's token whose text Python does not convert: it
-- neither runs out of fuel nor reads past the last token.
pub parse-ends :
    (nums : Numbers) (n : ℕ) (ts : List Token)
    → length ts ≤ n
    → has_end ts ≡ true
    → ((p : Program) × (rest : List Token) × (parse nums n ts ≡ parsed p rest))
      ⊎ ((t : Token) × (parse nums n ts ≡ unexpected t))
      ⊎ ((t : Token) × (parse nums n ts ≡ bad_number t) × (number_literal nums t.value ≡ none))
unfolding parse
parse-ends nums n ts enough ends =
    let same : n ≤ n = omega arith in
    let takes = declarations-Takes (declaration nums n) n (declaration-Takes nums n) n same same in
    Leaves-cases (takes.run n ts same (record { size = enough; ends = ends }))

-- An expression takes a token at least, and what it leaves still has the EOF.
pub expression-progress :
    (nums : Numbers) (ts : List Token) (e : Expr) (rest : List Token)
    → has_end ts ≡ true
    → expression nums (length ts) ts ≡ parsed e rest
    → (length rest ≤ length ts - 1) × (has_end rest ≡ true)
expression-progress nums ts e rest ends h = kept (takes.run (length ts) ts same fits) h
  where
    same : length ts ≤ length ts
    same = omega arith

    takes : Takes nums 1 (length ts) (expression nums (length ts))
    takes = expression-Takes nums (length ts)

    fits : Fits (length ts) ts
    fits = record { size = same; ends = ends }

    kept :
        {k : ℕ} {r : Outcome Expr}
        → Leaves nums k r
        → r ≡ parsed e rest
        → (length rest ≤ k) × (has_end rest ≡ true)
    kept (left {ts} f) eq = let size = f.size in let ends = f.ends in (grind arith, grind arith)
    kept stopped eq = cc
    kept (refused _) eq = cc

-- ===== src/Parser/Fronts.antt =====
-- compiler/parser.py: the first token of a printed statement, by which the loops and the rules decide.
use baybayin_language.Base.{ℕ, String, ◌≡◌, refl, false, none, some, List, [], ◌∷◌, lookup}
use baybayin_language.Lexer.Tokens.{Token}
use baybayin_language.Ast.{
  Stmt, contract_decl, func_decl, var_decl, block, if_stmt, while_stmt, return_stmt, expr_stmt,
  Block, end, seq,
}
use baybayin_language.Parser.{parsed, at_end, check, is_at_end, match_any}
use baybayin_language.Parser.Reading.{Stops}
use baybayin_language.Parser.Openings.{
  Front, front, number_front, text_front, name_front, true_front, false_front, none_front,
  paren_front, not_front, minus_front, printed-Front,
}
use baybayin_language.Parser.Declarations.{at_close}
use baybayin_language.Parser.Programs.{keywords}
use baybayin_language.Parser.Source.{semicolon, stmt_tokens, block_tokens}

-- A block, a contract or a program goes on, and no branch of an `if` does.
pub record Continues (ts : List Token) : Type 0 where
  pub goes_on : at_close ts ≡ parsed false ts
  pub not_over : is_at_end ts ≡ parsed false ts
  pub no_branch : Stops {A = Unit {0}} (("KUNDI", tt) ∷ []) ts

-- An expression stands here, and no keyword, block or empty statement.
pub record Plain (ts : List Token) : Type 0 where
  pub continues : Continues ts
  pub no_keyword : Stops keywords ts
  pub no_block : check "LBRACE" ts ≡ parsed false ts
  pub not_empty : check "SEMICOLON" ts ≡ parsed false ts

continue_by :
    {ts : List Token}
    → at_close ts ≡ parsed false ts
    → is_at_end ts ≡ parsed false ts
    → Stops {A = Unit {0}} (("KUNDI", tt) ∷ []) ts
    → Continues ts
continue_by goes_on not_over no_branch = record {
  goes_on = goes_on;
  not_over = not_over;
  no_branch = no_branch;
}

plain :
    {ts : List Token}
    → Continues ts
    → Stops keywords ts
    → check "LBRACE" ts ≡ parsed false ts
    → check "SEMICOLON" ts ≡ parsed false ts
    → Plain ts
plain continues no_keyword no_block not_empty = record {
  continues = continues;
  no_keyword = no_keyword;
  no_block = no_block;
  not_empty = not_empty;
}

pub Front-Plain : {ts : List Token} → Front ts → Plain ts
unfolding at_close is_at_end check at_end match_any lookup
Front-Plain (front number_front) = plain (continue_by refl refl refl) refl refl refl
Front-Plain (front text_front) = plain (continue_by refl refl refl) refl refl refl
Front-Plain (front name_front) = plain (continue_by refl refl refl) refl refl refl
Front-Plain (front true_front) = plain (continue_by refl refl refl) refl refl refl
Front-Plain (front false_front) = plain (continue_by refl refl refl) refl refl refl
Front-Plain (front none_front) = plain (continue_by refl refl refl) refl refl refl
Front-Plain (front paren_front) = plain (continue_by refl refl refl) refl refl refl
Front-Plain (front not_front) = plain (continue_by refl refl refl) refl refl refl
Front-Plain (front minus_front) = plain (continue_by refl refl refl) refl refl refl

module _ (show : ℕ → String) where
  pub stmt-Continues : (s : Stmt) (ts : List Token) → Continues (stmt_tokens show s ts)
  unfolding at_close is_at_end check at_end match_any lookup stmt_tokens
  stmt-Continues (contract_decl x ms) ts = continue_by refl refl refl
  stmt-Continues (func_decl s b) ts = continue_by refl refl refl
  stmt-Continues (var_decl d) ts = continue_by refl refl refl
  stmt-Continues (block b) ts = continue_by refl refl refl
  stmt-Continues (if_stmt c t e) ts = continue_by refl refl refl
  stmt-Continues (while_stmt c b) ts = continue_by refl refl refl
  stmt-Continues (return_stmt none) ts = continue_by refl refl refl
  stmt-Continues (return_stmt (some e)) ts = continue_by refl refl refl
  stmt-Continues (expr_stmt e) ts = (Front-Plain (printed-Front show e (semicolon ∷ ts))).continues

  -- No `kundi` stands behind the end of a statement of a block.
  pub block-no_branch :
      (b : Block) (ts : List Token)
      → Stops {A = Unit {0}} (("KUNDI", tt) ∷ []) ts
      → Stops {A = Unit {0}} (("KUNDI", tt) ∷ []) (block_tokens show b ts)
  unfolding block_tokens
  block-no_branch end ts h = h
  block-no_branch (seq s b) ts h = (stmt-Continues s (block_tokens show b ts)).no_branch

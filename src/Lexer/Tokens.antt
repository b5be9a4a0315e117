-- ===== src/Lexer/Tokens.antt =====
-- compiler/lexer.py: a token, with the position at which it begins.
use baybayin_language.Base.{ℕ, String}

pub record Token : Type 0 where
  pub type : String
  pub value : String
  pub line : ℕ
  pub column : ℕ

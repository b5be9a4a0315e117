-- ===== src/Parser/Openings.antt =====
-- compiler/parser.py: the first token of a printed expression, and those between its parts.
use baybayin_language.Base.{
  ℕ, String, ◌+◌, ◌≤◌, ◌≡◌, refl, true, false, Bool-cases, inl, inr, some, List, [], ◌∷◌, ◌++◌,
  append_assoc, ltb, lookup, arith,
}
use baybayin_language.Lexer.Tokens.{Token}
use baybayin_language.Ast.{
  numero, decimal, teksto, kondisyon, wala, Expr, literal, identifier, member, call, unary, binary,
  assign, BinaryOp, add, sub, mul, div, lt, gt, le, ge, eq, ne, bang, minus,
}
use baybayin_language.Parser.{parsed, at_end, match_any, prefixes}
use baybayin_language.Parser.Printed.{
  tok, rank, op_token, level, in_parens, printed, printed_args, at_level,
}
use baybayin_language.Parser.Reading.{ops_at, Stops, Quiet}

pub op_found :
    (op : BinaryOp) (ts : List Token)
    → match_any (ops_at (rank op)) (op_token op ∷ ts) ≡ parsed (some (op, op_token op)) ts
unfolding match_any at_end lookup
op_found mul ts = refl
op_found div ts = refl
op_found add ts = refl
op_found sub ts = refl
op_found lt ts = refl
op_found gt ts = refl
op_found le ts = refl
op_found ge ts = refl
op_found eq ts = refl
op_found ne ts = refl

pub op_Quiet : (op : BinaryOp) (ts : List Token) → Quiet (rank op) (op_token op ∷ ts)
unfolding match_any at_end lookup Quiet
op_Quiet mul ts = refl
op_Quiet div ts = refl
op_Quiet add ts = (refl, refl)
op_Quiet sub ts = (refl, refl)
op_Quiet lt ts = (refl, (refl, refl))
op_Quiet gt ts = (refl, (refl, refl))
op_Quiet le ts = (refl, (refl, refl))
op_Quiet ge ts = (refl, (refl, refl))
op_Quiet eq ts = (refl, (refl, (refl, refl)))
op_Quiet ne ts = (refl, (refl, (refl, refl)))

pub rank_bound : (op : BinaryOp) → rank op ≤ 3
rank_bound mul = omega arith
rank_bound div = omega arith
rank_bound add = omega arith
rank_bound sub = omega arith
rank_bound lt = omega arith
rank_bound gt = omega arith
rank_bound le = omega arith
rank_bound ge = omega arith
rank_bound eq = omega arith
rank_bound ne = omega arith

-- The tokens that an expression may begin with.
pub data Starter : Token → Type 0 where
  number_front : {x : String} → Starter (tok "NUMBER" x)
  text_front : {x : String} → Starter (tok "STRING" x)
  name_front : {x : String} → Starter (tok "IDENTIFIER" x)
  true_front : Starter (tok "TAMA" "tama")
  false_front : Starter (tok "MALI" "mali")
  none_front : Starter (tok "WALA" "wala")
  paren_front : Starter (tok "LPAREN" "(")
  not_front : Starter (tok "NOT" "!")
  minus_front : Starter (tok "MINUS" "-")

pub data Front : List Token → Type 0 where
  front : {t : Token} {ts : List Token} → Starter t → Front (t ∷ ts)

pub in_parens-starts : (xs ts : List Token) → Stops prefixes (in_parens xs ++ ts)
unfolding match_any at_end lookup
in_parens-starts xs ts = refl

module _ (show : ℕ → String) where
  -- An expression at a level stands there as it is, or in parentheses.
  pub pick {ℓ} :
      (r : ℕ) (e : Expr) (P : List Token → Type ℓ)
      → (level e ≤ r → P (printed show e))
      → P (in_parens (printed show e))
      → P (at_level show r e)
  pick r e P p q = elim (Bool-cases (ltb r (level e))) [
    | inl loose ↦ rw loose q
    | inr tight ↦ rw tight (p (ground arith))
  ]

  -- Where a printed expression may bind as tightly as a call, no prefix operator stands in front.
  pub printed-starts :
      (e : Expr) (ts : List Token) → level e ≤ 1 → Stops prefixes (printed show e ++ ts)
  unfolding match_any at_end lookup printed
  printed-starts (literal (numero n)) ts h = refl
  printed-starts (literal (decimal x)) ts h = refl
  printed-starts (literal (teksto s)) ts h = refl
  printed-starts (literal (kondisyon true)) ts h = refl
  printed-starts (literal (kondisyon false)) ts h = refl
  printed-starts (literal wala) ts h = refl
  printed-starts (identifier x) ts h = refl
  printed-starts (member e x) ts h =
      let xs = at_level show 1 e in
      rw (append_assoc xs (tok "DOT" "." ∷ tok "IDENTIFIER" x ∷ []) ts) (
        pick 1 e (λ xs. Stops prefixes (xs ++ (tok "DOT" "." ∷ tok "IDENTIFIER" x ∷ ts)))
          (printed-starts e (tok "DOT" "." ∷ tok "IDENTIFIER" x ∷ ts)) refl)
  printed-starts (call e es) ts h =
      rw (append_assoc (at_level show 1 e) (in_parens (printed_args show es)) ts) (
        pick 1 e (λ xs. Stops prefixes (xs ++ (in_parens (printed_args show es) ++ ts)))
          (printed-starts e (in_parens (printed_args show es) ++ ts)) refl)
  printed-starts (unary op e) ts h = absurd (omega arith)
  printed-starts (binary l op r) ts h = absurd (omega arith)
  printed-starts (assign t e) ts h = absurd (omega arith)

  at_level-Front :
      (r : ℕ) (e : Expr) (ys ts : List Token)
      → ((zs : List Token) → Front (printed show e ++ zs))
      → Front ((at_level show r e ++ ys) ++ ts)
  at_level-Front r e ys ts h =
      rw (append_assoc (at_level show r e) ys ts)
        (pick r e (λ xs. Front (xs ++ (ys ++ ts))) (λ _. h (ys ++ ts)) (front paren_front))

  pub printed-Front : (e : Expr) (ts : List Token) → Front (printed show e ++ ts)
  unfolding printed
  printed-Front (literal (numero n)) ts = front number_front
  printed-Front (literal (decimal x)) ts = front number_front
  printed-Front (literal (teksto s)) ts = front text_front
  printed-Front (literal (kondisyon true)) ts = front true_front
  printed-Front (literal (kondisyon false)) ts = front false_front
  printed-Front (literal wala) ts = front none_front
  printed-Front (identifier x) ts = front name_front
  printed-Front (unary bang e) ts = front not_front
  printed-Front (unary minus e) ts = front minus_front
  printed-Front (member e x) ts =
      at_level-Front 1 e (tok "DOT" "." ∷ tok "IDENTIFIER" x ∷ []) ts (printed-Front e)
  printed-Front (call e es) ts =
      at_level-Front 1 e (in_parens (printed_args show es)) ts (printed-Front e)
  printed-Front (binary l op r) ts =
      at_level-Front (3 + rank op) l (op_token op ∷ at_level show (2 + rank op) r) ts
        (printed-Front l)
  printed-Front (assign t e) ts =
      at_level-Front 6 t (tok "ASSIGN" "=" ∷ printed show e) ts (printed-Front t)

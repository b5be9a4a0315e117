-- ===== src/Parser/Clauses.antt =====
-- compiler/parser.py: types, parameters, signatures, variables and conditions are read back.
use text.Mathlib.TextEquality.{eq_iff}
use baybayin_language.Base.{
  ℕ, zero, suc, ◌≤◌, ◌≡◌, refl, sym, ap, String, Bool, true, false, Bool-cases, inl, inr, Option,
  none, some, List, [], ◌∷◌, ◌++◌, length, length-append, str_eq, lookup, arith,
}
use baybayin_language.Lexer.Tokens.{Token}
use baybayin_language.Ast.{Expr, Param, VarDecl, Signature}
use baybayin_language.Parser.{parsed, Numbers, at_end, check, match_any, consume, expression}
use baybayin_language.Parser.Printed.{tok, printed, Fine}
use baybayin_language.Parser.Reading.{Stops, Quiet, closing}
use baybayin_language.Parser.Sizes.{types_longer}
use baybayin_language.Parser.RoundTrip.{expression-printed}
use baybayin_language.Parser.Declarations.{
  skip, holds_next, parse_type, optional_type, param, params_list, params, signature, initializer,
  variable, condition,
}
use baybayin_language.Parser.Source.{
  semicolon, lbrace, type_token, type_tokens, shared_tokens, params_tokens, signature_tokens,
  init_tokens, var_tokens, condition_tokens, FineOption,
}

same_text : (s s' : String) → str_eq s s' ≡ true → s ≡ s'
same_text s s' h = (eq_iff s s').0 h

type_back : (s : String) (ts : List Token) → parse_type (type_token s ∷ ts) ≡ parsed s ts
unfolding type_token parse_type match_any at_end lookup
type_back s ts = elim (Bool-cases (str_eq s "buo")) [
  | inl e ↦ rw e (ap (λ u. parsed u ts) (sym (same_text s "buo" e)))
  | inr n ↦ elim (Bool-cases (str_eq s "teksto")) [
    | inl e ↦ rw (n, e) (ap (λ u. parsed u ts) (sym (same_text s "teksto" e)))
    | inr n' ↦ elim (Bool-cases (str_eq s "kondisyon")) [
      | inl e ↦ rw (n, n', e) (ap (λ u. parsed u ts) (sym (same_text s "kondisyon" e)))
      | inr n'' ↦ elim (Bool-cases (str_eq s "alamat")) [
        | inl e ↦ rw (n, n', n'', e) (ap (λ u. parsed u ts) (sym (same_text s "alamat" e)))
        | inr last ↦ rw (n, n', n'', last) refl
      ]
    ]
  ]
]

-- A type, if there is one, in front of a token that is no colon.
types_back :
    (o : Option String) (ts : List Token)
    → Stops {A = Unit {0}} (("COLON", tt) ∷ []) ts
    → optional_type (type_tokens o ts) ≡ parsed o ts
unfolding optional_type match_any at_end lookup
types_back none ts stops = rw stops
types_back (some s) ts stops = rw (type_back s ts)

params_list_back :
    (p : Param) (ps : List Param) (n : ℕ) (ts : List Token)
    → length (params_tokens (p ∷ ps) (tok "RPAREN" ")" ∷ ts)) ≤ n
    → params_list n (params_tokens (p ∷ ps) (tok "RPAREN" ")" ∷ ts))
      ≡ parsed (p ∷ ps) (tok "RPAREN" ")" ∷ ts)
unfolding params_tokens params_list param consume match_any at_end lookup
params_list_back p [] zero ts enough = absurd (omega arith)
params_list_back p (q ∷ ps) zero ts enough = absurd (omega arith)
params_list_back p [] (suc n) ts enough = rw (type_back p.type_ann (tok "RPAREN" ")" ∷ ts))
params_list_back p (q ∷ ps) (suc n) ts enough =
    let end = tok "RPAREN" ")" ∷ ts in
    rw (
      type_back p.type_ann (tok "COMMA" "," ∷ params_tokens (q ∷ ps) end),
      params_list_back q ps n ts (omega arith),
    )

params_back :
    (ps : List Param) (n : ℕ) (ts : List Token)
    → length (params_tokens ps (tok "RPAREN" ")" ∷ ts)) ≤ n
    → params n (params_tokens ps (tok "RPAREN" ")" ∷ ts)) ≡ parsed ps (tok "RPAREN" ")" ∷ ts)
unfolding params check params_tokens at_end
params_back [] n ts enough = refl
params_back (p ∷ []) n ts enough = params_list_back p [] n ts enough
params_back (p ∷ q ∷ ps) n ts enough = params_list_back p (q ∷ ps) n ts enough

shared_back :
    (b : Bool) (o : Option String) (ts : List Token)
    → holds_next "IBAHAGI" (shared_tokens b (type_tokens o (lbrace ∷ ts)))
      ≡ parsed b (type_tokens o (lbrace ∷ ts))
unfolding holds_next match_any at_end lookup
shared_back true o ts = refl
shared_back false none ts = refl
shared_back false (some s) ts = refl

pub signature_back :
    (s : Signature) (n : ℕ) (ts : List Token)
    → length (signature_tokens s (lbrace ∷ ts)) ≤ n
    → signature n (signature_tokens s (lbrace ∷ ts)) ≡ parsed s (lbrace ∷ ts)
unfolding signature consume holds_next match_any at_end lookup
signature_back s n ts enough =
    let rest = type_tokens s.return_type (lbrace ∷ ts) in
    rw (
      params_back s.params n (shared_tokens s.is_public rest) (omega arith),
      shared_back s.is_public s.return_type ts,
      types_back s.return_type (lbrace ∷ ts) refl,
    )

-- Behind the expression of a statement.
ending :
    (ts : List Token)
    → Stops {A = Unit {0}} (("ASSIGN", tt) ∷ []) (semicolon ∷ ts) × Quiet 4 (semicolon ∷ ts)
unfolding match_any Quiet at_end lookup
ending ts = (refl, (refl, (refl, (refl, (refl, refl)))))

module _ (show : ℕ → String) (nums : Numbers) where
  pub expression_back :
      (e : Expr) (n : ℕ) (ts : List Token)
      → Fine show nums e
      → length (printed show e ++ semicolon ∷ ts) ≤ n
      → expression nums n (printed show e ++ semicolon ∷ ts) ≡ parsed e (semicolon ∷ ts)
  expression_back e n ts fine enough =
      let (stops, quiet) = ending ts in
      let size = length-append (printed show e) (semicolon ∷ ts) in
      expression-printed show nums e n (semicolon ∷ ts) fine (omega (arith, size)) stops quiet

  pub condition_back :
      (c : Expr) (n : ℕ) (ts : List Token)
      → Fine show nums c
      → length (condition_tokens show c ts) ≤ n
      → condition (expression nums n) (condition_tokens show c ts) ≡ parsed c ts
  unfolding condition holds_next consume match_any at_end lookup
  condition_back c n ts fine enough =
      let (stops, quiet) = closing ts in
      let end = tok "RPAREN" ")" ∷ ts in
      let size = length-append (printed show c) end in
      rw (expression-printed show nums c n end fine (omega (arith, size)) stops quiet)

  init_back :
      (o : Option Expr) (n : ℕ) (ts : List Token)
      → FineOption show nums o
      → length (init_tokens show o (semicolon ∷ ts)) ≤ n
      → initializer (expression nums n) (init_tokens show o (semicolon ∷ ts))
        ≡ parsed o (semicolon ∷ ts)
  unfolding initializer match_any at_end lookup
  init_back none n ts fine enough = refl
  init_back (some e) n ts fine enough = rw (expression_back e n ts fine (omega arith))

  no_colon :
      (o : Option Expr) (ts : List Token)
      → Stops {A = Unit {0}} (("COLON", tt) ∷ []) (init_tokens show o (semicolon ∷ ts))
  unfolding match_any at_end lookup
  no_colon none ts = refl
  no_colon (some e) ts = refl

  pub variable_back :
      (d : VarDecl) (n : ℕ) (ts : List Token)
      → FineOption show nums d.initializer
      → length (var_tokens show d ts) ≤ n
      → variable (expression nums n) (var_tokens show d ts) ≡ parsed d ts
  unfolding variable consume skip match_any at_end lookup
  variable_back d n ts fine enough =
      let rest = init_tokens show d.initializer (semicolon ∷ ts) in
      rw (
        types_back d.type_ann rest (no_colon d.initializer ts),
        init_back d.initializer n ts fine (omega (arith, types_longer d.type_ann rest)),
      )

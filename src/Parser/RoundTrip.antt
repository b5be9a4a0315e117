-- ===== src/Parser/RoundTrip.antt =====
-- compiler/parser.py: the rules for expressions read back what Printed describes.
use baybayin_language.Base.{
  ℕ, zero, suc, ◌+◌, ◌<◌, ◌≡◌, refl, false, List, [], ◌∷◌, ◌++◌, append_assoc, length,
  length-append, String, lookup, arith,
}
use baybayin_language.Lexer.Tokens.{Token}
use baybayin_language.Ast.{
  Expr, literal, identifier, member, call, unary, binary, assign, Exprs, no_args, arg,
}
use baybayin_language.Parser.{
  parsed, Numbers, at_end, check, match_any, consume, arguments, call_arguments, call_suffixes,
  expression_rule, expression,
}
use baybayin_language.Parser.Printed.{
  tok, in_parens, printed, printed_args, at_level, Fine, FineArgs,
}
use baybayin_language.Parser.Reading.{
  Stops, Quiet, binary_at, Suffixed, Atom-Suffixed, from_next, closing,
}
use baybayin_language.Parser.Openings.{
  Front, front, number_front, text_front, name_front, true_front, false_front, none_front,
  paren_front, not_front, minus_front, printed-Front,
}
use baybayin_language.Parser.Levels.{
  Reads, Prefixed-Reads, Suffixed-Reads, Chained-Reads, Whole-Reads,
}
use baybayin_language.Parser.Operands.{
  literal-Atom, identifier-Atom, member-Suffixed, unary-Prefixed, binary-Chained, assign-Whole,
}

module _ (show : ℕ → String) (nums : Numbers) where
  -- `expression` itself.
  whole_expression :
      (e : Expr)
      → Reads show nums e
      → (n : ℕ) (ts : List Token) → length (printed show e) < n
      → Stops {A = Unit {0}} (("ASSIGN", tt) ∷ []) ts
      → Quiet 4 ts
      → expression nums n (printed show e ++ ts) ≡ parsed e ts
  unfolding expression expression_rule binary_at
  whole_expression e reads zero ts short stops quiet = absurd (omega arith)
  whole_expression e reads (suc n) ts short stops quiet =
      reads.whole n (suc n) ts (omega arith) (omega arith) stops quiet

  -- The arguments of a call up to the parenthesis behind them.
  abbrev ReadsSome : Exprs → Type 0
  ReadsSome es =
      (n f : ℕ) (ts : List Token)
      → length (printed_args show es) < n
      → length (printed_args show es) < f
      → arguments nums (expression nums n) f (printed_args show es ++ tok "RPAREN" ")" ∷ ts)
        ≡ parsed es (tok "RPAREN" ")" ∷ ts)

  last-ReadsSome : (e : Expr) → Reads show nums e → ReadsSome (arg e no_args)
  unfolding lookup match_any at_end printed arguments
  last-ReadsSome e reads n zero ts short fuel = absurd (omega arith)
  last-ReadsSome e reads n (suc f) ts short fuel =
      let (stops, quiet) = closing ts in
      rw (whole_expression e reads n (tok "RPAREN" ")" ∷ ts) short stops quiet)

  next-ReadsSome :
      (e e' : Expr) (es : Exprs)
      → Reads show nums e
      → ReadsSome (arg e' es)
      → ReadsSome (arg e (arg e' es))
  unfolding lookup match_any at_end printed arguments Quiet
  next-ReadsSome e e' es reads rest n zero ts short fuel = absurd (omega arith)
  next-ReadsSome e e' es reads rest n (suc f) ts short fuel =
      let xs = printed show e in
      let ys = printed_args show (arg e' es) in
      let end = tok "RPAREN" ")" ∷ ts in
      let size = length-append xs (tok "COMMA" "," ∷ ys) in
      rw (
        append_assoc xs (tok "COMMA" "," ∷ ys) end,
        whole_expression e reads n (tok "COMMA" "," ∷ (ys ++ end)) (omega (arith, size)) refl
            (refl, (refl, (refl, (refl, refl)))),
        rest n f ts (omega (arith, size)) (omega (arith, size)),
      )

  Front-args : {ts : List Token} → Front ts → check "RPAREN" ts ≡ parsed false ts
  unfolding check at_end
  Front-args (front number_front) = refl
  Front-args (front text_front) = refl
  Front-args (front name_front) = refl
  Front-args (front true_front) = refl
  Front-args (front false_front) = refl
  Front-args (front none_front) = refl
  Front-args (front paren_front) = refl
  Front-args (front not_front) = refl
  Front-args (front minus_front) = refl

  args-Front :
      (e : Expr) (es : Exprs) (ts : List Token) → Front (printed_args show (arg e es) ++ ts)
  unfolding printed
  args-Front e no_args ts = printed-Front show e ts
  args-Front e (arg e' es) ts =
      let ys = tok "COMMA" "," ∷ printed_args show (arg e' es) in
      rw (append_assoc (printed show e) ys ts) (printed-Front show e (ys ++ ts))

  abbrev ReadsArgs : Exprs → Type 0
  ReadsArgs es =
      (n f : ℕ) (ts : List Token)
      → length (printed_args show es) < n
      → length (printed_args show es) < f
      → call_arguments nums (expression nums n) f (printed_args show es ++ tok "RPAREN" ")" ∷ ts)
        ≡ parsed es ts

  none-ReadsArgs : ReadsArgs no_args
  unfolding printed call_arguments check consume at_end
  none-ReadsArgs n f ts short fuel = refl

  some-ReadsArgs : (e : Expr) (es : Exprs) → ReadsSome (arg e es) → ReadsArgs (arg e es)
  unfolding call_arguments consume at_end
  some-ReadsArgs e es reads n f ts short fuel =
      rw (Front-args (args-Front e es (tok "RPAREN" ")" ∷ ts)), reads n f ts short fuel)

  abbrev ReadsIfAny : Exprs → Type 0
  ReadsIfAny no_args = Unit {0}
  ReadsIfAny (arg e es) = ReadsSome (arg e es)

  any-ReadsArgs : (es : Exprs) → ReadsIfAny es → ReadsArgs es
  any-ReadsArgs no_args reads = none-ReadsArgs
  any-ReadsArgs (arg e es) reads = some-ReadsArgs e es reads

  call-Suffixed :
      (e : Expr) (es : Exprs)
      → Reads show nums e
      → ReadsArgs es
      → Suffixed nums (printed show (call e es)) (call e es)
  unfolding lookup match_any at_end printed call_suffixes
  call-Suffixed e es reads args n m f ts o short fuel h =
      let xs = at_level show 1 e in
      let ys = printed_args show es in
      let end = tok "RPAREN" ")" ∷ [] in
      let size = length-append xs (in_parens ys) in
      let size' = length-append ys end in
      rw (append_assoc xs (in_parens ys) ts, append_assoc ys end ts)
        (reads.suffixed n (suc (suc (m + length ys))) f
          (tok "LPAREN" "(" ∷ (ys ++ tok "RPAREN" ")" ∷ ts)) o (omega (arith, size, size'))
          (omega (arith, size, size'))
          (from_next _ (suc (m + length ys)) λ i more.
            rw (args n i ts (omega (arith, size, size')) (omega arith)) (h i (omega arith))))

  mutual
    unfolding Fine

    reads : (e : Expr) → Fine show nums e → Reads show nums e
    reads (literal l) fine =
        Suffixed-Reads show nums (literal l) (omega arith) (
          Atom-Suffixed nums (printed show (literal l)) (literal l) (literal-Atom show nums l fine))
    reads (identifier x) fine = Suffixed-Reads show nums (identifier x) (omega arith) (
        Atom-Suffixed nums (printed show (identifier x)) (identifier x)
          (identifier-Atom show nums x))
    reads (member e x) fine =
        Suffixed-Reads show nums (member e x) (omega arith)
          (member-Suffixed show nums e x (reads e fine))
    reads (call e es) (fine, fines) =
        Suffixed-Reads show nums (call e es) (omega arith)
          (call-Suffixed e es (reads e fine) (any-ReadsArgs es (reads_args es fines)))
    reads (unary op e) fine =
        Prefixed-Reads show nums (unary op e) (λ h. absurd (omega arith))
          (unary-Prefixed show nums op e (reads e fine))
    reads (binary l op r) (left, right) =
        Chained-Reads show nums l op r
          (binary-Chained show nums l op r (reads l left) (reads r right))
    reads (assign t e) (ok, target, value) =
        Whole-Reads show nums t e (assign-Whole show nums t e ok (reads t target) (reads e value))

    reads_args : (es : Exprs) → FineArgs show nums es → ReadsIfAny es
    reads_args no_args fines = tt
    reads_args (arg e no_args) (fine, fines) = last-ReadsSome e (reads e fine)
    reads_args (arg e (arg e' es)) (fine, fines) =
        next-ReadsSome e e' es (reads e fine) (reads_args (arg e' es) fines)

-- An expression whose numbers are read back from their texts, and which assigns to names and members
-- only, is parsed from its tokens with the fewest parentheses, where neither an operator, nor `=`, nor
-- a suffix stands behind them and the fuel exceeds their number: precedence and associativity are
-- those of the printed form.
pub expression-printed :
    (show : ℕ → String) (nums : Numbers) (e : Expr) (n : ℕ) (ts : List Token)
    → Fine show nums e
    → length (printed show e) < n
    → Stops {A = Unit {0}} (("ASSIGN", tt) ∷ []) ts
    → Quiet 4 ts
    → expression nums n (printed show e ++ ts) ≡ parsed e ts
expression-printed show nums e n ts fine =
    whole_expression show nums e (reads show nums e fine) n ts

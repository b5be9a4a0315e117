-- ===== src/Parser/Operands.antt =====
-- compiler/parser.py: each kind of expression is read as it stands, if its parts are.
use baybayin_language.Base.{
  ℕ, zero, suc, ◌+◌, ◌≡◌, refl, ap, true, false, [], ◌∷◌, ◌++◌, append_assoc, length-append, String,
  lookup, arith,
}
use baybayin_language.Ast.{
  Literal, numero, decimal, teksto, kondisyon, wala, Expr, literal, identifier, member, unary,
  binary, assign, BinaryOp, UnaryOp, bang, minus,
}
use baybayin_language.Parser.{
  Numbers, at_end, match_any, consume, primary, primary_of, literal_of, assignable, call_suffixes,
  unary_rule, binary_tail, assignment,
}
use baybayin_language.Parser.Printed.{tok, rank, op_token, printed, at_level, FineLiteral}
use baybayin_language.Parser.Reading.{Quiet, Atom, Suffixed, Prefixed, Chained, Whole, from_next}
use baybayin_language.Parser.Openings.{op_found, op_Quiet, rank_bound}
use baybayin_language.Parser.Levels.{Reads}

module _ (show : ℕ → String) (nums : Numbers) where
  pub literal-Atom :
      (l : Literal) → FineLiteral show nums l → Atom nums (printed show (literal l)) (literal l)
  unfolding lookup primary primary_of match_any at_end printed
  literal-Atom (numero n) fine m ts short = ap (λ l. literal_of l (tok "NUMBER" (show n)) ts) fine
  literal-Atom (decimal x) fine m ts short = ap (λ l. literal_of l (tok "NUMBER" x) ts) fine
  literal-Atom (teksto s) fine m ts short = refl
  literal-Atom (kondisyon true) fine m ts short = refl
  literal-Atom (kondisyon false) fine m ts short = refl
  literal-Atom wala fine m ts short = refl

  pub identifier-Atom : (x : String) → Atom nums (printed show (identifier x)) (identifier x)
  unfolding lookup primary primary_of match_any at_end printed
  identifier-Atom x m ts short = refl

  pub member-Suffixed :
      (e : Expr) (x : String)
      → Reads show nums e
      → Suffixed nums (printed show (member e x)) (member e x)
  unfolding lookup match_any at_end printed call_suffixes consume
  member-Suffixed e x reads n m f ts o short fuel h =
      let xs = at_level show 1 e in
      let ys = tok "DOT" "." ∷ tok "IDENTIFIER" x ∷ [] in
      let size = length-append xs ys in
      rw (append_assoc xs ys ts) (
        reads.suffixed n (suc m) f (ys ++ ts) o (omega (arith, size)) (omega (arith, size))
          (from_next _ m h))

  pub unary-Prefixed :
      (op : UnaryOp) (e : Expr)
      → Reads show nums e
      → Prefixed nums (printed show (unary op e)) (unary op e)
  unfolding lookup match_any at_end printed unary_rule
  unary-Prefixed op e reads n zero ts short fuel quiet = absurd (omega arith)
  unary-Prefixed bang e reads n (suc f) ts short fuel quiet =
      rw (reads.prefixed n f ts (omega arith) (omega arith) quiet)
  unary-Prefixed minus e reads n (suc f) ts short fuel quiet =
      rw (reads.prefixed n f ts (omega arith) (omega arith) quiet)

  pub binary-Chained :
      (l : Expr) (op : BinaryOp) (r : Expr)
      → Reads show nums l
      → Reads show nums r
      → Chained nums (rank op) (printed show (binary l op r)) (binary l op r)
  unfolding printed binary_tail
  binary-Chained l op r left right n m f ts o short fuel quiet h =
      let xs = at_level show (3 + rank op) l in
      let ys = at_level show (2 + rank op) r in
      let size = length-append xs (op_token op ∷ ys) in
      let small = rank_bound op in
      rw (append_assoc xs (op_token op ∷ ys) ts) (
        left.chained (rank op) small n (suc m) f (op_token op ∷ (ys ++ ts)) o (omega (arith, size))
          (omega (arith, size)) (op_Quiet op (ys ++ ts))
          (from_next _ m λ i more.
            rw
              (
                op_found op (ys ++ ts),
                right.below (rank op) (omega (arith, small)) n ts (omega (arith, size)) quiet,
              )
              (h i more)))

  pub assign-Whole :
      (t e : Expr)
      → assignable t ≡ true
      → Reads show nums t
      → Reads show nums e
      → Whole nums (printed show (assign t e)) (assign t e)
  unfolding lookup match_any at_end printed assignment Quiet
  assign-Whole t e ok target value n zero ts short fuel stops quiet = absurd (omega arith)
  assign-Whole t e ok target value n (suc f) ts short fuel stops quiet =
      let xs = at_level show 6 t in
      let ys = printed show e in
      let size = length-append xs (tok "ASSIGN" "=" ∷ ys) in
      rw (
        append_assoc xs (tok "ASSIGN" "=" ∷ ys) ts,
        target.below 4 (omega arith) n (tok "ASSIGN" "=" ∷ (ys ++ ts)) (omega (arith, size))
            (refl, (refl, (refl, (refl, refl)))),
        value.whole n f ts (omega (arith, size)) (omega (arith, size)) stops quiet,
        ok,
      )

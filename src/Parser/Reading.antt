-- ===== src/Parser/Reading.antt =====
-- compiler/parser.py: what it is for a rule to read an expression off some tokens, and how one rule reads
-- what the rule below it reads.
use baybayin_language.Base.{
  ℕ, zero, suc, ◌+◌, ◌≤◌, ◌<◌, ◌≡◌, refl, none, List, [], ◌∷◌, ◌++◌, append_assoc, length,
  length-append, Dict, lookup, arith, leb, leb→le, Bool-cases, inl, inr, ◌⊎◌, subst,
}
use baybayin_language.Lexer.Tokens.{Token}
use baybayin_language.Ast.{Expr, BinaryOp, add, sub, mul, div, lt, gt, le, ge, eq, ne}
use baybayin_language.Parser.{
  Outcome, parsed, Parse, Numbers, match_any, suffixes, prefixes, primary, primary_of, at_end,
  call_suffixes, call_rule, unary_rule, binary_tail, binary_rule, assignment, expression,
  expression_rule, consume,
}
use baybayin_language.Parser.Printed.{tok, in_parens}

-- The operators of the rules from `factor` to `equality`.
abbrev pub ops_at : ℕ → Dict BinaryOp
ops_at zero = ("MULTIPLY", mul) ∷ ("DIVIDE", div) ∷ []
ops_at (suc zero) = ("PLUS", add) ∷ ("MINUS", sub) ∷ []
ops_at (suc (suc zero)) = ("LT", lt) ∷ ("GT", gt) ∷ ("LTE", le) ∷ ("GTE", ge) ∷ []
ops_at _ = ("EQ", eq) ∷ ("NEQ", ne) ∷ []

up_to : (a b : ℕ) → a ≤ suc b → (a ≤ b) ⊎ (a ≡ suc b)
up_to a b h = elim (Bool-cases (leb a b)) [
  | inl e ↦ inl (leb→le a b e)
  | inr e ↦ inr (ground arith)
]

-- Nothing of the table stands at the front.
abbrev pub Stops {ℓ} : {A : Type ℓ} → Dict A → List Token → Type ℓ
Stops table ts = match_any table ts ≡ parsed none ts

-- No suffix, and none of the operators below rank `k`.
unfoldable pub Quiet : ℕ → List Token → Type 0
Quiet zero ts = Stops suffixes ts
Quiet (suc k) ts = Stops (ops_at k) ts × Quiet k ts

pub from_one {ℓ} : (P : ℕ → Type ℓ) → ((i : ℕ) → P (suc i)) → (j : ℕ) → 1 ≤ j → P j
from_one P p zero h = absurd (omega arith)
from_one P p (suc i) h = p i

pub from_next {ℓ} :
    (P : ℕ → Type ℓ) (m : ℕ) → ((i : ℕ) → m ≤ i → P (suc i)) → (j : ℕ) → suc m ≤ j → P j
from_next P m p zero h = absurd (omega arith)
from_next P m p (suc i) h = p i (omega arith)

-- Behind an expression in parentheses.
pub closing :
    (ts : List Token)
    → Stops {A = Unit {0}} (("ASSIGN", tt) ∷ []) (tok "RPAREN" ")" ∷ ts)
      × Quiet 4 (tok "RPAREN" ")" ∷ ts)
unfolding match_any Quiet at_end lookup
closing ts = (refl, (refl, (refl, (refl, (refl, refl)))))

module _ (nums : Numbers) where
  -- `unary`, `factor`, `term`, `comparison` and `equality`.
  unfoldable pub binary_at : ℕ → ℕ → Parse Expr
  binary_at n zero = unary_rule nums (expression nums n) (suc n)
  binary_at n (suc k) = binary_rule (suc n) (ops_at k) (binary_at n k)

  -- Each rule reads `e` off `xs`, with fuel for the tokens of `xs`; the loops go on behind it.
  abbrev pub Atom : List Token → Expr → Type 0
  Atom xs e =
      (n : ℕ) (ts : List Token)
      → length xs ≤ n
      → primary nums (expression nums n) (xs ++ ts) ≡ parsed e ts

  abbrev pub Suffixed : List Token → Expr → Type 0
  Suffixed xs e =
      (n m f : ℕ) (ts : List Token) (o : Outcome Expr)
      → length xs ≤ n
      → m + length xs ≤ f
      → ((j : ℕ) → m ≤ j → call_suffixes nums (expression nums n) j e ts ≡ o)
      → call_rule nums (expression nums n) f (xs ++ ts) ≡ o

  abbrev pub Prefixed : List Token → Expr → Type 0
  Prefixed xs e =
      (n f : ℕ) (ts : List Token)
      → length xs ≤ n
      → length xs < f
      → Quiet 0 ts
      → unary_rule nums (expression nums n) f (xs ++ ts) ≡ parsed e ts

  abbrev pub Below : ℕ → List Token → Expr → Type 0
  Below k xs e =
      (n : ℕ) (ts : List Token)
      → length xs ≤ n
      → Quiet k ts
      → binary_at n k (xs ++ ts) ≡ parsed e ts

  abbrev pub Chained : ℕ → List Token → Expr → Type 0
  Chained k xs e =
      (n m f : ℕ) (ts : List Token) (o : Outcome Expr)
      → length xs ≤ n
      → m + length xs ≤ f
      → Quiet k ts
      → ((j : ℕ) → m ≤ j → binary_tail j (ops_at k) (binary_at n k) e ts ≡ o)
      → binary_rule f (ops_at k) (binary_at n k) (xs ++ ts) ≡ o

  abbrev pub Whole : List Token → Expr → Type 0
  Whole xs e =
      (n f : ℕ) (ts : List Token)
      → length xs ≤ n
      → length xs < f
      → Stops {A = Unit {0}} (("ASSIGN", tt) ∷ []) ts
      → Quiet 4 ts
      → assignment f (binary_at n 4) (xs ++ ts) ≡ parsed e ts

  -- How one rule reads what the rule below it reads.
  module _ (xs : List Token) (e : Expr) where
    pub Atom-Suffixed : Atom xs e → Suffixed xs e
    unfolding call_rule
    Atom-Suffixed a n m f ts o short fuel h = rw (a n ts short, h f (omega arith))

    pub Suffixed-Prefixed :
        ((ts : List Token) → Stops prefixes (xs ++ ts)) → Suffixed xs e → Prefixed xs e
    unfolding unary_rule call_suffixes Quiet
    Suffixed-Prefixed starts s n zero ts short fuel quiet = absurd (omega arith)
    Suffixed-Prefixed starts s n (suc f) ts short fuel quiet =
        let stop : (j : ℕ) → 1 ≤ j → call_suffixes nums (expression nums n) j e ts ≡ parsed e ts =
          from_one _ λ i. rw (call_suffixes, quiet) in
        rw (starts ts, s n 1 (suc f) ts (parsed e ts) short (omega arith) stop)

    pub Prefixed-Below : Prefixed xs e → Below 0 xs e
    unfolding binary_at
    Prefixed-Below p n ts short quiet = p n (suc n) ts short (omega arith) quiet

    pub Below-Chained : (k : ℕ) → Below k xs e → Chained k xs e
    unfolding binary_rule
    Below-Chained k b n m f ts o short fuel quiet h = rw (b n ts short quiet, h f (omega arith))

    pub Chained-Below : (k : ℕ) → Chained k xs e → Below (suc k) xs e
    unfolding binary_at Quiet binary_tail
    Chained-Below k c n ts short (stops, quiet) =
        let stop : (j : ℕ) → 1 ≤ j → binary_tail j (ops_at k) (binary_at n k) e ts ≡ parsed e ts =
          from_one _ λ i. rw (binary_tail, stops) in
        c n 1 (suc n) ts (parsed e ts) short (omega arith) quiet stop

    -- And so on, up to `equality`.
    pub climb : (k j : ℕ) → k ≤ j → Below k xs e → Below j xs e
    climb zero zero h b = b
    climb (suc k) zero h b = absurd (omega arith)
    climb k (suc j) h b = elim (up_to k j h) [
      | inl h' ↦ Chained-Below j (Below-Chained j (climb k j h' b))
      | inr same ↦ subst (λ i. Below i xs e) same b
    ]

    pub Below-Whole : Below 4 xs e → Whole xs e
    unfolding assignment
    Below-Whole b n zero ts short fuel stops quiet = absurd (omega arith)
    Below-Whole b n (suc f) ts short fuel stops quiet = rw (b n ts short quiet, stops)

    -- What a whole expression reads is a `primary` in parentheses.
    pub Whole-Atom : Whole xs e → Atom (in_parens xs) e
    unfolding lookup primary match_any primary_of consume expression expression_rule binary_at Quiet
        at_end
    Whole-Atom w zero ts short = absurd (omega arith)
    Whole-Atom w (suc n) ts short =
        let size = length-append xs (tok "RPAREN" ")" ∷ []) in
        let (stops, quiet) = closing ts in
        rw (
          append_assoc xs (tok "RPAREN" ")" ∷ []) ts,
          w n (suc n) (tok "RPAREN" ")" ∷ ts) (omega (arith, size)) (omega (arith, size)) stops
              quiet,
        )

-- ===== src/Parser/Levels.antt =====
-- compiler/parser.py: from the rule that reads an expression as it stands, to all the rules.
use baybayin_language.Base.{
  ℕ, suc, ◌+◌, ◌≤◌, ◌≡◌, ◌⊎◌, subst, Bool-cases, inl, inr, String, leb, leb→le, arith,
}
use baybayin_language.Ast.{Expr, binary, assign, BinaryOp}
use baybayin_language.Parser.{Numbers}
use baybayin_language.Parser.Printed.{rank, level, in_parens, printed, at_level}
use baybayin_language.Parser.Reading.{
  Suffixed, Prefixed, Below, Chained, Whole, Atom-Suffixed, Suffixed-Prefixed, Prefixed-Below,
  Below-Chained, Chained-Below, climb, Below-Whole, Whole-Atom,
}
use baybayin_language.Parser.Openings.{rank_bound, pick, printed-starts, in_parens-starts}

above : (a b : ℕ) → a ≤ b → (suc a ≤ b) ⊎ (a ≡ b)
above a b h = elim (Bool-cases (leb (suc a) b)) [
  | inl e ↦ inl (leb→le (suc a) b e)
  | inr e ↦ inr (ground arith)
]

module _ (show : ℕ → String) (nums : Numbers) where
  -- Each rule reads the expression as it stands at its level.
  pub record Reads (e : Expr) : Type 0 where
    pub suffixed : Suffixed nums (at_level show 1 e) e
    pub prefixed : Prefixed nums (at_level show 2 e) e
    pub below : (k : ℕ) → k ≤ 4 → Below nums k (at_level show (2 + k) e) e
    pub chained : (k : ℕ) → k ≤ 3 → Chained nums k (at_level show (3 + k) e) e
    pub whole : Whole nums (printed show e) e

  -- What the rules read without parentheses, from a level on, they read with them below it.
  assemble :
      (e : Expr)
      → (level e ≤ 1 → Suffixed nums (printed show e) e)
      → (level e ≤ 2 → Prefixed nums (printed show e) e)
      → ((k : ℕ) → k ≤ 4 → level e ≤ 2 + k → Below nums k (printed show e) e)
      → ((k : ℕ) → k ≤ 3 → level e ≤ 3 + k → Chained nums k (printed show e) e)
      → Whole nums (printed show e) e
      → Reads e
  assemble e s p b c w =
      let xs = in_parens (printed show e) in
      let suffixed = Atom-Suffixed nums xs e (Whole-Atom nums (printed show e) e w) in
      let prefixed = Suffixed-Prefixed nums xs e (in_parens-starts (printed show e)) suffixed in
      let below : (k : ℕ) → Below nums k xs e =
        λ k. climb nums xs e 0 k (omega arith) (Prefixed-Below nums xs e prefixed) in
      record {
        suffixed = pick show 1 e (λ ys. Suffixed nums ys e) s suffixed;
        prefixed = pick show 2 e (λ ys. Prefixed nums ys e) p prefixed;
        below = λ k h. pick show (2 + k) e (λ ys. Below nums k ys e) (b k h) (below k);
        chained = λ k h.
            pick show (3 + k) e (λ ys. Chained nums k ys e) (c k h)
              (Below-Chained nums xs e k (below k));
        whole = w;
      }

  pub Prefixed-Reads :
      (e : Expr)
      → (level e ≤ 1 → Suffixed nums (printed show e) e)
      → Prefixed nums (printed show e) e
      → Reads e
  Prefixed-Reads e s p =
      let xs = printed show e in
      let below : (k : ℕ) → Below nums k xs e =
        λ k. climb nums xs e 0 k (omega arith) (Prefixed-Below nums xs e p) in
      assemble e s (λ _. p) (λ k _ _. below k) (λ k _ _. Below-Chained nums xs e k (below k))
        (Below-Whole nums xs e (below 4))

  pub Suffixed-Reads : (e : Expr) → level e ≤ 1 → Suffixed nums (printed show e) e → Reads e
  Suffixed-Reads e h s =
      Prefixed-Reads e (λ _. s)
        (Suffixed-Prefixed nums (printed show e) e (λ ts. printed-starts show e ts h) s)

  pub Chained-Reads :
      (l : Expr) (op : BinaryOp) (r : Expr)
      → Chained nums (rank op) (printed show (binary l op r)) (binary l op r)
      → Reads (binary l op r)
  Chained-Reads l op r c =
      let e = binary l op r in
      let xs = printed show e in
      let small = rank_bound op in
      let below : (k : ℕ) → suc (rank op) ≤ k → Below nums k xs e =
        λ k h. climb nums xs e (suc (rank op)) k h (Chained-Below nums xs e (rank op) c) in
      assemble e (λ h. absurd (omega arith)) (λ h. absurd (omega arith))
        (λ k _ h. below k (omega arith))
        (λ k _ h. elim (above (rank op) k (omega arith)) [
          | inl h' ↦ Below-Chained nums xs e k (below k h')
          | inr same ↦ subst (λ j. Chained nums j xs e) same c
        ])
        (Below-Whole nums xs e (below 4 (omega arith)))

  pub Whole-Reads :
      (t e : Expr) → Whole nums (printed show (assign t e)) (assign t e) → Reads (assign t e)
  Whole-Reads t e w =
      assemble (assign t e) (λ h. absurd (omega arith)) (λ h. absurd (omega arith))
        (λ k h h'. absurd (omega arith)) (λ k h h'. absurd (omega arith)) w

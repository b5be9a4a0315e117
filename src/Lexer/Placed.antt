-- ===== src/Lexer/Placed.antt =====
-- compiler/lexer.py: the loop of `tokenize` and the tokens that a text has.
use text.Mathlib.TextEquality.{eq_iff}
use baybayin_language.Base.{
  ℕ, suc, ◌≤◌, Option-cases, String, ◌≡◌, refl, sym, ap, ◌∙◌, subst, Bool, true, false, ◌||◌, inl,
  inr, Bool-cases, some, List, [], ◌∷◌, ◌++◌, append_assoc, append-nil, length, length-append, ◌==◌,
  if◌then◌else◌, str_eq, arith,
}
use baybayin_language.Lexer.Tokens.{Token}
use baybayin_language.Lexer.Patterns.{Text, from_chars}
use baybayin_language.Lexer.{
  Unicode, token_specification, Lexeme, first_match, finditer, count_newlines, Result, done, Lexer,
  column_of, with_token, keyword_kind, step, steps, initial, end_token, finish, tokenize,
  without_last, tail,
}
use baybayin_language.Lexer.Alternatives.{first_match-All}
use baybayin_language.Lexer.Tiles.{Tiles, no_text, tile, finditer-Tiles}
use baybayin_language.Lexer.Ends.{
  Finishes, ends_with, ends_in_error, map-Finishes, goes_on-Finishes,
}
use baybayin_language.Lexer.Breaks.{AvoidsBreaks, FitsKind, fits_kind, kinds-FitsKind}
use baybayin_language.Lexer.Positions.{
  since_newline, At, At-column, At-plain, At-comment, At-newline,
}
use baybayin_language.Lexer.Scanned.{
  placed, Silent, newline, skip, TokenOf, plain, Scanned, at_end, silent, token, kind_Silent,
  comment_Silent, not_Silent, keyword_kind-TokenOf, kind-TokenOf, string-TokenOf,
}

-- Strings stand on one line each.
abbrev pub one_line_string : Lexeme → Bool
one_line_string m = if str_eq m.kind "STRING" then count_newlines m.value == 0 else true

unfoldable pub one_line_strings : List Lexeme → Bool
one_line_strings [] = true
one_line_strings (m ∷ ms) = if one_line_string m then one_line_strings ms else false

of_kind :
    (k k' : String) (v : Text) → str_eq k k' ≡ true → fits_kind k v ≡ true → fits_kind k' v ≡ true
of_kind k k' v e h = subst (λ x. fits_kind x v ≡ true) ((eq_iff k k').0 e) h

zero_of_test : {n : ℕ} → (n == 0) ≡ true → n ≡ 0
zero_of_test h = ground arith

-- The kinds that are neither line breaks, comments nor strings.
other_kind :
    (k : String) (v : Text)
    → str_eq k "NEWLINE" ≡ false
    → (str_eq k "COMMENT_SINGLE" || str_eq k "COMMENT_MULTI") ≡ false
    → str_eq k "STRING" ≡ false
    → fits_kind k v ≡ true
    → count_newlines v ≡ 0
unfolding fits_kind
other_kind k v h₁ h₂ h₃ h = ground arith

module _ (py : Unicode) where
  -- From `s` before the match `m` to `s'` behind it.
  record Moves (before r : Text) (m : Lexeme) (s s' : Lexer) : Type 0 where
    at : At (before ++ m.value) s'
    -- The tokens of the rest, and with them those of the match and the rest.
    more :
        (ts : List Token)
        → Scanned py (before ++ m.value) r ts
        → (ts' : List Token) × (s'.tokens ++ ts ≡ s.tokens ++ ts')
          × Scanned py before (m.value ++ r) ts'

  silent-Moves :
      (before r : Text) (s s' : Lexer) (m : Lexeme)
      → At (before ++ m.value) s'
      → s'.tokens ≡ s.tokens
      → first_match (token_specification py) (m.value ++ r) ≡ some (m.kind, m.value, r)
      → Silent m.kind
      → Moves before r m s s'
  silent-Moves before r s s' m at same taken h = record {
    at = at;
    more = λ ts x. (ts, ap (λ l. l ++ ts) same, silent taken h x);
  }

  with_token-Moves :
      (before r : Text) (s : Lexer) (m : Lexeme) (type value : String)
      → At before s
      → m.start ≡ length before
      → first_match (token_specification py) (m.value ++ r) ≡ some (m.kind, m.value, r)
      → TokenOf py m.kind m.value type value
      → count_newlines m.value ≡ 0
      → Moves before r m s (with_token s m type value)
  with_token-Moves before r s m type value at at_start taken h breaks = record {
    at = let at' = At-plain m.value breaks at in record { lines = at'.lines; begins = at'.begins };
    more = λ ts x.
        let column : column_of s m.start ≡ suc (since_newline before 0) =
          ap (column_of s) at_start ∙ At-column at in
        let same : placed before type value ≡ record {
          type = type;
          value = value;
          line = s.line_num;
          column = column_of s m.start;
        } =
          rw (at.lines, column) refl in
        (
          placed before type value ∷ ts,
          append_assoc s.tokens _ ts ∙ ap (λ t. s.tokens ++ t ∷ ts) (sym same),
          token taken h x,
        );
  }

  step-Moves :
      (before r : Text) (s : Lexer) (m : Lexeme)
      → At before s
      → m.start ≡ length before
      → first_match (token_specification py) (m.value ++ r) ≡ some (m.kind, m.value, r)
      → fits_kind m.kind m.value ≡ true
      → one_line_string m ≡ true
      → Finishes (Moves before r m s) (step py s m)
  unfolding step fits_kind
  step-Moves before r s m at at_start taken fits on_line =
      elim (Bool-cases (str_eq m.kind "NEWLINE")) [
        | inl e ↦
            rw (step, e)
              (ends_with (
                silent-Moves before r s _ m
                  (At-newline m at_start (of_kind m.kind "NEWLINE" m.value e fits) at) refl taken
                  (kind_Silent m.kind e newline)))
        | inr e₁ ↦ elim (Bool-cases (str_eq m.kind "SKIP")) [
          | inl e ↦
              rw (step, e₁, e)
                (ends_with (
                  silent-Moves before r s _ m
                    (At-plain m.value (zero_of_test (of_kind m.kind "SKIP" m.value e fits)) at) refl
                    taken (kind_Silent m.kind e skip)))
          | inr e₂ ↦
              elim (Bool-cases (str_eq m.kind "COMMENT_SINGLE" || str_eq m.kind "COMMENT_MULTI")) [
                | inl e ↦
                    rw (step, e₁, e₂, e)
                      (ends_with (
                        silent-Moves before r s _ m (At-comment m at_start at) refl taken
                          (comment_Silent m.kind e)))
                | inr e₃ ↦ elim (Bool-cases (str_eq m.kind "MISMATCH")) [
                  | inl e ↦ rw (step, e₁, e₂, e₃, e) ends_in_error
                  | inr e₄ ↦ elim (Bool-cases (str_eq m.kind "IDENTIFIER")) [
                    | inl e ↦
                        rw (step, e₁, e₂, e₃, e₄, e)
                          (ends_with (
                            with_token-Moves before r s m (keyword_kind m.value)
                              (from_chars m.value) at at_start taken
                              (kind-TokenOf py m.kind e (keyword_kind-TokenOf py m.value))
                              (zero_of_test (of_kind m.kind "IDENTIFIER" m.value e fits))))
                    | inr e₅ ↦ elim (Bool-cases (str_eq m.kind "STRING")) [
                      | inl e ↦
                          elim (Option-cases
                            (py.unescape (from_chars (without_last (tail m.value))))) [
                              | inl u ↦ rw (step, e₁, e₂, e₃, e₄, e₅, e, u) ends_in_error
                              | inr (text, u) ↦
                                  rw (step, e₁, e₂, e₃, e₄, e₅, e, u)
                                    (ends_with (
                                      with_token-Moves before r s m m.kind text at at_start taken
                                        (string-TokenOf py m.kind e u) (ground arith)))
                            ]
                      | inr e ↦
                          rw (step, e₁, e₂, e₃, e₄, e₅, e)
                            (ends_with (
                              with_token-Moves before r s m m.kind (from_chars m.value) at at_start
                                taken (plain e₅ e e₄ (not_Silent m.kind e₁ e₂ e₃))
                                (other_kind m.kind m.value e₁ e₃ e fits)))
                    ]
                  ]
                ]
              ]
        ]
      ]

  -- The loop from `s` on, up to the end of a text of `size` characters.
  record Reaches (before rest : Text) (size : ℕ) (s s' : Lexer) : Type 0 where
    ts : List Token
    all : s'.tokens ++ end_token s' size ∷ [] ≡ s.tokens ++ ts
    scanned : Scanned py before rest ts

  steps-Reaches :
      (digits : AvoidsBreaks py.is_digit) (before : Text) (s : Lexer) {start size : ℕ} {rest : Text}
      {ms : List Lexeme}
      → Tiles (token_specification py) start rest ms
      → start ≡ length before
      → size ≡ length (before ++ rest)
      → one_line_strings ms ≡ true
      → At before s
      → Finishes (Reaches before rest size s) (steps py s ms)
  unfolding steps one_line_strings
  steps-Reaches digits before s {size = size} no_text at_start whole on_line at =
      let here : size ≡ length before = whole ∙ ap (λ b. length b) (append-nil before) in
      let column : column_of s size ≡ suc (since_newline before 0) =
        ap (column_of s) here ∙ At-column at in
      let same : end_token s size ≡ placed before "EOF" "" = rw (at.lines, column) refl in
      ends_with (record {
        ts = placed before "EOF" "" ∷ [];
        all = ap (λ t. s.tokens ++ t ∷ []) same;
        scanned = at_end;
      })
  steps-Reaches digits before s {start} {size}
        (tile {t = t} {r = r} {ms = ms} m m_start long eq taken tiles) at_start whole on_line at =
      let (p, fits, e) =
        first_match-All FitsKind (token_specification py) t (kinds-FitsKind py digits) taken in
      let begins_here =
        subst (λ x. first_match (token_specification py) x ≡ some (m.kind, m.value, r)) (sym eq)
          taken in
      let first_line : one_line_string m ≡ true = ground arith in
      let later_lines : one_line_strings ms ≡ true = ground arith in
      goes_on-Finishes
        (step-Moves before r s m at (m_start ∙ at_start) begins_here (fits t m.value r e)
          first_line)
        λ s' moves.
          map-Finishes
            (steps-Reaches digits (before ++ m.value) s' tiles
              (omega (arith, length-append before m.value))
              (whole
                ∙ ap (λ b. length (before ++ b)) (sym eq)
                ∙ ap (λ b. length b) (sym (append_assoc before m.value r)))
              later_lines moves.at)
            λ s'' x.
              let (ts', joined, scanned) = moves.more x.ts x.scanned in
              record {
                ts = ts';
                all = x.all ∙ joined;
                scanned = subst (λ b. Scanned py before b ts') eq scanned;
              }

-- If the digits are no line breaks and no string spans lines, the tokens are those of the matches of the
-- first alternative that fits, one behind the other: none for a line break, a blank or a comment, and else
-- one with the type and the value of its match, on the line and in the column where the match begins. The
-- EOF token stands behind them, where the text ends.
pub tokenize-Scanned :
    (py : Unicode) (n : ℕ) (source : Text) (ms : List Lexeme) (ts : List Token)
    → AvoidsBreaks py.is_digit
    → length source ≤ n
    → finditer (token_specification py) n 0 source ≡ some ms
    → one_line_strings ms ≡ true
    → tokenize py n source ≡ done ts
    → Scanned py [] source ts
unfolding tokenize count_newlines since_newline
tokenize-Scanned py n source ms ts digits le found on_line result =
    let (ms', found', tiles) = finditer-Tiles py n 0 source le in
    let same : ms' ≡ ms = cc in
    finished
      (steps-Reaches py digits [] initial
        (subst (Tiles (token_specification py) 0 source) same tiles) refl refl on_line
        (record { lines = refl; begins = refl }))
      (sym (rw (tokenize, found)) ∙ result)
  where
    finished :
        {r : Result Lexer}
        → Finishes (Reaches py [] source (length source) initial) r
        → finish r (length source) ≡ done ts
        → Scanned py [] source ts
    finished (ends_with {a = s} h) e = subst (Scanned py [] source) (cc) h.scanned
    finished ends_in_error e = cc

-- ===== src/Lexer/Positions.antt =====
-- compiler/lexer.py: the line and column of each token.
use baybayin_language.Base.{
  ℕ, suc, ◌+◌, ◌≡◌, ◌⊎◌, refl, true, inl, inr, Bool-cases, none, some, Option-cases, [], ◌∷◌, ◌++◌,
  length, length-append, if◌then◌else◌, arith,
}
use baybayin_language.Lexer.Patterns.{Text, is_newline}
use baybayin_language.Lexer.{Lexeme, count_newlines, rfind_newline, Lexer, column_of, comment_start}
use baybayin_language.Lexer.Breaks.{count_newlines-append, ends_line}

-- How many characters stand behind the last line break, `a` of them before the text begins.
unfoldable pub since_newline : Text → ℕ → ℕ
since_newline [] a = a
since_newline (c ∷ cs) a = if is_newline c then since_newline cs 0 else since_newline cs (suc a)

since_newline-append :
    (v w : Text) (a : ℕ) → since_newline (v ++ w) a ≡ since_newline w (since_newline v a)
unfolding since_newline
since_newline-append [] w a = refl
since_newline-append (c ∷ v) w a = elim (Bool-cases (is_newline c)) [
  | inl e ↦ rw e (since_newline-append v w 0)
  | inr e ↦ rw e (since_newline-append v w (suc a))
]

since_newline-plain : (v : Text) (a : ℕ) → count_newlines v ≡ 0 → since_newline v a ≡ a + length v
unfolding since_newline count_newlines
since_newline-plain [] a h = omega arith
since_newline-plain (c ∷ v) a h = ground (arith, since_newline-plain v (suc a))

rfind_newline-none : (v : Text) → rfind_newline v ≡ none → count_newlines v ≡ 0
unfolding rfind_newline count_newlines
rfind_newline-none [] h = refl
rfind_newline-none (c ∷ v) h = ground (arith, rfind_newline-none v)

rfind_newline-some :
    (v : Text) (a : ℕ) {i : ℕ} → rfind_newline v ≡ some i → since_newline v a + i + 1 ≡ length v
unfolding rfind_newline since_newline
rfind_newline-some [] a h = cc
rfind_newline-some (c ∷ v) a {i} h = elim (Option-cases (rfind_newline v)) [
  | inr (j, e) ↦
      let here : rfind_newline (c ∷ v) ≡ some (suc j) = rw (rfind_newline, e) in
      let same : suc j ≡ i = cc in
      ground (arith, rfind_newline-some v 0 e, rfind_newline-some v (suc a) e)
  | inl e ↦
      let plain = rfind_newline-none v e in
      elim (Bool-cases (is_newline c)) [
        | inl b ↦
            let here : rfind_newline (c ∷ v) ≡ some 0 = rw (rfind_newline, e, b) in
            let same : 0 ≡ i = cc in
            rw (since_newline, b) (omega (arith, since_newline-plain v 0 plain))
        | inr b ↦ let here : rfind_newline (c ∷ v) ≡ none = rw (rfind_newline, e, b) in cc
      ]
]

-- The loop behind the text `before`.
pub record At (before : Text) (s : Lexer) : Type 0 where
  pub lines : s.line_num ≡ suc (count_newlines before)
  pub begins : s.line_start + since_newline before 0 ≡ length before

pub At-column :
    {before : Text} {s : Lexer}
    → At before s
    → column_of s (length before) ≡ suc (since_newline before 0)
At-column h = let begins = h.begins in omega arith

-- Behind a text with no line break nothing changes.
pub At-plain :
    {before : Text} {s : Lexer} (v : Text) → count_newlines v ≡ 0 → At before s → At (before ++ v) s
At-plain {before} v plain h =
    let begins = h.begins in
    let lines = h.lines in
    record {
      lines = omega (arith, count_newlines-append before v);
      begins = omega (
        arith,
        length-append before v,
        since_newline-append before v 0,
        since_newline-plain v (since_newline before 0) plain,
      );
    }

-- Behind a comment.
pub At-comment :
    {before : Text} {s : Lexer} (m : Lexeme)
    → m.start ≡ length before
    → At before s
    → At (before ++ m.value) (record s {
      line_num = s.line_num + count_newlines m.value;
      line_start = comment_start s m;
    })
unfolding comment_start
At-comment {before} {s} m at_start h = record {
  lines = lines_lem;
  begins = go (Option-cases (rfind_newline m.value));
}
  where
    lines_lem : s.line_num + count_newlines m.value ≡ suc (count_newlines (before ++ m.value))
    lines_lem = let lines = h.lines in omega (arith, count_newlines-append before m.value)

    go :
        (rfind_newline m.value ≡ none) ⊎ ((i : ℕ) × (rfind_newline m.value ≡ some i))
        → comment_start s m + since_newline (before ++ m.value) 0 ≡ length (before ++ m.value)
    go (inl e) =
        let begins = h.begins in
        rw (comment_start, e)
          (omega (
            arith,
            length-append before m.value,
            since_newline-append before m.value 0,
            since_newline-plain m.value (since_newline before 0) (rfind_newline-none m.value e),
          ))
    go (inr (i, e)) =
        rw (comment_start, e)
          (omega (
            arith,
            length-append before m.value,
            since_newline-append before m.value 0,
            rfind_newline-some m.value (since_newline before 0) e,
          ))

-- Behind a line break.
pub At-newline :
    {before : Text} {s : Lexer} (m : Lexeme)
    → m.start ≡ length before
    → ends_line m.value ≡ true
    → At before s
    → At
        (before ++ m.value)
        (record s { line_num = suc s.line_num; line_start = m.start + length m.value })
At-newline {before} {s} m at_start e h =
    let lines = h.lines in
    record {
      lines = omega (arith, count_newlines-append before m.value, one_break m.value e);
      begins = omega (
        arith,
        length-append before m.value,
        since_newline-append before m.value 0,
        break_last m.value (since_newline before 0) e,
      );
    }
  where
    one_break : (v : Text) → ends_line v ≡ true → count_newlines v ≡ 1
    one_break [] e = cc
    one_break (c ∷ []) e = unfold count_newlines in rw e
    one_break (c ∷ d ∷ v) e = cc

    break_last : (v : Text) (a : ℕ) → ends_line v ≡ true → since_newline v a ≡ 0
    break_last [] a e = cc
    break_last (c ∷ []) a e = unfold since_newline in rw e
    break_last (c ∷ d ∷ v) a e = cc

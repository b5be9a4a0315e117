-- ===== src/Lexer/Splits.antt =====
-- compiler/lexer.py: what a pattern takes and what it leaves make up the text.
use Prim.Native.Char.{Char, code}
use baybayin_language.Base.{
  ℕ, ◌+◌, ◌≤◌, ◌≡◌, refl, ap, ◌∙◌, Bool, ◌&&◌, inl, inr, Bool-cases, none, some, [], ◌∷◌, ◌++◌,
  append_assoc, length, length-append, ◌==◌, arith,
}
use baybayin_language.Lexer.Patterns.{
  Text, chars, Match, not_newline, begins_name, in_name, prepend, followed, optional, either,
  literally, one_of, many, some_of, is_newline, until_close, comment_multi, comment_single,
  fraction, number, string_body, quoted, string_pattern, identifier,
}

-- A match of at least `d` characters of `t`, and the rest of it.
pub data Splits (d : ℕ) (t : Text) : Match → Type 0 where
  no_match : Splits d t none
  parts : {v r : Text} → v ++ r ≡ t → d ≤ length v → Splits d t (some (v, r))

prepend-Splits :
    {d e : ℕ} {u : Text} {m : Match} (v : Text)
    → d ≤ length v + e
    → Splits e u m
    → Splits d (v ++ u) (prepend v m)
prepend-Splits v le no_match = no_match
prepend-Splits {d} v le (parts {v = w} {r = r} eq e_le) =
    parts (append_assoc v w r ∙ ap (λ x. v ++ x) eq) (omega (arith, length-append v w))

followed-Splits :
    {d : ℕ} {t : Text} {m : Match} {q : Text → Match}
    → Splits d t m
    → ((u : Text) → Splits 0 u (q u))
    → Splits d t (followed m q)
unfolding followed
followed-Splits no_match k = no_match
followed-Splits {d} {t} {q = q} (parts {v} {r} eq le) k = go (prepend-Splits v (omega arith) (k r))
  where
    go : {n : Match} → Splits d (v ++ r) n → Splits d t n
    go no_match = no_match
    go (parts eq' le') = parts (eq' ∙ eq) le'

optional-Splits :
    {d : ℕ} (p : Text → Match) (t : Text) → Splits d t (p t) → Splits 0 t (optional p t)
unfolding optional
optional-Splits {d} p t h = go h
  where
    go : {m : Match} → Splits d t m → Splits 0 t (elim m [ none ↦ some ([], t) | some x ↦ some x ])
    go no_match = parts refl (omega arith)
    go (parts eq le) = parts eq (omega arith)

either-Splits :
    {d : ℕ} (p q : Text → Match) (t : Text)
    → Splits d t (p t)
    → Splits d t (q t)
    → Splits d t (either p q t)
unfolding either
either-Splits {d} p q t h h' = go h
  where
    go : {m : Match} → Splits d t m → Splits d t (elim m [ none ↦ q t | some x ↦ some x ])
    go no_match = h'
    go (parts eq le) = parts eq le

literally-Splits : (w t : Text) → Splits (length w) t (literally w t)
unfolding literally
literally-Splits [] t = parts refl (omega arith)
literally-Splits (c ∷ cs) [] = no_match
literally-Splits (c ∷ cs) (d ∷ ds) = elim (Bool-cases (code c == code d)) [
  | inl e ↦ rw e (prepend-Splits (d ∷ []) (omega arith) (literally-Splits cs ds))
  | inr e ↦ rw e no_match
]

pub one_of-Splits : (p : Char → Bool) (t : Text) → Splits 1 t (one_of p t)
unfolding one_of
one_of-Splits p [] = no_match
one_of-Splits p (c ∷ cs) = elim (Bool-cases (p c)) [
  | inl e ↦ rw e (parts refl (omega arith))
  | inr e ↦ rw e no_match
]

many-Splits : (p : Char → Bool) (t : Text) → Splits 0 t (many p t)
unfolding many
many-Splits p [] = parts refl (omega arith)
many-Splits p (c ∷ cs) = elim (Bool-cases (p c)) [
  | inl e ↦ rw e (prepend-Splits (c ∷ []) (omega arith) (many-Splits p cs))
  | inr e ↦ rw e (parts refl (omega arith))
]

pub some_of-Splits : (p : Char → Bool) (t : Text) → Splits 1 t (some_of p t)
unfolding some_of
some_of-Splits p t = followed-Splits (one_of-Splits p t) (many-Splits p)

until_close-Splits : (t : Text) → Splits 0 t (until_close t)
unfolding until_close
until_close-Splits [] = no_match
until_close-Splits (c ∷ []) = no_match
until_close-Splits (c ∷ d ∷ cs) = elim (Bool-cases (code c == b'*' && code d == b'/')) [
  | inl e ↦ rw (until_close, e) (parts refl (omega arith))
  | inr e ↦
      rw (until_close, e) (prepend-Splits (c ∷ []) (omega arith) (until_close-Splits (d ∷ cs)))
]

-- A fixed text of at least one character.
pub literally_some-Splits : (w t : Text) → 1 ≤ length w → Splits 1 t (literally w t)
literally_some-Splits w t le = shorter (literally-Splits w t)
  where
    shorter : {m : Match} → Splits (length w) t m → Splits 1 t m
    shorter no_match = no_match
    shorter (parts eq le') = parts eq (omega arith)

pub comment_multi-Splits : (t : Text) → Splits 1 t (comment_multi t)
unfolding comment_multi
comment_multi-Splits t =
    followed-Splits (literally_some-Splits (chars "/*") t (omega arith)) until_close-Splits

pub comment_single-Splits : (t : Text) → Splits 1 t (comment_single t)
unfolding comment_single
comment_single-Splits t =
    followed-Splits (literally_some-Splits (chars "//") t (omega arith)) (many-Splits not_newline)

fraction-Splits : (is_digit : Char → Bool) (t : Text) → Splits 1 t (fraction is_digit t)
unfolding fraction
fraction-Splits is_digit t =
    followed-Splits (literally_some-Splits (chars ".") t (omega arith))
      λ u. weaken (some_of-Splits is_digit u)
  where
    weaken : {u : Text} {m : Match} → Splits 1 u m → Splits 0 u m
    weaken no_match = no_match
    weaken (parts eq le) = parts eq (omega arith)

pub number-Splits : (is_digit : Char → Bool) (t : Text) → Splits 1 t (number is_digit t)
unfolding number
number-Splits is_digit t =
    followed-Splits (some_of-Splits is_digit t)
      λ u. optional-Splits (fraction is_digit) u (fraction-Splits is_digit u)

string_body-Splits : (q : ℕ) (t : Text) → Splits 0 t (string_body q t)
unfolding string_body
string_body-Splits q [] = no_match
string_body-Splits q (c ∷ []) = elim (Bool-cases (code c == q)) [
  | inl e ↦ rw e (parts refl (omega arith))
  | inr e ↦ rw e no_match
]
string_body-Splits q (c ∷ d ∷ cs) = elim (Bool-cases (code c == q)) [
  | inl e ↦ rw (string_body, e) (parts refl (omega arith))
  | inr e ↦ elim (Bool-cases (code c == b'\\')) [
    | inr plain ↦
        rw (string_body, e, plain)
          (prepend-Splits (c ∷ []) (omega arith) (string_body-Splits q (d ∷ cs)))
    | inl escape ↦ elim (Bool-cases (is_newline d)) [
      | inl broken ↦ rw (string_body, e, escape, broken) no_match
      | inr along ↦
          rw (string_body, e, escape, along)
            (prepend-Splits (c ∷ d ∷ []) (omega arith) (string_body-Splits q cs))
    ]
  ]
]

quoted-Splits : (q : ℕ) (t : Text) → Splits 1 t (quoted q t)
unfolding quoted
quoted-Splits q t = followed-Splits (one_of-Splits (λ c. code c == q) t) (string_body-Splits q)

pub string_pattern-Splits : (t : Text) → Splits 1 t (string_pattern t)
unfolding string_pattern
string_pattern-Splits t =
    either-Splits (quoted 34) (quoted 39) t (quoted-Splits 34 t) (quoted-Splits 39 t)

pub identifier-Splits : (t : Text) → Splits 1 t (identifier t)
unfolding identifier
identifier-Splits t = followed-Splits (one_of-Splits begins_name t) (many-Splits in_name)

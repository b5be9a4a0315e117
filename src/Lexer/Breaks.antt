-- ===== src/Lexer/Breaks.antt =====
-- compiler/lexer.py: which patterns take line breaks.
use Prim.Native.Char.{Char, code}
use baybayin_language.Base.{
  ℕ, ◌+◌, String, ◌≡◌, refl, subst, Bool, true, false, ◌||◌, inl, inr, Bool-cases, none, some, [],
  ◌∷◌, ◌++◌, ◌==◌, if◌then◌else◌, str_eq, arith,
}
use baybayin_language.Lexer.Patterns.{
  Text, chars, Match, prepend, followed, optional, literally, one_of, many, some_of, is_newline,
  not_newline, fraction, number, identifier, begins_name, in_name, is_blank,
}
use baybayin_language.Lexer.{Unicode, token_specification, count_newlines}
use baybayin_language.Lexer.Alternatives.{All, none_left, ◌◂◌}

pub count_newlines-append :
    (v w : Text) → count_newlines (v ++ w) ≡ count_newlines v + count_newlines w
unfolding count_newlines
count_newlines-append [] w = omega arith
count_newlines-append (c ∷ v) w = ground (arith, count_newlines-append v w)

-- What is taken has no line break.
data OneLine : Match → Type 0 where
  no_match : OneLine none
  one_line : {v r : Text} → count_newlines v ≡ 0 → OneLine (some (v, r))

OneLine-some : {m : Match} {v r : Text} → OneLine m → m ≡ some (v, r) → count_newlines v ≡ 0
OneLine-some no_match e = cc
OneLine-some (one_line h) e = cc

prepend-OneLine : {m : Match} (v : Text) → count_newlines v ≡ 0 → OneLine m → OneLine (prepend v m)
prepend-OneLine v h no_match = no_match
prepend-OneLine v h (one_line {v = w} h') = one_line (omega (arith, count_newlines-append v w))

followed-OneLine :
    {m : Match} {q : Text → Match}
    → OneLine m
    → ((u : Text) → OneLine (q u))
    → OneLine (followed m q)
unfolding followed
followed-OneLine no_match k = no_match
followed-OneLine (one_line {v} {r} h) k = prepend-OneLine v h (k r)

optional-OneLine : (p : Text → Match) (t : Text) → OneLine (p t) → OneLine (optional p t)
unfolding optional count_newlines
optional-OneLine p t h = go h
  where
    go : {m : Match} → OneLine m → OneLine (elim m [ none ↦ some ([], t) | some x ↦ some x ])
    go no_match = one_line refl
    go (one_line h') = one_line h'

abbrev pub AvoidsBreaks : (Char → Bool) → Type 0
AvoidsBreaks p = (c : Char) → p c ≡ true → is_newline c ≡ false

single_line : (c : Char) → is_newline c ≡ false → count_newlines (c ∷ []) ≡ 0
unfolding count_newlines
single_line c e = rw e

literally-OneLine : (w t : Text) → count_newlines w ≡ 0 → OneLine (literally w t)
unfolding literally count_newlines
literally-OneLine [] t h = one_line refl
literally-OneLine (c ∷ cs) [] h = no_match
literally-OneLine (c ∷ cs) (d ∷ ds) h = elim (Bool-cases (code c == code d)) [
  | inr e ↦ rw e no_match
  | inl e ↦
      let plain : is_newline d ≡ false = ground arith in
      rw e (prepend-OneLine (d ∷ []) (single_line d plain) (literally-OneLine cs ds (ground arith)))
]

one_of-OneLine : (p : Char → Bool) (t : Text) → AvoidsBreaks p → OneLine (one_of p t)
unfolding one_of
one_of-OneLine p [] h = no_match
one_of-OneLine p (c ∷ cs) h = elim (Bool-cases (p c)) [
  | inl e ↦ rw e (one_line (single_line c (h c e)))
  | inr e ↦ rw e no_match
]

many-OneLine : (p : Char → Bool) (t : Text) → AvoidsBreaks p → OneLine (many p t)
unfolding many count_newlines
many-OneLine p [] h = one_line refl
many-OneLine p (c ∷ cs) h = elim (Bool-cases (p c)) [
  | inl e ↦ rw e (prepend-OneLine (c ∷ []) (single_line c (h c e)) (many-OneLine p cs h))
  | inr e ↦ rw e (one_line refl)
]

some_of-OneLine : (p : Char → Bool) (t : Text) → AvoidsBreaks p → OneLine (some_of p t)
unfolding some_of
some_of-OneLine p t h = followed-OneLine (one_of-OneLine p t h) λ u. many-OneLine p u h

fraction-OneLine : (p : Char → Bool) (t : Text) → AvoidsBreaks p → OneLine (fraction p t)
unfolding fraction count_newlines
fraction-OneLine p t h =
    followed-OneLine (literally-OneLine (chars ".") t refl) λ u. some_of-OneLine p u h

number-OneLine : (p : Char → Bool) (t : Text) → AvoidsBreaks p → OneLine (number p t)
unfolding number
number-OneLine p t h =
    followed-OneLine (some_of-OneLine p t h)
      λ u. optional-OneLine (fraction p) u (fraction-OneLine p u h)

begins_name-AvoidsBreaks : AvoidsBreaks begins_name
begins_name-AvoidsBreaks c h = ground arith

in_name-AvoidsBreaks : AvoidsBreaks in_name
in_name-AvoidsBreaks c h = ground arith

is_blank-AvoidsBreaks : AvoidsBreaks is_blank
is_blank-AvoidsBreaks c h = ground arith

not_newline-AvoidsBreaks : AvoidsBreaks not_newline
not_newline-AvoidsBreaks c h = ground arith

identifier-OneLine : (t : Text) → OneLine (identifier t)
unfolding identifier
identifier-OneLine t =
    followed-OneLine (one_of-OneLine begins_name t begins_name-AvoidsBreaks)
      λ u. many-OneLine in_name u in_name-AvoidsBreaks

-- A line break and nothing else.
abbrev pub ends_line : Text → Bool
ends_line (c ∷ []) = is_newline c
ends_line _ = false

-- What a match of this kind may hold.
unfoldable pub fits_kind : String → Text → Bool
fits_kind k v =
    if str_eq k "NEWLINE"
    then ends_line v
    else if str_eq k "COMMENT_SINGLE" || str_eq k "COMMENT_MULTI" || str_eq k "STRING"
    then true
    else count_newlines v == 0

abbrev pub FitsKind : String → (Text → Match) → Type 0
FitsKind k p = (t v r : Text) → p t ≡ some (v, r) → fits_kind k v ≡ true

newline-FitsKind : FitsKind "NEWLINE" (one_of is_newline)
unfolding fits_kind one_of
newline-FitsKind [] v r h = cc
newline-FitsKind (c ∷ cs) v r h = elim (Bool-cases (is_newline c)) [
  | inr e ↦ let none_found : one_of is_newline (c ∷ cs) ≡ none = rw e in cc
  | inl e ↦
      let found : one_of is_newline (c ∷ cs) ≡ some (c ∷ [], cs) = rw e in
      let same : c ∷ [] ≡ v = cc in subst (λ w. ends_line w ≡ true) same e
]

zero_test : {n : ℕ} → n ≡ 0 → (n == 0) ≡ true
zero_test e = rw e

-- The kinds of which no match has a line break.
literal_line-FitsKind :
    (p : Text → Match)
    → ((t : Text) → OneLine (p t))
    → (t v r : Text) → p t ≡ some (v, r)
    → (count_newlines v == 0) ≡ true
literal_line-FitsKind p h t v r e = zero_test (OneLine-some (h t) e)

fixed :
    (s : String)
    → count_newlines (chars s) ≡ 0
    → (t v r : Text) → literally (chars s) t ≡ some (v, r)
    → (count_newlines v == 0) ≡ true
fixed s h = literal_line-FitsKind (literally (chars s)) λ t. literally-OneLine (chars s) t h

anything : (p : Text → Match) (t v r : Text) → p t ≡ some (v, r) → ◌≡◌ {A = Bool} true true
anything p t v r e = refl

pub kinds-FitsKind :
    (py : Unicode) → AvoidsBreaks py.is_digit → All FitsKind (token_specification py)
unfolding token_specification fits_kind count_newlines
kinds-FitsKind py h =
    anything _
    ◂ anything _
    ◂ literal_line-FitsKind (number py.is_digit) (λ t. number-OneLine py.is_digit t h)
    ◂ anything _
    ◂ fixed "==" refl
    ◂ fixed "!=" refl
    ◂ fixed "<=" refl
    ◂ fixed ">=" refl
    ◂ fixed "<" refl
    ◂ fixed ">" refl
    ◂ fixed "=" refl
    ◂ fixed "+" refl
    ◂ fixed "-" refl
    ◂ fixed "*" refl
    ◂ fixed "/" refl
    ◂ fixed "!" refl
    ◂ fixed "(" refl
    ◂ fixed ")" refl
    ◂ fixed "{" refl
    ◂ fixed "}" refl
    ◂ fixed "," refl
    ◂ fixed ":" refl
    ◂ fixed ";" refl
    ◂ fixed "." refl
    ◂ literal_line-FitsKind identifier identifier-OneLine
    ◂ newline-FitsKind
    ◂ literal_line-FitsKind (some_of is_blank)
        (λ t. some_of-OneLine is_blank t is_blank-AvoidsBreaks)
    ◂ literal_line-FitsKind (one_of not_newline)
        (λ t. one_of-OneLine not_newline t not_newline-AvoidsBreaks)
    ◂ none_left

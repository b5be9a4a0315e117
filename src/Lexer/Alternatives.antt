-- ===== src/Lexer/Alternatives.antt =====
-- compiler/lexer.py: the alternatives of the master pattern, and which of them is taken.
use Prim.Native.Char.{Char}
use baybayin_language.Base.{
  ℕ, zero, suc, ◌≤◌, String, ◌≡◌, ◌≢◌, sym, ◌∙◌, subst, Bool, true, false, inl, inr, Bool-cases,
  Option, none, some, Option-cases, [], ◌∷◌, length, arith, Dict,
}
use baybayin_language.Lexer.Patterns.{Text, chars, Match, one_of, is_newline, not_newline, is_blank}
use baybayin_language.Lexer.Splits.{
  Splits, one_of-Splits, some_of-Splits, literally_some-Splits, comment_multi-Splits,
  comment_single-Splits, number-Splits, string_pattern-Splits, identifier-Splits,
}
use baybayin_language.Lexer.{Unicode, token_specification, first_match}

abbrev pub Spec : Type 0
Spec = Dict (Text → Match)

-- Every alternative has the property.
infixr 5 ◌◂◌
pub data All {ℓ} (Q : String → (Text → Match) → Type ℓ) : Spec → Type ℓ where
  none_left : All Q []
  ◌◂◌ : {k : String} {p : Text → Match} {ps : Spec} → Q k p → All Q ps → All Q ((k, p) ∷ ps)

first_match-none :
    (k : String) (p : Text → Match) (ps : Spec) (t : Text)
    → p t ≡ none
    → first_match ((k, p) ∷ ps) t ≡ first_match ps t
unfolding first_match
first_match-none k p ps t e = rw (first_match, e)

first_match-some :
    (k : String) (p : Text → Match) (ps : Spec) (t v r : Text)
    → p t ≡ some (v, r)
    → first_match ((k, p) ∷ ps) t ≡ some (k, v, r)
unfolding first_match
first_match-some k p ps t v r e = rw (first_match, e)

-- What is taken comes from one of the alternatives.
pub first_match-All {ℓ} :
    (Q : String → (Text → Match) → Type ℓ) (ps : Spec) (t : Text) {k : String} {v r : Text}
    → All Q ps
    → first_match ps t ≡ some (k, v, r)
    → (p : Text → Match) × Q k p × (p t ≡ some (v, r))
unfolding first_match
first_match-All Q [] t none_left h = cc
first_match-All Q ((k', p) ∷ ps) t {k} (q ◂ all) h = elim (Option-cases (p t)) [
  | inl e ↦ first_match-All Q ps t all (sym (first_match-none k' p ps t e) ∙ h)
  | inr ((v', r'), e) ↦
      let found = first_match-some k' p ps t v' r' e in
      let same : k' ≡ k = cc in (p, subst (λ x. Q x p) same q, cc)
]

abbrev is_some {ℓ} : {A : Type ℓ} → Option A → Bool
is_some none = false
is_some (some a) = true

abbrev drop : ℕ → Spec → Spec
drop zero ps = ps
drop (suc n) [] = []
drop (suc n) (p ∷ ps) = drop n ps

some_later :
    (k : String) (p : Text → Match) (ps : Spec) (t : Text)
    → is_some (first_match ps t) ≡ true
    → is_some (first_match ((k, p) ∷ ps) t) ≡ true
some_later k p ps t h = elim (Option-cases (p t)) [
  | inl e ↦ rw (first_match-none k p ps t e) h
  | inr ((v, r), e) ↦ rw (first_match-some k p ps t v r e)
]

some_behind :
    (n : ℕ) (ps : Spec) (t : Text)
    → is_some (first_match (drop n ps) t) ≡ true
    → is_some (first_match ps t) ≡ true
some_behind zero ps t h = h
some_behind (suc n) [] t h = h
some_behind (suc n) ((k, p) ∷ ps) t h = some_later k p ps t (some_behind n ps t h)

one_of-some :
    (p : Char → Bool) (c : Char) (cs : Text) → p c ≡ true → one_of p (c ∷ cs) ≡ some (c ∷ [], cs)
unfolding one_of
one_of-some p c cs e = rw e

some_first :
    (k : String) (p : Char → Bool) (ps : Spec) (c : Char) (cs : Text)
    → p c ≡ true
    → is_some (first_match ((k, one_of p) ∷ ps) (c ∷ cs)) ≡ true
some_first k p ps c cs e =
    rw (first_match-some k (one_of p) ps (c ∷ cs) (c ∷ []) cs (one_of-some p c cs e))

-- One of the last alternatives fits: a line break, or any other character.
first_match-is_some :
    (py : Unicode) (c : Char) (cs : Text)
    → is_some (first_match (token_specification py) (c ∷ cs)) ≡ true
unfolding token_specification
first_match-is_some py c cs =
    some_behind 25 (token_specification py) (c ∷ cs) (elim (Bool-cases (is_newline c)) [
      | inl e ↦ some_first "NEWLINE" is_newline _ c cs e
      | inr e ↦
          some_later "NEWLINE" _ _ (c ∷ cs)
            (some_later "SKIP" _ _ (c ∷ cs) (some_first "MISMATCH" not_newline [] c cs (rw e)))
    ])

pub first_match-ne-none :
    (py : Unicode) (c : Char) (cs : Text) → first_match (token_specification py) (c ∷ cs) ≢ none
first_match-ne-none py c cs e = cc (first_match-is_some py c cs)

abbrev Advances : String → (Text → Match) → Type 0
Advances k p = (t : Text) → Splits 1 t (p t)

fixed :
    (s : String)
    → 1 ≤ length (chars s)
    → (t : Text) → Splits 1 t (baybayin_language.Lexer.Patterns.literally (chars s) t)
fixed s le t = literally_some-Splits (chars s) t le

pub token_specification-All : (py : Unicode) → All Advances (token_specification py)
unfolding token_specification
token_specification-All py =
    comment_multi-Splits
    ◂ comment_single-Splits
    ◂ number-Splits py.is_digit
    ◂ string_pattern-Splits
    ◂ fixed "==" (omega arith)
    ◂ fixed "!=" (omega arith)
    ◂ fixed "<=" (omega arith)
    ◂ fixed ">=" (omega arith)
    ◂ fixed "<" (omega arith)
    ◂ fixed ">" (omega arith)
    ◂ fixed "=" (omega arith)
    ◂ fixed "+" (omega arith)
    ◂ fixed "-" (omega arith)
    ◂ fixed "*" (omega arith)
    ◂ fixed "/" (omega arith)
    ◂ fixed "!" (omega arith)
    ◂ fixed "(" (omega arith)
    ◂ fixed ")" (omega arith)
    ◂ fixed "{" (omega arith)
    ◂ fixed "}" (omega arith)
    ◂ fixed "," (omega arith)
    ◂ fixed ":" (omega arith)
    ◂ fixed ";" (omega arith)
    ◂ fixed "." (omega arith)
    ◂ identifier-Splits
    ◂ one_of-Splits is_newline
    ◂ some_of-Splits is_blank
    ◂ one_of-Splits not_newline
    ◂ none_left

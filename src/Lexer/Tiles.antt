-- ===== src/Lexer/Tiles.antt =====
-- compiler/lexer.py: the matches of `finditer` lie end to end over the text.
use baybayin_language.Base.{
  ℕ, zero, suc, ◌+◌, ◌≤◌, String, ◌≡◌, refl, sym, ap, ◌∙◌, subst, inl, inr, some, Option-cases,
  List, [], ◌∷◌, ◌++◌, length, length-append, arith,
}
use baybayin_language.Lexer.Patterns.{Text, Match}
use baybayin_language.Lexer.Splits.{Splits, no_match, parts}
use baybayin_language.Lexer.{Unicode, token_specification, Lexeme, first_match, finditer}
use baybayin_language.Lexer.Alternatives.{
  Spec, first_match-All, first_match-ne-none, token_specification-All,
}

-- The matches cover the text from position `start` on, each one not empty and the first alternative
-- that fits where it begins.
pub data Tiles (spec : Spec) : ℕ → Text → List Lexeme → Type 0 where
  no_text : {start : ℕ} → Tiles spec start [] []
  tile :
      {start : ℕ} {t r : Text} {ms : List Lexeme} (m : Lexeme)
      → m.start ≡ start
      → 1 ≤ length m.value
      → m.value ++ r ≡ t
      → first_match spec t ≡ some (m.kind, m.value, r)
      → Tiles spec (start + length m.value) r ms
      → Tiles spec start t (m ∷ ms)

Splits-some :
    {d : ℕ} {t v r : Text} {m : Match}
    → Splits d t m
    → m ≡ some (v, r)
    → (v ++ r ≡ t) × (d ≤ length v)
Splits-some no_match e = cc
Splits-some {d} {v = v} {r = r} (parts {v = v'} {r = r'} eq le) e =
    let same_v : v' ≡ v = cc in
    let same_r : r' ≡ r = cc in (cc, subst (λ (x : Text). d ≤ length x) same_v le)

-- What the master pattern takes is not empty, and stands at the front.
first_match-parts :
    (py : Unicode) (t : Text) {k : String} {v r : Text}
    → first_match (token_specification py) t ≡ some (k, v, r)
    → (v ++ r ≡ t) × (1 ≤ length v)
first_match-parts py t h =
    let (p, q, e) = first_match-All _ (token_specification py) t (token_specification-All py) h in
    Splits-some (q t) e

finditer-some :
    (spec : Spec) (n start : ℕ) (t : Text) {k : String} {v r : Text} {ms : List Lexeme}
    → 1 ≤ length t
    → first_match spec t ≡ some (k, v, r)
    → finditer spec n (start + length v) r ≡ some ms
    → finditer spec (suc n) start t ≡ some (record { kind = k; value = v; start = start } ∷ ms)
unfolding finditer
finditer-some spec n start [] le h h' = absurd (omega arith)
finditer-some spec n start (c ∷ cs) le h h' = rw (finditer, h, h')

-- With as much fuel as there are characters, the matches tile the text.
pub finditer-Tiles :
    (py : Unicode) (n start : ℕ) (t : Text)
    → length t ≤ n
    → (ms : List Lexeme) × (finditer (token_specification py) n start t ≡ some ms)
      × Tiles (token_specification py) start t ms
unfolding finditer
finditer-Tiles py n start [] le = ([], refl, no_text)
finditer-Tiles py zero start (c ∷ cs) le = absurd (omega arith)
finditer-Tiles py (suc n) start (c ∷ cs) le =
    elim (Option-cases (first_match (token_specification py) (c ∷ cs))) [
      | inl e ↦ absurd (first_match-ne-none py c cs e)
      | inr ((k, v, r), e) ↦
          let (eq, long) = first_match-parts py (c ∷ cs) e in
          let sizes : length v + length r ≡ suc (length cs) =
            sym (length-append v r) ∙ ap (λ (x : Text). length x) eq in
          let (ms, found, tiles) = finditer-Tiles py n (start + length v) r (omega arith) in
          (
            record { kind = k; value = v; start = start } ∷ ms,
            finditer-some (token_specification py) n start (c ∷ cs) (omega arith) e found,
            tile _ refl long eq e tiles,
          )
    ]

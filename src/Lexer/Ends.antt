-- ===== src/Lexer/Ends.antt =====
-- compiler/lexer.py: `tokenize` ends, and what it ends with.
use baybayin_language.Base.{
  ℕ, ◌≤◌, String, ◌≡◌, refl, ◌⊎◌, subst, inl, inr, Bool, true, false, ◌||◌, Bool-cases, Option,
  none, some, Option-cases, List, [], ◌∷◌, ◌++◌, length, str_eq, if◌then◌else◌, arith, Dict, lookup,
}
use baybayin_language.Lexer.Tokens.{Token}
use baybayin_language.Lexer.Patterns.{Text, Match, from_chars}
use baybayin_language.Lexer.{
  Unicode, token_specification, keywords, Lexeme, Error, Result, done, fail, no_fuel, Lexer,
  with_token, keyword_kind, step, steps, initial, end_token, finish, tokenize, without_last, tail,
}
use baybayin_language.Lexer.Alternatives.{All, none_left, ◌◂◌, first_match-All}
use baybayin_language.Lexer.Tiles.{Tiles, no_text, tile, finditer-Tiles}

-- No token has the type EOF.
unfoldable pub inner_tokens : List Token → Bool
inner_tokens [] = true
inner_tokens (t ∷ ts) = if str_eq t.type "EOF" then false else inner_tokens ts

inner_tokens-append_one :
    (ts : List Token) (t : Token)
    → inner_tokens ts ≡ true
    → str_eq t.type "EOF" ≡ false
    → inner_tokens (ts ++ t ∷ []) ≡ true
unfolding inner_tokens
inner_tokens-append_one [] t h e = rw e
inner_tokens-append_one (u ∷ ts) t h e = ground (arith, inner_tokens-append_one ts t)

-- A kind that is none of the text's own.
abbrev Named : String → Type 0
Named k = str_eq k "EOF" ≡ false

abbrev NamedKind : String → (Text → Match) → Type 0
NamedKind k p = Named k

kinds-Named : (py : Unicode) → All NamedKind (token_specification py)
unfolding token_specification
kinds-Named py =
    refl ◂ refl ◂ refl ◂ refl ◂ refl ◂ refl ◂ refl ◂ refl ◂ refl ◂ refl ◂ refl ◂ refl ◂ refl ◂ refl
    ◂ refl ◂ refl ◂ refl ◂ refl ◂ refl ◂ refl ◂ refl ◂ refl ◂ refl ◂ refl ◂ refl ◂ refl ◂ refl
    ◂ refl ◂ none_left

unfoldable all_named : Dict String → Bool
all_named [] = true
all_named ((w, k) ∷ ks) = if str_eq k "EOF" then false else all_named ks

lookup-Named :
    (ks : Dict String) (w : String) {k : String}
    → all_named ks ≡ true
    → lookup w ks ≡ some k
    → Named k
unfolding all_named lookup
lookup-Named [] w all h = cc
lookup-Named ((w', k') ∷ ks) w {k} all h = elim (Bool-cases (str_eq k' "EOF")) [
  | inl e ↦ ground (arith)
  | inr e ↦ elim (Bool-cases (str_eq w' w)) [
    | inl here ↦ let same : k' ≡ k = ground arith in subst Named same e
    | inr later ↦ lookup-Named ks w (ground arith) (ground arith)
  ]
]

keyword_kind-Named : (v : Text) → Named (keyword_kind v)
unfolding lookup all_named
keyword_kind-Named v = elim (Option-cases (lookup (from_chars v) keywords)) [
  | inl e ↦ rw (e, keyword_kind) refl
  | inr (k, e) ↦ rw (e, keyword_kind) (lookup-Named keywords (from_chars v) refl e)
]

-- A run that ends with a result that has the property, or with an error of the program.
pub data Finishes {ℓ} {A : Type ℓ} (P : A → Type 0) : Result A → Type ℓ where
  ends_with : {a : A} → P a → Finishes P (done a)
  ends_in_error : {e : Error} → Finishes P (fail e)

module _ {ℓ} {A : Type ℓ} {P : A → Type 0} where
  if-Finishes :
      {r r' : Result A} (test : Bool)
      → Finishes P r
      → Finishes P r'
      → Finishes P (if test then r else r')
  if-Finishes true h h' = h
  if-Finishes false h h' = h'

  pub option-Finishes :
      {f : String → Result A} {r : Result A} (o : Option String)
      → Finishes P r
      → ((s : String) → Finishes P (f s))
      → Finishes P (elim o [ none ↦ r | some s ↦ f s ])
  option-Finishes none h h' = h
  option-Finishes (some s) h h' = h' s

pub goes_on-Finishes :
    {P Q : Lexer → Type 0} {r : Result Lexer} {f : Lexer → Result Lexer}
    → Finishes P r
    → ((s : Lexer) → P s → Finishes Q (f s))
    → Finishes Q (elim r [ done s ↦ f s | fail e ↦ fail e | no_fuel ↦ no_fuel ])
goes_on-Finishes (ends_with {a} h) k = k a h
goes_on-Finishes ends_in_error k = ends_in_error

pub map-Finishes {ℓ} :
    {A : Type ℓ} {P Q : A → Type 0} {r : Result A}
    → Finishes P r
    → ((a : A) → P a → Q a)
    → Finishes Q r
map-Finishes (ends_with {a} h) k = ends_with (k a h)
map-Finishes ends_in_error k = ends_in_error

abbrev HasInner : Lexer → Type 0
HasInner s = inner_tokens s.tokens ≡ true

with_token-HasInner :
    (s : Lexer) (m : Lexeme) (kind value : String)
    → Named kind
    → HasInner s
    → HasInner (with_token s m kind value)
with_token-HasInner s m kind value named h = inner_tokens-append_one s.tokens _ h named

step-HasInner :
    (py : Unicode) (s : Lexer) (m : Lexeme)
    → Named m.kind
    → HasInner s
    → Finishes HasInner (step py s m)
unfolding step
step-HasInner py s m named h = if-Finishes (str_eq m.kind "NEWLINE") (ends_with h) (
    if-Finishes (str_eq m.kind "SKIP") (ends_with h) (
      if-Finishes (str_eq m.kind "COMMENT_SINGLE" || str_eq m.kind "COMMENT_MULTI") (ends_with h) (
        if-Finishes (str_eq m.kind "MISMATCH") ends_in_error (
          if-Finishes (str_eq m.kind "IDENTIFIER")
            (ends_with (with_token-HasInner s m _ _ (keyword_kind-Named m.value) h))
            (if-Finishes (str_eq m.kind "STRING")
              (option-Finishes (py.unescape (from_chars (without_last (tail m.value))))
                ends_in_error λ text. ends_with (with_token-HasInner s m _ text named h))
              (ends_with (with_token-HasInner s m _ _ named h)))))))

steps-HasInner :
    (py : Unicode) (s : Lexer) {start : ℕ} {t : Text} {ms : List Lexeme}
    → Tiles (token_specification py) start t ms
    → HasInner s
    → Finishes HasInner (steps py s ms)
unfolding steps
steps-HasInner py s no_text h = ends_with h
steps-HasInner py s (tile {t = t} {ms = ms} m at_start long eq taken tiles) h =
    let (p, named, e) =
      first_match-All NamedKind (token_specification py) t (kinds-Named py) taken in
    goes_on-Finishes (step-HasInner py s m named h) λ s' h'. steps-HasInner py s' tiles h'

-- The tokens of a text: some of other types, and an EOF behind them.
pub record TokenList (ts : List Token) : Type 0 where
  pub inner : List Token
  pub last : Token
  pub whole : ts ≡ inner ++ last ∷ []
  pub no_end : inner_tokens inner ≡ true
  pub end_type : last.type ≡ "EOF"

tokenize-Finishes :
    (py : Unicode) (n : ℕ) (source : Text)
    → length source ≤ n
    → Finishes TokenList (tokenize py n source)
unfolding tokenize inner_tokens
tokenize-Finishes py n source le =
    let (ms, found, tiles) = finditer-Tiles py n 0 source le in
    rw (tokenize, found) (go (steps-HasInner py initial tiles refl))
  where
    go : {r : Result Lexer} → Finishes HasInner r → Finishes TokenList (finish r (length source))
    go (ends_with {a = s} h) = ends_with (record {
      inner = s.tokens;
      last = end_token s (length source);
      whole = refl;
      no_end = h;
      end_type = refl;
    })
    go ends_in_error = ends_in_error

Finishes-cases {ℓ} :
    {A : Type ℓ} {P : A → Type 0} {r : Result A}
    → Finishes P r
    → ((a : A) × (r ≡ done a) × P a) ⊎ ((e : Error) × (r ≡ fail e))
Finishes-cases (ends_with {a} h) = inl (a, refl, h)
Finishes-cases (ends_in_error {e}) = inr (e, refl)

-- With as much fuel as there are characters the lexer gives tokens of which the last and no other is an
-- EOF, or one of its two errors.
pub tokenize-ends :
    (py : Unicode) (n : ℕ) (source : Text)
    → length source ≤ n
    → ((ts : List Token) × (tokenize py n source ≡ done ts) × TokenList ts)
      ⊎ ((e : Error) × (tokenize py n source ≡ fail e))
tokenize-ends py n source le = Finishes-cases (tokenize-Finishes py n source le)

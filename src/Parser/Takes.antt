-- ===== src/Parser/Takes.antt =====
-- What a rule of compiler/parser.py takes of the tokens, with rules for its parts.
use baybayin_language.Base.{
  ℕ, suc, ◌+◌, ◌-◌, ◌≤◌, String, ◌≡◌, ◌≢◌, Bool, true, false, ◌||◌, inl, inr, Bool-cases, Option,
  none, some, Option-cases, List, [], ◌∷◌, length, str_eq, arith, Dict, lookup,
}
use baybayin_language.Lexer.Tokens.{Token}
use baybayin_language.Parser.{
  Outcome, parsed, unexpected, bad_number, Numbers, number_literal, literal_of, Parse, continue,
  ◌>>=◌, give, at_end, is_at_end, check, match_any, consume, unexpected_here,
}

-- A token of type EOF is among them, which the parser does not go past.
unfoldable pub has_end : List Token → Bool
unfolding at_end
has_end [] = false
has_end (t ∷ ts) = at_end t || has_end ts

-- At most `k` tokens, an EOF among them.
pub record Fits (k : ℕ) (ts : List Token) : Type 0 where
  pub size : length ts ≤ k
  pub ends : has_end ts ≡ true

-- A program part with at most `k` tokens left, a ParserError, or the ValueError of a number that Python
-- does not convert.
pub data Leaves {ℓ} {A : Type ℓ} (nums : Numbers) (k : ℕ) : Outcome A → Type ℓ where
  left : {a : A} {ts : List Token} → Fits k ts → Leaves nums k (parsed a ts)
  stopped : {t : Token} → Leaves nums k (unexpected t)
  refused : {t : Token} → number_literal nums t.value ≡ none → Leaves nums k (bad_number t)

-- On at most `k` tokens the rule ends, and where it succeeds it has taken at least `d` of them.
pub record Takes {ℓ} {A : Type ℓ} (nums : Numbers) (d k : ℕ) (p : Parse A) : Type ℓ where
  pub run : (j : ℕ) (ts : List Token) → j ≤ k → Fits j ts → Leaves nums (j - d) (p ts)

Fits-weaken : {i j : ℕ} {ts : List Token} → i ≤ j → Fits i ts → Fits j ts
Fits-weaken le h = let size = h.size in record { size = omega arith; ends = h.ends }

-- A token that is no EOF can be taken.
taken : {j : ℕ} {t : Token} {ts : List Token} → Fits j (t ∷ ts) → at_end t ≡ false → Fits (j - 1) ts
unfolding has_end
taken {j} {t} {ts} fit inside =
    let size = fit.size in
    let ends = fit.ends in record { size = omega arith; ends = ground (arith, inside, ends) }

-- What `match_any` leaves: all tokens, or all but the one it has taken.
data Matched {ℓ} {A : Type ℓ} (j : ℕ) : Outcome (Option A) → Type ℓ where
  other : {ts : List Token} → Fits j ts → Matched j (parsed none ts)
  match_of : {a : A} {ts : List Token} → Fits (j - 1) ts → Matched j (parsed (some a) ts)

match_any-Matched {ℓ} :
    {A : Type ℓ} (table : Dict A) (j : ℕ) (ts : List Token)
    → Fits j ts
    → Matched j (match_any table ts)
unfolding match_any has_end
match_any-Matched table j [] fit = let ends = fit.ends in cc
match_any-Matched table j (t ∷ ts) fit = elim (Bool-cases (at_end t)) [
  | inl e ↦ rw (match_any, e) (other fit)
  | inr e ↦ elim (Option-cases (lookup t.type table)) [
    | inl nowhere ↦ rw (match_any, e, nowhere) (other fit)
    | inr (a, there) ↦ rw (match_any, e, there) (match_of (taken fit e))
  ]
]

module _ {nums : Numbers} where
  Leaves-weaken {ℓ} :
      {A : Type ℓ} {i j : ℕ} {r : Outcome A} → i ≤ j → Leaves nums i r → Leaves nums j r
  Leaves-weaken le (left h) = left (Fits-weaken le h)
  Leaves-weaken le stopped = stopped
  Leaves-weaken le (refused e) = refused e

  module _ {ℓ} {A : Type ℓ} where
    pub Takes-weaken :
        {c d i k : ℕ} {p : Parse A} → c ≤ d → i ≤ k → Takes nums d k p → Takes nums c i p
    Takes-weaken c_le i_le h = record {
      run = λ j ts le fit. Leaves-weaken (omega arith) (h.run j ts (omega arith) fit);
    }

    -- There is always an EOF left, so on no tokens nothing is asked.
    pub Takes-none : {d k : ℕ} {p : Parse A} → k ≤ 0 → Takes nums d k p
    unfolding has_end
    Takes-none {d} {k} {p} none_left = record {
      run = λ j ts le fit. absurd (impossible j ts (omega arith) fit.size fit.ends);
    }
      where
        impossible : (j : ℕ) (ts : List Token) → j ≤ 0 → length ts ≤ j → has_end ts ≢ true
        impossible j [] le size ends = cc
        impossible j (t ∷ ts) le size ends = omega arith

    -- Either of two rules.
    pub if-Takes :
        {d k : ℕ} {p q : Parse A} (test : Bool)
        → Takes nums d k p
        → Takes nums d k q
        → Takes nums d k (elim test [ true ↦ p | false ↦ q ])
    if-Takes true h h' = h
    if-Takes false h h' = h'

    pub give-Takes : {k : ℕ} {a : A} → Takes nums 0 k (give a)
    give-Takes = record { run = λ j ts le fit. left (Fits-weaken (omega arith) fit) }

    pub unexpected_here-Takes : {d k : ℕ} → Takes nums d k (unexpected_here {A = A})
    unfolding unexpected_here has_end
    unexpected_here-Takes {d} = record { run = λ j ts le fit. go j ts fit.ends }
      where
        go :
            (j : ℕ) (ts : List Token)
            → has_end ts ≡ true
            → Leaves nums (j - d) (unexpected_here {A = A} ts)
        go j [] ends = cc
        go j (t ∷ ts) ends = stopped

    pub unexpected-Takes : {d k : ℕ} {t : Token} → Takes {A = A} nums d k (λ ts. unexpected t)
    unexpected-Takes = record { run = λ j ts le fit. stopped }

    -- One rule and then another.
    pub then-Takes {κ} :
        {B : Type κ} {k m : ℕ} {p : Parse A} {f : A → Parse B} (d e : ℕ)
        → m ≤ d + e
        → Takes nums d k p
        → ((a : A) → Takes nums e (k - d) (f a))
        → Takes nums m k (p >>= f)
    then-Takes {k} {m} {p} {f} d e m_le h next = record {
      run = λ j ts le fit. go j le (h.run j ts le fit);
    }
      where
        go :
            (j : ℕ) {r : Outcome A}
            → j ≤ k
            → Leaves nums (j - d) r
            → Leaves nums (j - m) (continue r f)
        go j le (left {a} {ts} fit) =
            Leaves-weaken (omega arith) ((next a).run (j - d) ts (omega arith) fit)
        go j le stopped = stopped
        go j le (refused e) = refused e

  -- A token of one of some types, or no step.
  pub match_any-Takes {ℓ κ} :
      {A : Type ℓ} {B : Type κ} {k m : ℕ} (table : Dict A) (f : Option (A × Token) → Parse B)
      (d : ℕ)
      → m ≤ suc d
      → Takes nums m k (f none)
      → ((x : A × Token) → Takes nums d (k - 1) (f (some x)))
      → Takes nums m k (match_any table >>= f)
  match_any-Takes {A} {k = k} {m = m} table f d m_le otherwise next = record {
    run = λ j ts le fit. go j le (match_any-Matched table j ts fit);
  }
    where
      go :
          (j : ℕ) {r : Outcome (Option (A × Token))}
          → j ≤ k
          → Matched j r
          → Leaves nums (j - m) (continue r f)
      go j le (other {ts} fit) = otherwise.run j ts le fit
      go j le (match_of {a} {ts} fit) =
          Leaves-weaken (omega arith) ((next a).run (j - 1) ts (omega arith) fit)

  pub consume-Takes : {k : ℕ} (type : String) → Takes nums 1 k (consume type)
  unfolding consume has_end
  consume-Takes type = record { run = λ j ts le fit. go j ts fit }
    where
      go : (j : ℕ) (ts : List Token) → Fits j ts → Leaves nums (j - 1) (consume type ts)
      go j [] fit = let ends = fit.ends in cc
      go j (t ∷ ts) fit = elim (Bool-cases (at_end t)) [
        | inl e ↦ rw (consume, e) stopped
        | inr e ↦ elim (Bool-cases (str_eq t.type type)) [
          | inl here ↦ rw (consume, e, here) (left (taken fit e))
          | inr elsewhere ↦ rw (consume, e, elsewhere) stopped
        ]
      ]

  pub check-Takes : {k : ℕ} (type : String) → Takes nums 0 k (check type)
  unfolding check has_end
  check-Takes type = record { run = λ j ts le fit. go j ts fit }
    where
      go : (j : ℕ) (ts : List Token) → Fits j ts → Leaves nums (j - 0) (check type ts)
      go j [] fit = let ends = fit.ends in cc
      go j (t ∷ ts) fit = left (Fits-weaken (omega arith) fit)

  pub is_at_end-Takes : {k : ℕ} → Takes nums 0 k is_at_end
  unfolding is_at_end has_end
  is_at_end-Takes = record { run = λ j ts le fit. go j ts fit }
    where
      go : (j : ℕ) (ts : List Token) → Fits j ts → Leaves nums (j - 0) (is_at_end ts)
      go j [] fit = let ends = fit.ends in cc
      go j (t ∷ ts) fit = left (Fits-weaken (omega arith) fit)

  pub literal_of-Takes :
      {k : ℕ} (t : Token) → Takes nums 0 k (literal_of (number_literal nums t.value) t)
  literal_of-Takes t = elim (Option-cases (number_literal nums t.value)) [
    | inl e ↦ rw e (record { run = λ j ts le fit. refused e })
    | inr (l, e) ↦ rw e give-Takes
  ]

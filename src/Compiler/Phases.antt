-- ===== src/Compiler/Phases.antt =====
-- compiler/compiler.py: how the phases of `transpile` meet.
use baybayin_language.Base.{
  String, ◌≡◌, refl, ◌⊎◌, inl, inr, true, none, some, Option-cases, List, [], ◌∷◌, ◌++◌, length,
  lookup, arith,
}
use baybayin_language.Ast.{Program}
use baybayin_language.Lexer.Tokens.{Token}
use baybayin_language.Lexer.Patterns.{Text}
use baybayin_language.Lexer
use baybayin_language.Lexer.{tokenize}
use baybayin_language.Lexer.Ends.{TokenList, tokenize-ends}
use baybayin_language.Parser.{parsed, unexpected, bad_number, number_literal, at_end}
use baybayin_language.Parser.Takes.{has_end}
use baybayin_language.Parser.Programs.{parse}
use baybayin_language.Parser.Ends.{parse-ends}
use baybayin_language.Analyzer.{Analyzer, Result, ok, err}
use baybayin_language.Analyzer
use baybayin_language.Analyzer.Statements.{analyze}
use baybayin_language.Transpiler.Balance.{visit_program-scopes}
use baybayin_language.Transpiler.Js.Balance.{js_program-scopes}
use baybayin_language.Transpiler.Solidity.Balance.{solidity_program-scopes}
use baybayin_language.Transpiler
use baybayin_language.Transpiler.Js
use baybayin_language.Transpiler.Solidity
use baybayin_language.Compiler.{
  Target, transpilers, Platform, Failure, unknown_target, lexer_error, parser_error, value_error,
  semantic_error, Compiled, compiled, failed, ◌>>=◌, program_of, front_end, generate, transpile,
}

has_end-append_one : (ts : List Token) (t : Token) → t.type ≡ "EOF" → has_end (ts ++ t ∷ []) ≡ true
unfolding has_end at_end
has_end-append_one [] t e = rw e
has_end-append_one (u ∷ ts) t e = ground (arith, has_end-append_one ts t e)

TokenList-has_end : {ts : List Token} → TokenList ts → has_end ts ≡ true
TokenList-has_end h = rw h.whole (has_end-append_one h.inner h.last h.end_type)

-- What each phase gave on the way to a program.
pub record Accepted (platform : Platform) (source : Text) (p : Program) : Type 0 where
  pub tokens : List Token
  pub rest : List Token
  pub analyzer : Analyzer
  pub lexes : tokenize platform.unicode (length source) source ≡ Lexer.done tokens
  pub parses : parse platform.numbers (length tokens) tokens ≡ parsed p rest
  pub accepts : analyze p ≡ ok analyzer

-- The error of the first phase that has one.
pub data Reported (platform : Platform) (source : Text) (target : String) : Failure → Type 0 where
  by_target :
      lookup (platform.normalize target) transpilers ≡ none
      → Reported platform source target (unknown_target target)
  by_lexer :
      {e : Lexer.Error}
      → tokenize platform.unicode (length source) source ≡ Lexer.fail e
      → Reported platform source target (lexer_error e)
  by_parser :
      {ts : List Token} {t : Token}
      → tokenize platform.unicode (length source) source ≡ Lexer.done ts
      → parse platform.numbers (length ts) ts ≡ unexpected t
      → Reported platform source target (parser_error t)
  by_number :
      {ts : List Token} {t : Token}
      → tokenize platform.unicode (length source) source ≡ Lexer.done ts
      → parse platform.numbers (length ts) ts ≡ bad_number t
      → number_literal platform.numbers t.value ≡ none
      → Reported platform source target (value_error t)
  by_analyzer :
      {ts rest : List Token} {p : Program} {e : Analyzer.Error}
      → tokenize platform.unicode (length source) source ≡ Lexer.done ts
      → parse platform.numbers (length ts) ts ≡ parsed p rest
      → analyze p ≡ err e
      → Reported platform source target (semantic_error e)

-- The code that the printer of each target gives from its fresh state.
pub data Generated (platform : Platform) (p : Program) : Target → String → Type 0 where
  as_python :
      Generated platform p Target.python
        (Transpiler.Statements.visit_program platform.python Transpiler.Statements.fresh p).0
  as_js :
      Generated platform p Target.js
        (Transpiler.Js.Statements.visit_program platform.python Transpiler.Js.Statements.fresh p).0
  as_solidity :
      Generated platform p Target.solidity
        (Transpiler.Solidity.Programs.visit_program platform.python
          Transpiler.Solidity.Programs.fresh p).0

-- No printer pops a scope where there is none.
generate-Generated :
    (platform : Platform) (p : Program) (t : Target)
    → (code : String) × (generate platform t p ≡ compiled code) × Generated platform p t code
unfolding generate
generate-Generated platform p Target.python =
    (_, rw (visit_program-scopes platform.python p) refl, as_python)
generate-Generated platform p Target.js = (_, rw (js_program-scopes platform.python p) refl, as_js)
generate-Generated platform p Target.solidity =
    (_, rw (solidity_program-scopes platform.python p) refl, as_solidity)

Result-cases {ℓ} :
    {A : Type ℓ} (r : Result A) → ((a : A) × (r ≡ ok a)) ⊎ ((e : Analyzer.Error) × (r ≡ err e))
Result-cases (ok a) = inl (a, refl)
Result-cases (err e) = inr (e, refl)

module _ (platform : Platform) (source : Text) (target : String) where
  data Comes : Compiled Program → Type 0 where
    comes : {p : Program} → Accepted platform source p → Comes (compiled p)
    stops : {f : Failure} → Reported platform source target f → Comes (failed f)

  check-Comes :
      (ts rest : List Token) (p : Program)
      → tokenize platform.unicode (length source) source ≡ Lexer.done ts
      → parse platform.numbers (length ts) ts ≡ parsed p rest
      → Comes (elim (analyze p) [ ok a ↦ compiled p | err e ↦ failed (semantic_error e) ])
  check-Comes ts rest p lexes parses = elim (Result-cases (analyze p)) [
    | inl (a, e) ↦ rw e (
        comes (record {
          tokens = ts;
          rest = rest;
          analyzer = a;
          lexes = lexes;
          parses = parses;
          accepts = e;
        }))
    | inr (er, e) ↦ rw e (stops (by_analyzer lexes parses e))
  ]

  parse-Comes :
      (ts : List Token)
      → tokenize platform.unicode (length source) source ≡ Lexer.done ts
      → has_end ts ≡ true
      → Comes (
          program_of (parse platform.numbers (length ts) ts) >>= λ p. elim (analyze p) [
            | ok a ↦ compiled p
            | err e ↦ failed (semantic_error e)
          ])
  parse-Comes ts lexes ends = elim (parse-ends platform.numbers (length ts) ts (omega arith) ends) [
    | inl (p, rest, e) ↦ rw e (check-Comes ts rest p lexes e)
    | inr (inl (t, e)) ↦ rw e (stops (by_parser lexes e))
    | inr (inr (t, e, raises)) ↦ rw e (stops (by_number lexes e raises))
  ]

  front_end-Comes : Comes (front_end platform source)
  unfolding front_end
  front_end-Comes = elim (tokenize-ends platform.unicode (length source) source (omega arith)) [
    | inl (ts, e, tokens) ↦ rw e (parse-Comes ts e (TokenList-has_end tokens))
    | inr (er, e) ↦ rw e (stops (by_lexer e))
  ]

  Comes-cases :
      {r : Compiled Program}
      → Comes r
      → ((p : Program) × (r ≡ compiled p) × Accepted platform source p)
        ⊎ ((f : Failure) × (r ≡ failed f) × Reported platform source target f)
  Comes-cases (comes {p} h) = inl (p, refl, h)
  Comes-cases (stops {f} h) = inr (f, refl, h)

-- For every text and target the compiler gives the code of the printer for that target from its fresh
-- state, for the program that the lexer and the parser read from the text and the analyzer accepts; or it
-- fails with an unknown target or with the error of the first phase that has one. It always ends, no phase
-- meets tokens that the one before it cannot give, and no printer pops a scope where there is none.
pub transpile-ends :
    (platform : Platform) (source : Text) (target : String)
    → ((t : Target) × (p : Program) × (lookup (platform.normalize target) transpilers ≡ some t)
        × Accepted platform source p
        × ((code : String) × Generated platform p t code
            × (transpile platform source target ≡ compiled code)))
      ⊎ ((f : Failure) × Reported platform source target f
          × (transpile platform source target ≡ failed f))
unfolding transpile
transpile-ends platform source target =
    elim (Option-cases (lookup (platform.normalize target) transpilers)) [
      | inl e ↦ inr (unknown_target target, by_target e, rw (transpile, e))
      | inr (t, e) ↦
          elim (Comes-cases platform source target (front_end-Comes platform source target)) [
            | inl (p, found, accepted) ↦
                let (code, made, generated) = generate-Generated platform p t in
                inl (t, p, e, accepted, (code, generated, rw (transpile, e, found) made))
            | inr (f, found, reported) ↦ inr (f, reported, rw (transpile, e, found))
          ]
    ]

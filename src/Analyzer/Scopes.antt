-- ===== src/Analyzer/Scopes.antt =====
-- The scope stack of compiler/semantic.py: a visit adds names to the innermost scope only.
use text.Mathlib.TextEquality.{eq_iff}
use baybayin_language.Base.{
  String, ◌≡◌, refl, sym, ap, ◌∙◌, subst, inl, inr, Bool-cases, Option, none, some, Option-cases,
  List, [], ◌∷◌, length, str_eq, arith, Dict, lookup, insert, lookup-insert,
}
use baybayin_language.Ast.{Param, VarDecl}
use baybayin_language.Analyzer.{
  Error, TypeName, Kind, Symbol, Result, ok, err, ◌>>=◌, Analyzer, drop_scope, declare, declare_in,
}
use baybayin_language.Analyzer.Statements.{
  declared_type, visit_var_decl, visit_param, visit_params, declare_fields,
}

-- A postcondition of a run that may be refused.
pub data Ensures {ℓ} {A : Type ℓ} (P : A → Type 0) : Result A → Type ℓ where
  holds : {a : A} → P a → Ensures P (ok a)
  refused : {e : Error} → Ensures P (err e)

module _ {ℓ} {A : Type ℓ} where
  pub Ensures-ok : {P : A → Type 0} {r : Result A} {a : A} → Ensures P r → r ≡ ok a → P a
  Ensures-ok {P} (holds reached) same = subst P (cc) reached
  Ensures-ok refused same = cc

  pub Ensures-bind {κ} :
      {B : Type κ} {P : A → Type 0} {Q : B → Type 0} {r : Result A} {f : A → Result B}
      → Ensures P r
      → ((a : A) → P a → Ensures Q (f a))
      → Ensures Q (r >>= f)
  Ensures-bind (holds {a} h) k = k a h
  Ensures-bind refused k = refused

  -- A run of which nothing is needed.
  pub Ensures-any : (r : Result A) → Ensures (λ a. Unit {0}) r
  Ensures-any (ok a) = holds tt
  Ensures-any (err e) = refused

pub Ensures-map {ℓ} :
    {A : Type ℓ} {P Q : A → Type 0} {r : Result A}
    → Ensures P r
    → ((a : A) → P a → Q a)
    → Ensures Q r
Ensures-map (holds {a} h) f = holds (f a h)
Ensures-map refused f = refused

abbrev pub lookup_head : String → List (Dict Symbol) → Option Symbol
lookup_head k [] = none
lookup_head k (s ∷ ss) = lookup k s

-- `a'` has the contracts of `a`, the outer scopes too, and in the innermost scope all names of `a`
-- with their entries.
pub record Extends (a a' : Analyzer) : Type 0 where
  pub same_contracts : a'.contracts ≡ a.contracts
  pub outer : drop_scope a'.scopes ≡ drop_scope a.scopes
  pub depth : length a'.scopes ≡ length a.scopes
  pub kept :
      (k : String) (s : Symbol) → lookup_head k a.scopes ≡ some s → lookup_head k a'.scopes ≡ some s

pub Extends-refl : (a : Analyzer) → Extends a a
Extends-refl a = record { same_contracts = refl; outer = refl; depth = refl; kept = λ k s h. h }

pub Extends-trans : {a b c : Analyzer} → Extends a b → Extends b c → Extends a c
Extends-trans x y = record {
  same_contracts = y.same_contracts ∙ x.same_contracts;
  outer = y.outer ∙ x.outer;
  depth = y.depth ∙ x.depth;
  kept = λ k s h. y.kept k s (x.kept k s h);
}

pub Ensures-after :
    {a b : Analyzer} {r : Result Analyzer}
    → Extends a b
    → Ensures (Extends b) r
    → Ensures (Extends a) r
Ensures-after x h = Ensures-map h (λ c y. Extends-trans x y)

-- Whatever else is reset: the scopes and contracts are those from before.
pub same_scopes-Extends :
    (a a' : Analyzer) → a'.contracts ≡ a.contracts → a'.scopes ≡ a.scopes → Extends a a'
same_scopes-Extends a a' c s = record {
  same_contracts = c;
  outer = ap drop_scope s;
  depth = ap (λ ss. length ss) s;
  kept = λ k x h. ap (lookup_head k) s ∙ h;
}

record Grown (ss ss' : List (Dict Symbol)) : Type 0 where
  rest : drop_scope ss' ≡ drop_scope ss
  size : length ss' ≡ length ss
  names : (k : String) (s : Symbol) → lookup_head k ss ≡ some s → lookup_head k ss' ≡ some s

insert_kept :
    (name : String) (sym : Symbol) (s : Dict Symbol)
    → lookup name s ≡ none
    → (k : String) (x : Symbol) → lookup k s ≡ some x
    → lookup k (insert name sym s) ≡ some x
insert_kept name sym s fresh k x h = elim (Bool-cases (str_eq name k)) [
  | inl e ↦
      let same : name ≡ k = (eq_iff name k).0 e in
      absurd (ground (arith, ap (λ j. lookup j s) same))
  | inr e ↦ rw (lookup-insert, e) h
]

declare_in-Ensures :
    (ss : List (Dict Symbol)) (name : String) (sym : Symbol)
    → Ensures (Grown ss) (declare_in ss name sym)
declare_in-Ensures [] name sym = refused
declare_in-Ensures (s ∷ ss) name sym = elim (Option-cases (lookup name s)) [
  | inl e ↦
      rw (declare_in, e)
        (holds (record { rest = refl; size = refl; names = insert_kept name sym s e }))
  | inr (x, e) ↦ rw (declare_in, e) refused
]

pub declare-Ensures :
    (name : String) (t : TypeName) (kind : Kind) (params : List String) (a : Analyzer)
    → Ensures (Extends a) (declare name t kind params a)
unfolding declare
declare-Ensures name t kind params a =
    Ensures-bind
      (declare_in-Ensures a.scopes name (record { type_name = t; kind = kind; params = params }))
      λ ss g.
        holds (record { same_contracts = refl; outer = g.rest; depth = g.size; kept = g.names })

pub visit_params-Ensures :
    (a : Analyzer) (ps : List Param) → Ensures (Extends a) (visit_params a ps)
unfolding visit_params visit_param
visit_params-Ensures a [] = holds (Extends-refl a)
visit_params-Ensures a (p ∷ ps) =
    Ensures-bind (declare-Ensures p.name (some p.type_ann) Kind.param [] a)
      λ a' x. Ensures-after x (visit_params-Ensures a' ps)

pub declare_fields-Ensures :
    (fs : Dict String) (a : Analyzer) → Ensures (Extends a) (declare_fields fs a)
unfolding declare_fields
declare_fields-Ensures [] a = holds (Extends-refl a)
declare_fields-Ensures ((name, t) ∷ fs) a =
    Ensures-bind (declare-Ensures name (some t) Kind.state_var [] a)
      λ a' x. Ensures-after x (declare_fields-Ensures fs a')

pub visit_var_decl-Ensures : (a : Analyzer) (d : VarDecl) → Ensures (Extends a) (visit_var_decl a d)
unfolding visit_var_decl
visit_var_decl-Ensures a d =
    Ensures-bind (Ensures-any (declared_type a d)) λ t _. declare-Ensures d.name t Kind.var [] a

-- ===== src/Analyzer/Names.antt =====
-- The names that compiler/semantic.py's `declare` accepts in one scope.
use text.Mathlib.TextEquality.{eq_iff}
use baybayin_language.Base.{
  String, ◌≡◌, refl, ap, Bool, true, false, not, ◌&&◌, inl, inr, Bool-cases, none, some,
  Option-cases, List, [], ◌∷◌, str_eq, arith, Dict, lookup, lookup-insert_self, mem_name,
}
use baybayin_language.Ast.{VarDecl, var_decl, block, Block, end, seq}
use baybayin_language.Analyzer.{
  Kind, Symbol, Result, ok, err, Analyzer, enter_scope, declare, declare_in,
}
use baybayin_language.Analyzer.Statements.{
  declared_type, visit_var_decl, visit_stmt, visit_statements,
}
use baybayin_language.Analyzer.Scopes.{
  Ensures, holds, refused, Ensures-ok, Ensures-bind, Ensures-any, Ensures-map, lookup_head, Extends,
}
use baybayin_language.Analyzer.Balance.{stmt-Ensures}

-- The names that the declarations directly in a block declare.
unfoldable pub declared : Block → List String
declared end = []
declared (seq (var_decl d) b) = d.name ∷ declared b
declared (seq _ b) = declared b

unfoldable pub distinct : List String → Bool
distinct [] = true
distinct (k ∷ ks) = not (mem_name k ks) && distinct ks

-- The name is new in the innermost scope, and has an entry there afterwards.
record Fresh (name : String) (entry : Symbol) (ss ss' : List (Dict Symbol)) : Type 0 where
  before : lookup_head name ss ≡ none
  after : lookup_head name ss' ≡ some entry

declare_in-Fresh :
    (ss : List (Dict Symbol)) (name : String) (entry : Symbol)
    → Ensures (Fresh name entry ss) (declare_in ss name entry)
declare_in-Fresh [] name entry = refused
declare_in-Fresh (s ∷ ss) name entry = elim (Option-cases (lookup name s)) [
  | inl e ↦
      rw (declare_in, e) (holds (record { before = e; after = lookup-insert_self name entry s }))
  | inr (x, e) ↦ rw (declare_in, e) refused
]

-- What an accepted declaration tells.
record Declares (name : String) (a a' : Analyzer) : Type 0 where
  entry : Symbol
  fresh : Fresh name entry a.scopes a'.scopes

visit_var_decl-Declares :
    (a : Analyzer) (d : VarDecl) → Ensures (Declares d.name a) (visit_var_decl a d)
unfolding visit_var_decl declare
visit_var_decl-Declares a d = Ensures-bind (Ensures-any (declared_type a d)) λ t _.
    Ensures-bind
      (declare_in-Fresh a.scopes d.name (record { type_name = t; kind = Kind.var; params = [] }))
      λ ss g. holds (record { entry = _; fresh = g })

-- The names are distinct, and none of them is in the innermost scope of `a`.
record NewNames (a : Analyzer) (names : List String) : Type 0 where
  once : distinct names ≡ true
  unused : (k : String) (s : Symbol) → lookup_head k a.scopes ≡ some s → mem_name k names ≡ false

NewNames-before :
    {a a₁ : Analyzer} {names : List String} → Extends a a₁ → NewNames a₁ names → NewNames a names
NewNames-before x n = record { once = n.once; unused = λ k s h. n.unused k s (x.kept k s h) }

NewNames-cons :
    {a a₁ : Analyzer} {name : String} {names : List String}
    → Extends a a₁
    → Declares name a a₁
    → NewNames a₁ names
    → NewNames a (name ∷ names)
unfolding distinct mem_name
NewNames-cons {a} {name} x d n = record {
  once = rw (n.unused name d.entry d.fresh.after) n.once;
  unused = λ k s h. elim (Bool-cases (str_eq name k)) [
    | inl e ↦
        let same : name ≡ k = (eq_iff name k).0 e in
        absurd (ground (arith, h, d.fresh.before, ap (λ j. lookup_head j a.scopes) same))
    | inr e ↦ rw (e) (n.unused k s (x.kept k s h))
  ];
}

-- Both of two postconditions.
Ensures-both {ℓ} :
    {A : Type ℓ} {P Q : A → Type 0} {r : Result A}
    → Ensures P r
    → Ensures Q r
    → Ensures (λ a. P a × Q a) r
Ensures-both {r = ok a} (holds p) q = holds (p, Ensures-ok q refl)
Ensures-both {r = err e} refused q = refused

statements-NewNames :
    (b : Block) (a : Analyzer) → Ensures (λ _. NewNames a (declared b)) (visit_statements a b)
unfolding visit_statements visit_stmt declared distinct mem_name
statements-NewNames end a = holds (record { once = refl; unused = λ k s h. refl })
statements-NewNames (seq (var_decl d) b) a =
    Ensures-bind (Ensures-both (stmt-Ensures (var_decl d) a) (visit_var_decl-Declares a d))
      λ a₁ (x, y). Ensures-map (statements-NewNames b a₁) λ _ n. NewNames-cons x y n
statements-NewNames (seq s b) a =
    Ensures-bind (stmt-Ensures s a)
      λ a₁ x. Ensures-map (statements-NewNames b a₁) λ _ n. NewNames-before x n

-- A block that is accepted declares each of its variables once.
pub visit_stmt-block_names :
    (a a' : Analyzer) (b : Block) → visit_stmt a (block b) ≡ ok a' → distinct (declared b) ≡ true
visit_stmt-block_names a a' b h = Ensures-ok exact h
  where
    exact : Ensures (λ c. distinct (declared b) ≡ true) (visit_stmt a (block b))
    exact =
        unfold visit_stmt in
        Ensures-bind (statements-NewNames b (enter_scope a)) λ a₁ n. holds n.once

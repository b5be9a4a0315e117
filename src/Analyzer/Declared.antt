-- ===== src/Analyzer/Declared.antt =====
-- compiler/semantic.py: `visit_identifier` in the expressions that are accepted.
use baybayin_language.Base.{
  String, ◌≡◌, refl, some, Option-cases, inl, inr, List, [], ◌∷◌, ◌++◌, arith,
}
use baybayin_language.Ast.{Expr, literal, identifier, member, call, unary, binary, assign}
use baybayin_language.Analyzer.{
  Analyzer, Symbol, TypeName, Result, ok, err, ◌>>=◌, lookup_symbol, identifier_type, type_of,
}

-- The names that an expression reads or assigns outside of calls, and those in the objects of method calls.
unfoldable pub names_of : Expr → List String
names_of (literal l) = []
names_of (identifier x) = x ∷ []
names_of (member e x) = names_of e
names_of (unary op e) = names_of e
names_of (binary l op r) = names_of l ++ names_of r
names_of (call (member e x) args) = names_of e
names_of (call callee args) = []
names_of (assign t e) = names_of t ++ names_of e

-- Each has a symbol in a scope, in the current contract or at the top level.
abbrev pub AllDeclared : Analyzer → List String → Type 0
AllDeclared a [] = Unit {0}
AllDeclared a (x ∷ xs) = ((s : Symbol) × (lookup_symbol x a ≡ some s)) × AllDeclared a xs

append-AllDeclared :
    (a : Analyzer) (xs ys : List String)
    → AllDeclared a xs
    → AllDeclared a ys
    → AllDeclared a (xs ++ ys)
append-AllDeclared a [] ys h k = k
append-AllDeclared a (x ∷ xs) ys (h, hs) k = (h, append-AllDeclared a xs ys hs k)

first_ok {ℓ κ} :
    {T : Type ℓ} {U : Type κ} (r : Result T) (next : T → Result U) (u : U)
    → (r >>= next) ≡ ok u
    → (t : T) × (r ≡ ok t) × (next t ≡ ok u)
first_ok (ok t) next u h = (t, refl, h)
first_ok (err e) next u h = ground arith

identifier-AllDeclared :
    (a : Analyzer) (x : String) (t : TypeName) → identifier_type x a ≡ ok t → AllDeclared a (x ∷ [])
unfolding identifier_type
identifier-AllDeclared a x t h = elim (Option-cases (lookup_symbol x a)) [
  | inl e ↦ ground (arith, h, e)
  | inr (s, e) ↦ ((s, e), tt)
]

-- In an expression that the analyzer accepts, these names are declared where it stands: those outside of
-- calls, and in a method call those of the object. Nothing is said of other callees and of arguments.
pub type_of-AllDeclared :
    (a : Analyzer) (e : Expr) (t : TypeName) → type_of a e ≡ ok t → AllDeclared a (names_of e)
unfolding type_of names_of
type_of-AllDeclared a (literal l) t h = tt
type_of-AllDeclared a (identifier x) t h = identifier-AllDeclared a x t h
type_of-AllDeclared a (member e x) t h =
    let (s, first, rest) = first_ok (type_of a e) _ t h in type_of-AllDeclared a e s first
type_of-AllDeclared a (unary op e) t h =
    let (s, first, rest) = first_ok (type_of a e) _ t h in type_of-AllDeclared a e s first
type_of-AllDeclared a (binary l op r) t h =
    let (s, first, rest) = first_ok (type_of a l) _ t h in
    let (u, second, last) = first_ok (type_of a r) _ t rest in
    append-AllDeclared a (names_of l) (names_of r) (type_of-AllDeclared a l s first)
      (type_of-AllDeclared a r u second)
type_of-AllDeclared a (call (member e x) args) t h =
    let (s, first, rest) = first_ok (type_of a e) _ t h in type_of-AllDeclared a e s first
type_of-AllDeclared a (call (identifier x) args) t h = tt
type_of-AllDeclared a (call (literal l) args) t h = tt
type_of-AllDeclared a (call (call c es) args) t h = tt
type_of-AllDeclared a (call (unary op e) args) t h = tt
type_of-AllDeclared a (call (binary l op r) args) t h = tt
type_of-AllDeclared a (call (assign target e) args) t h = tt
type_of-AllDeclared a (assign target e) t h =
    let (s, first, rest) = first_ok (type_of a target) _ t h in
    let (u, second, last) = first_ok (type_of a e) _ t rest in
    append-AllDeclared a (names_of target) (names_of e) (type_of-AllDeclared a target s first)
      (type_of-AllDeclared a e u second)

-- ===== src/Transpiler/Scopes.antt =====
-- compiler/transpiler_python.py, compiler/transpiler_js.py, compiler/transpiler_solidity.py: the indentation,
-- which is a signed number, and the list of scopes, whose `pop` raises where it is empty.
use baybayin_language.Base.{
  ℕ, zero, suc, String, ◌≡◌, refl, ap, ◌∙◌, Option, none, some, List, [], ◌∷◌, ◌+++◌, length,
}
use baybayin_language.Base.Int.{ℤ, pos, negsuc}

-- `indent_level += 1`
abbrev pub up : ℤ → ℤ
up (pos n) = pos (suc n)
up (negsuc zero) = pos 0
up (negsuc (suc n)) = negsuc n

-- `indent_level -= 1`
abbrev pub down : ℤ → ℤ
down (pos zero) = negsuc 0
down (pos (suc n)) = pos n
down (negsuc n) = negsuc (suc n)

unfoldable pub spaces : ℕ → String
spaces zero = ""
spaces (suc n) = "    " +++ spaces n

-- `"    " * level`
abbrev pub margin : ℤ → String
margin (pos n) = spaces n
margin (negsuc n) = ""

-- The scopes, the innermost first, or the IndexError of a `pop`, which ends the run.
pub data Stack {ℓ} (S : Type ℓ) : Type ℓ where
  stack : List S → Stack S
  index_error : Stack S

module _ {ℓ} {S : Type ℓ} where
  -- `scopes.append(s)`
  abbrev pub push : S → Stack S → Stack S
  push s (stack ss) = stack (s ∷ ss)
  push s index_error = index_error

  -- `scopes.pop()`
  abbrev pub pop : Stack S → Stack S
  pop (stack []) = index_error
  pop (stack (s ∷ ss)) = stack ss
  pop index_error = index_error

  -- A change of `scopes[-1]`, if there is a scope.
  abbrev pub on_top : (S → S) → Stack S → Stack S
  on_top f (stack []) = stack []
  on_top f (stack (s ∷ ss)) = stack (f s ∷ ss)
  on_top f index_error = index_error

  abbrev pub entries : Stack S → List S
  entries (stack ss) = ss
  entries index_error = []

  -- How many scopes there are, unless a `pop` has raised.
  abbrev pub depth : Stack S → Option ℕ
  depth (stack ss) = some (length ss)
  depth index_error = none

  pub pop-push : (s : S) (ss : Stack S) → pop (push s ss) ≡ ss
  pop-push s (stack ss) = refl
  pop-push s index_error = refl

  pub pop-on_top : (f : S → S) (ss : Stack S) → pop (on_top f ss) ≡ pop ss
  pop-on_top f (stack []) = refl
  pop-on_top f (stack (s ∷ ss)) = refl
  pop-on_top f index_error = refl

  pub depth-on_top : (f : S → S) (ss : Stack S) → depth (on_top f ss) ≡ depth ss
  depth-on_top f (stack []) = refl
  depth-on_top f (stack (s ∷ ss)) = refl
  depth-on_top f index_error = refl

  -- A stack of no scopes is one that no `pop` has raised on.
  pub no_scopes : (ss : Stack S) → depth ss ≡ some 0 → ss ≡ stack []
  no_scopes (stack []) e = refl
  no_scopes (stack (s ∷ ss)) e = cc
  no_scopes index_error e = cc

pub down-up : (l : ℤ) → down (up l) ≡ l
down-up (pos n) = refl
down-up (negsuc zero) = refl
down-up (negsuc (suc n)) = refl

pub one_less : {l k : ℤ} → l ≡ up k → down l ≡ k
one_less {k = k} e = ap down e ∙ down-up k

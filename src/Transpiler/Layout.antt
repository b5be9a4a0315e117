-- ===== src/Transpiler/Layout.antt =====
-- compiler/transpiler_js.py and compiler/transpiler_solidity.py: indentation and scopes, whatever a scope
-- holds.
use baybayin_language.Base.{◌≡◌, refl, ap, ◌∙◌}
use baybayin_language.Base.Int.{ℤ}
use baybayin_language.Transpiler.Scopes.{up, Stack, pop, depth}

-- Indentation and scopes of a printer's state.
pub record Layout (T S : Type 0) : Type 0 where
  pub level : T → ℤ
  pub scopes : T → Stack S

module _ {T S : Type 0} (l : Layout T S) where
  -- The indentation, the number of scopes and all but the innermost scope are the same.
  pub record Keeps (t t' : T) : Type 0 where
    pub same_level : l.level t' ≡ l.level t
    pub same_outer : pop (l.scopes t') ≡ pop (l.scopes t)
    pub same_depth : depth (l.scopes t') ≡ depth (l.scopes t)

  -- One scope and one level more than in `t`.
  pub record Inside (t t' : T) : Type 0 where
    pub one_more : l.level t' ≡ up (l.level t)
    pub below : pop (l.scopes t') ≡ l.scopes t

module _ {T S : Type 0} {l : Layout T S} where
  pub Keeps-refl : (t : T) → Keeps l t t
  Keeps-refl t = record { same_level = refl; same_outer = refl; same_depth = refl }

  pub Keeps-trans : {a b c : T} → Keeps l a b → Keeps l b c → Keeps l a c
  Keeps-trans x y = record {
    same_level = y.same_level ∙ x.same_level;
    same_outer = y.same_outer ∙ x.same_outer;
    same_depth = y.same_depth ∙ x.same_depth;
  }

  -- What has the indentation and exactly the scopes of `t`.
  pub same-Keeps : (t t' : T) → l.level t' ≡ l.level t → l.scopes t' ≡ l.scopes t → Keeps l t t'
  same-Keeps t t' level scopes = record {
    same_level = level;
    same_outer = ap pop scopes;
    same_depth = ap depth scopes;
  }

  pub Inside-Keeps : {t a b : T} → Inside l t a → Keeps l a b → Inside l t b
  Inside-Keeps x y = record { one_more = y.same_level ∙ x.one_more; below = y.same_outer ∙ x.below }

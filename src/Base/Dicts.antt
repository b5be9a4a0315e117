-- ===== src/Base/Dicts.antt =====
-- A Python dict with text keys: an association list in insertion order, each key once.
use Prim.Native.String.{String}
use mathlib.Core.Path.{◌≡◌, refl}
use mathlib.Core.Bool.{Bool, false, ◌||◌}
use mathlib.Core.List.{List, [], ◌∷◌}
use mathlib.Core.Option.{Option, none, some}
use native.Mathlib.Omega.{arith}
use text.Mathlib.TextEquality.{eq_iff}
use text.Mathlib.TextPositions.{eq_refl}
use baybayin_language.Base.Tests.{str_eq, if◌then◌else◌}

abbrev pub Dict {ℓ} : Type ℓ → Type ℓ
Dict V = List (String × V)

-- `name in names` for a list of texts.
unfoldable pub mem_name : String → List String → Bool
mem_name k [] = false
mem_name k (j ∷ js) = str_eq j k || mem_name k js

module _ {ℓ} {V : Type ℓ} where
  -- `d.get(name)`; `name in d` is a `some`.
  unfoldable pub lookup : String → Dict V → Option V
  lookup name [] = none
  lookup name ((key, value) ∷ rest) = if str_eq key name then some value else lookup name rest

  -- `d[name] = new`: a key keeps its place.
  unfoldable pub insert : String → V → Dict V → Dict V
  insert name new [] = (name, new) ∷ []
  insert name new ((key, value) ∷ rest) =
      if str_eq key name then (key, new) ∷ rest else (key, value) ∷ insert name new rest

  unfoldable pub keys : Dict V → List String
  keys [] = []
  keys ((j, v) ∷ m) = j ∷ keys m

  pub lookup-nil : (k : String) → lookup k [] ≡ none
  unfolding lookup
  lookup-nil k = refl

  -- What an insertion changes for any name that is looked up.
  pub lookup-insert :
      (name other : String) (new : V) (d : Dict V)
      → lookup other (insert name new d) ≡ (if str_eq name other then some new else lookup other d)
  unfolding insert lookup
  lookup-insert name other new [] = refl
  lookup-insert name other new ((key, value) ∷ rest) =
      let later = lookup-insert name other new rest in
      ground (later, arith, eq_iff key other, eq_iff key name, eq_iff name other)

  pub lookup-insert_self :
      (name : String) (new : V) (d : Dict V) → lookup name (insert name new d) ≡ some new
  lookup-insert_self name new d = rw (lookup-insert, eq_refl)

-- The same keys, with the values under `f`.
module _ {ℓ κ} {V : Type ℓ} {W : Type κ} (f : V → W) where
  unfoldable pub map_dict : Dict V → Dict W
  map_dict [] = []
  map_dict ((j, v) ∷ m) = (j, f v) ∷ map_dict m

  pub lookup-map_dict :
      (k : String) (m : Dict V)
      → lookup k (map_dict m) ≡ elim (lookup k m) [ none ↦ none | some v ↦ some (f v) ]
  unfolding lookup map_dict
  lookup-map_dict k [] = refl
  lookup-map_dict k ((j, v) ∷ m) = ground (arith, lookup-map_dict k m)

  pub lookup-map_dict-some :
      (k : String) (m : Dict V) {v : V} → lookup k m ≡ some v → lookup k (map_dict m) ≡ some (f v)
  lookup-map_dict-some k m h = rw (lookup-map_dict, h)

  pub lookup-map_dict-none :
      (k : String) (m : Dict V) → lookup k m ≡ none → lookup k (map_dict m) ≡ none
  lookup-map_dict-none k m h = rw (lookup-map_dict, h)

  pub insert-map_dict :
      (k : String) (v : V) (m : Dict V) → map_dict (insert k v m) ≡ insert k (f v) (map_dict m)
  unfolding insert map_dict
  insert-map_dict k v [] = refl
  insert-map_dict k v ((j, w) ∷ m) = ground (arith, insert-map_dict k v m)

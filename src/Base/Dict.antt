-- ===== src/Base/Dict.antt =====
-- Python's `dict` with string keys: an association list in insertion order. Writing to a key that
-- is there keeps its place, as Python does; the program iterates over such dicts.
use Prim.Native.String.{String}
use mathlib.Core.Path.{◌≡◌, refl}
use mathlib.Core.Logic.{◌≢◌}
use mathlib.Core.Bool.{Bool, true, false}
use mathlib.Core.Option.{Option, none, some}
use mathlib.Core.List.{List, [], ◌∷◌}
use native.Mathlib.Omega.{arith}
use text.Mathlib.Text.{◌==◌}
use text.Mathlib.TextEquality.{eq_iff}

abbrev pub Dict {ℓ} : Type ℓ → Type ℓ
Dict V = List (String × V)

infix 1 if◌then◌else◌
abbrev if◌then◌else◌ {ℓ} : {A : Type ℓ} → Bool → A → A → A
if true then x else y = x
if false then x else y = y

module _ {ℓ} {V : Type ℓ} where
  -- `d.get(k)`
  unfoldable pub lookup : String → Dict V → Option V
  lookup k [] = none
  lookup k ((j, v) ∷ d) = if j == k then some v else lookup k d

  -- `d[k] = v`
  unfoldable pub insert : String → V → Dict V → Dict V
  insert k v [] = (k, v) ∷ []
  insert k v ((j, w) ∷ d) = if j == k then (j, v) ∷ d else (j, w) ∷ insert k v d

  -- `d.pop(k, None)`
  unfoldable pub remove : String → Dict V → Dict V
  remove k [] = []
  remove k ((j, w) ∷ d) = if j == k then d else (j, w) ∷ remove k d

  -- `d.update(e)`
  unfoldable pub update : Dict V → Dict V → Dict V
  update d [] = d
  update d ((k, v) ∷ e) = update (insert k v d) e

  -- `list(d.values())`
  unfoldable pub values : Dict V → List V
  values [] = []
  values ((k, v) ∷ d) = v ∷ values d

  -- No key is listed twice.
  abbrev pub HasUniqueKeys : Dict V → Type ℓ
  HasUniqueKeys [] = Unit
  HasUniqueKeys ((k, v) ∷ d) = (lookup k d ≡ none) × HasUniqueKeys d

  pub lookup-insert :
      (k j : String) (v : V) (d : Dict V)
      → lookup j (insert k v d) ≡ (if k == j then some v else lookup j d)
  unfolding lookup insert
  lookup-insert k j v [] = refl
  lookup-insert k j v ((i, w) ∷ d) =
      ground (arith, eq_iff k j, eq_iff i k, eq_iff i j, lookup-insert k j v d)

  pub lookup-insert_self : (k : String) (v : V) (d : Dict V) → lookup k (insert k v d) ≡ some v
  lookup-insert_self k v d = ground (arith, lookup-insert k k v d, eq_iff k k)

  pub lookup-insert_ne :
      (k j : String) (v : V) (d : Dict V) → k ≢ j → lookup j (insert k v d) ≡ lookup j d
  lookup-insert_ne k j v d h = ground (arith, lookup-insert k j v d, eq_iff k j)

  pub insert-HasUniqueKeys :
      (k : String) (v : V) (d : Dict V) → HasUniqueKeys d → HasUniqueKeys (insert k v d)
  unfolding lookup insert
  insert-HasUniqueKeys k v [] h = (refl, tt)
  insert-HasUniqueKeys k v ((j, w) ∷ d) h =
      ground (arith, insert-HasUniqueKeys k v d h.1, lookup-insert k j v d, eq_iff k j, eq_iff j k)

  pub lookup-remove_ne : (k j : String) (d : Dict V) → k ≢ j → lookup j (remove k d) ≡ lookup j d
  unfolding lookup remove
  lookup-remove_ne k j [] h = refl
  lookup-remove_ne k j ((i, w) ∷ d) h =
      ground (arith, eq_iff i k, eq_iff i j, eq_iff k j, lookup-remove_ne k j d h)

  pub lookup-remove_self :
      (k : String) (d : Dict V) → HasUniqueKeys d → lookup k (remove k d) ≡ none
  unfolding lookup remove
  lookup-remove_self k [] h = refl
  lookup-remove_self k ((i, w) ∷ d) h = ground (arith, eq_iff i k, lookup-remove_self k d h.1)

  pub remove-HasUniqueKeys :
      (k : String) (d : Dict V) → HasUniqueKeys d → HasUniqueKeys (remove k d)
  unfolding lookup remove
  remove-HasUniqueKeys k [] h = tt
  remove-HasUniqueKeys k ((j, w) ∷ d) h =
      ground (arith, remove-HasUniqueKeys k d h.1, lookup-remove_ne k j d, eq_iff k j, eq_iff j k)

-- ===== src/Prelude/Maps.antt =====
-- A JavaScript Map with text keys, in the order in which its keys were first set.
use Prim.Native.String.{String}
use mathlib.Core.Bool.{Bool, false, ◌||◌}
use mathlib.Core.List.{List, [], ◌∷◌}
use open_chords.Prelude.Tests.{◌===◌, if◌then◌else◌}

module _ {ℓ} {A : Type ℓ} where
  -- `map.set(key, value)` keeps the place of a key that is there.
  unfoldable pub map_set : String → A → List (String × A) → List (String × A)
  map_set key value [] = (key, value) ∷ []
  map_set key value ((k, v) ∷ entries) =
      if k === key then (k, value) ∷ entries else (k, v) ∷ map_set key value entries

  -- `map.has(key)`, also what `map.delete(key)` gives back
  unfoldable pub map_has : String → List (String × A) → Bool
  map_has key [] = false
  map_has key ((k, v) ∷ entries) = k === key || map_has key entries

  unfoldable pub map_delete : String → List (String × A) → List (String × A)
  map_delete key [] = []
  map_delete key ((k, v) ∷ entries) = if k === key then entries else (k, v) ∷ map_delete key entries

  -- `[...map.values()]`
  unfoldable pub map_values : List (String × A) → List A
  map_values [] = []
  map_values ((k, v) ∷ entries) = v ∷ map_values entries

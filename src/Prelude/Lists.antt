-- ===== src/Prelude/Lists.antt =====
-- Lists measured and searched by native numbers and Boolean tests.
use Prim.Native.Nat.{ℕ, zero, suc, ◌+◌}
use Prim.Native.String.{String}
use mathlib.Core.Path.{◌≡◌}
use mathlib.Core.Bool.{Bool, false, ◌||◌}
use mathlib.Core.Option
use mathlib.Core.Option.{Option, none, some}
use mathlib.Core.List.{List, [], ◌∷◌, ◌++◌}
use native.Mathlib.Omega.{arith}
use open_chords.Prelude.Tests.{◌===◌, if◌then◌else◌}

module _ {ℓ} {A : Type ℓ} where
  abbrev pub length : List A → ℕ
  length [] = 0
  length (x ∷ xs) = suc (length xs)

  abbrev pub get_elem? : List A → ℕ → Option A
  get_elem? [] i = none
  get_elem? (x ∷ xs) zero = some x
  get_elem? (x ∷ xs) (suc i) = get_elem? xs i

  abbrev pub take : ℕ → List A → List A
  take zero xs = []
  take (suc n) [] = []
  take (suc n) (x ∷ xs) = x ∷ take n xs

  abbrev pub drop : ℕ → List A → List A
  drop zero xs = xs
  drop (suc n) [] = []
  drop (suc n) (x ∷ xs) = drop n xs

  -- `items.some(test)`
  unfoldable pub some_of : (A → Bool) → List A → Bool
  some_of test [] = false
  some_of test (x ∷ xs) = test x || some_of test xs

  -- `items.find(test)`
  unfoldable pub find : (A → Bool) → List A → Option A
  find test [] = none
  find test (x ∷ xs) = if test x then some x else find test xs

  -- `items.filter(test)`
  unfoldable pub keep : (A → Bool) → List A → List A
  keep test [] = []
  keep test (x ∷ xs) = let rest = keep test xs in if test x then x ∷ rest else rest

  -- The element `i`, in place.
  unfoldable pub modify_at : ℕ → (A → A) → List A → List A
  modify_at i f [] = []
  modify_at zero f (x ∷ xs) = f x ∷ xs
  modify_at (suc i) f (x ∷ xs) = x ∷ modify_at i f xs

  -- The first item that passes, in place; `none` where none does.
  unfoldable pub modify_first : (A → Bool) → (A → A) → List A → Option (List A)
  modify_first test f [] = none
  modify_first test f (x ∷ xs) =
      let rest = Option.map (λ ys. x ∷ ys) (modify_first test f xs) in
      if test x then some (f x ∷ xs) else rest

  -- `items.splice(start, count, ...middle)`
  abbrev pub splice : ℕ → ℕ → List A → List A → List A
  splice start count middle items = take start items ++ (middle ++ drop (start + count) items)

  -- `items.at(-1)`
  unfoldable pub get_last? : List A → Option A
  get_last? [] = none
  get_last? (x ∷ []) = some x
  get_last? (x ∷ y ∷ ys) = get_last? (y ∷ ys)

  -- `new Map(entries).get(key)`: of two entries with one key the later counts.
  unfoldable pub map_get : String → List (String × A) → Option A
  map_get key [] = none
  map_get key ((k, v) ∷ entries) = elim (map_get key entries) [
    | some later ↦ some later
    | none ↦ if k === key then some v else none
  ]

  -- `get` of a Map that is kept with the entry that was set last in front
  unfoldable pub lookup : String → List (String × A) → Option A
  lookup key [] = none
  lookup key ((k, v) ∷ entries) = if k === key then some v else lookup key entries

  pub length-append : (xs ys : List A) → length (xs ++ ys) ≡ length xs + length ys
  length-append [] ys = omega arith
  length-append (x ∷ xs) ys = omega (arith, length-append xs ys)

  abbrev pub All {κ} : (A → Type κ) → List A → Type κ
  All P [] = Unit
  All P (x ∷ xs) = P x × All P xs

abbrev shift : Option ℕ → Option ℕ
shift none = none
shift (some i) = some (suc i)

-- `items.findIndex(test)`, with `none` for -1
unfoldable pub find_index {ℓ} : {A : Type ℓ} → (A → Bool) → List A → Option ℕ
find_index test [] = none
find_index test (x ∷ xs) = if test x then some 0 else shift (find_index test xs)

-- `texts.includes(text)`, and `has` of a Set that was built from `texts`
unfoldable pub includes : String → List String → Bool
includes t [] = false
includes t (x ∷ xs) = x === t || includes t xs

-- `new Set(texts).size`
unfoldable pub set_size : List String → ℕ
set_size [] = 0
set_size (x ∷ xs) = let rest = set_size xs in if includes x xs then rest else suc rest

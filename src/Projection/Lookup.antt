-- ===== src/Projection/Lookup.antt =====
-- Items found by their ids: `find`, a Map of the items, and what a filter leaves.
use open_chords.Prelude.{
  ℕ, zero, suc, ◌<◌, String, ◌≡◌, refl, Bool, true, none, some, List, [], ◌∷◌, map, arith, eq_iff,
  ◌===◌, Bool-cases, inl, inr, length, get_elem?, find, keep, map_get, includes,
}
use open_chords.Invariants.Checks.Ids.{Fresh, AllDistinct}

module _ {ℓ} {A : Type ℓ} (id : A → String) where
  abbrev pub keyed : List A → List (String × A)
  keyed items = map (λ x. (id x, x)) items

  abbrev pub named : String → A → Bool
  named key x = id x === key

  map_get-Fresh :
      (key : String) (xs : List A) → Fresh key (map id xs) → map_get key (keyed xs) ≡ none
  unfolding map_get
  map_get-Fresh key [] f = refl
  map_get-Fresh key (x ∷ xs) f = ground (arith, map_get-Fresh key xs, eq_iff (id x) key)

  -- Where no id occurs twice the first item of an id is the one that a Map holds.
  pub map_get-eq-find :
      (key : String) (xs : List A)
      → AllDistinct (map id xs)
      → map_get key (keyed xs) ≡ find (named key) xs
  unfolding map_get find
  map_get-eq-find key [] d = refl
  map_get-eq-find key (x ∷ xs) d =
      ground (arith, map_get-eq-find key xs, map_get-Fresh (id x) xs d.0, eq_iff (id x) key)

  pub map_get_of_get_elem? :
      (xs : List A) (i : ℕ) (x : A)
      → AllDistinct (map id xs)
      → get_elem? xs i ≡ some x
      → map_get (id x) (keyed xs) ≡ some x
  unfolding map_get
  map_get_of_get_elem? [] i x d h = cc
  map_get_of_get_elem? (y ∷ ys) zero x d h =
      ground (arith, map_get-Fresh (id y) ys d.0, eq_iff (id y) (id y))
  map_get_of_get_elem? (y ∷ ys) (suc i) x d h = rw (map_get_of_get_elem? ys i x d.1 h)

  pub find_id : (key : String) (xs : List A) (x : A) → find (named key) xs ≡ some x → id x ≡ key
  unfolding find
  find_id key [] x h = cc
  find_id key (y ∷ ys) x h = ground (arith, find_id key ys x, eq_iff (id y) key)

  pub find_of_includes :
      (key : String) (xs : List A)
      → includes key (map id xs) ≡ true
      → (x : A) × (find (named key) xs ≡ some x)
  unfolding find includes
  find_of_includes key [] h = cc
  find_of_includes key (y ∷ ys) h = elim (Bool-cases (id y === key)) [
    | inl same ↦ (y, rw same)
    | inr other ↦ let (x, found) = find_of_includes key ys (rw other at h) in (x, rw other found)
  ]

  -- A filter that the first item of an id passes does not change which item that is.
  pub find-keep :
      (test : A → Bool) (key : String) (xs : List A) (x : A)
      → find (named key) xs ≡ some x
      → test x ≡ true
      → find (named key) (keep test xs) ≡ some x
  unfolding find keep
  find-keep test key [] x h t = cc
  find-keep test key (y ∷ ys) x h t = ground (arith, find-keep test key ys x)

pub get_elem?_of_lt {ℓ} :
    {A : Type ℓ} (xs : List A) (i : ℕ) → i < length xs → (x : A) × (get_elem? xs i ≡ some x)
get_elem?_of_lt [] i h = absurd (omega arith)
get_elem?_of_lt (x ∷ xs) zero h = (x, refl)
get_elem?_of_lt (x ∷ xs) (suc i) h = get_elem?_of_lt xs i (omega arith)

-- ===== src/Invariants/Checks/Ids.antt =====
-- What `validateUniqueIds`, `validateOrdered` and `validateSortedUnique` accept.
use open_chords.Prelude.{
  ◌<◌, String, ◌≡◌, refl, ◌≢◌, ◌↔◌, true, false, List, [], ◌∷◌, arith, eq_iff, text_ltb, includes,
}
use open_chords.Invariants.Checks.{
  Interval, unique_from, validate_unique_ids, ordered_from, validate_ordered, sorted_from,
  validate_sorted_unique,
}

-- An id is not among others.
abbrev pub Fresh : String → List String → Type 0
Fresh id [] = Unit
Fresh id (x ∷ xs) = (x ≢ id) × Fresh id xs

abbrev pub AllDistinct : List String → Type 0
AllDistinct [] = Unit
AllDistinct (id ∷ ids) = Fresh id ids × AllDistinct ids

Fresh-of_includes : (id : String) (ids : List String) → includes id ids ≡ false → Fresh id ids
unfolding includes
Fresh-of_includes id [] h = tt
Fresh-of_includes id (x ∷ xs) h =
    (ground (arith, eq_iff x id), Fresh-of_includes id xs (ground arith))

includes_of_Fresh : (id : String) (ids : List String) → Fresh id ids → includes id ids ≡ false
unfolding includes
includes_of_Fresh id [] h = refl
includes_of_Fresh id (x ∷ xs) h = ground (arith, eq_iff x id, includes_of_Fresh id xs)

pub Fresh-iff : (id : String) (ids : List String) → (includes id ids ≡ false) ↔ Fresh id ids
Fresh-iff id ids = (Fresh-of_includes id ids, includes_of_Fresh id ids)

-- No id of a list was seen before.
abbrev Unseen : List String → List String → Type 0
Unseen seen [] = Unit
Unseen seen (id ∷ ids) = (includes id seen ≡ false) × Unseen seen ids

Unseen-nil : (ids : List String) → Unseen [] ids
unfolding includes
Unseen-nil [] = tt
Unseen-nil (id ∷ ids) = (refl, Unseen-nil ids)

Unseen-cons :
    (id : String) (seen ids : List String)
    → Unseen (id ∷ seen) ids ↔ (Fresh id ids × Unseen seen ids)
unfolding includes
Unseen-cons id seen [] = ground arith
Unseen-cons id seen (x ∷ xs) = ground (arith, eq_iff id x, Unseen-cons id seen xs)

unique_from_sound :
    (seen ids : List String) (label : String)
    → unique_from seen ids label ≡ []
    → Unseen seen ids × AllDistinct ids
unfolding unique_from
unique_from_sound seen [] label h = (tt, tt)
unique_from_sound seen (id ∷ ids) label h =
    ground (arith, unique_from_sound (id ∷ seen) ids label, Unseen-cons id seen ids)

unique_from_complete :
    (seen ids : List String) (label : String)
    → Unseen seen ids
    → AllDistinct ids
    → unique_from seen ids label ≡ []
unfolding unique_from
unique_from_complete seen [] label u d = refl
unique_from_complete seen (id ∷ ids) label u d =
    ground (arith, unique_from_complete (id ∷ seen) ids label, Unseen-cons id seen ids)

-- The check pushes no issue exactly when no id occurs twice.
pub validate_unique_ids_iff :
    (ids : List String) (label : String) → (validate_unique_ids ids label ≡ []) ↔ AllDistinct ids
unfolding validate_unique_ids
validate_unique_ids_iff ids label =
    (λ h. (unique_from_sound [] ids label h).1, unique_from_complete [] ids label (Unseen-nil ids))

-- Each interval starts before the next one.
abbrev pub Starting : Interval → List Interval → Type 0
Starting left [] = Unit
Starting left (right ∷ rest) = (left.start_sample < right.start_sample) × Starting right rest

abbrev pub IsOrdered : List Interval → Type 0
IsOrdered [] = Unit
IsOrdered (left ∷ rest) = Starting left rest

ordered_from_iff :
    (left : Interval) (rest : List Interval) (label : String)
    → (ordered_from left rest label ≡ []) ↔ Starting left rest
unfolding ordered_from
ordered_from_iff left [] label = ground arith
ordered_from_iff left (right ∷ rest) label = ground (arith, ordered_from_iff right rest label)

-- The check pushes no issue exactly when the starts of the intervals increase.
pub validate_ordered_iff :
    (track : List Interval) (label : String) → (validate_ordered track label ≡ []) ↔ IsOrdered track
unfolding validate_ordered
validate_ordered_iff [] label = ground arith
validate_ordered_iff (left ∷ rest) label = ordered_from_iff left rest label

-- Each text comes before the next one.
abbrev pub Rising : String → List String → Type 0
Rising left [] = Unit
Rising left (right ∷ rest) = (text_ltb left right ≡ true) × Rising right rest

abbrev pub IsSorted : List String → Type 0
IsSorted [] = Unit
IsSorted (left ∷ rest) = Rising left rest

sorted_from_iff :
    (left : String) (rest : List String) (label : String)
    → (sorted_from left rest label ≡ []) ↔ Rising left rest
unfolding sorted_from
sorted_from_iff left [] label = ground arith
sorted_from_iff left (right ∷ rest) label = ground (arith, sorted_from_iff right rest label)

pub validate_sorted_unique_iff :
    (values : List String) (label : String)
    → (validate_sorted_unique values label ≡ []) ↔ IsSorted values
unfolding validate_sorted_unique
validate_sorted_unique_iff [] label = ground arith
validate_sorted_unique_iff (left ∷ rest) label = sorted_from_iff left rest label

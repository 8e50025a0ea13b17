-- ===== src/Invariants/Checks.antt =====
-- packages/domain/src/invariants.ts: the checks that every track shares. A check gives the issues
-- that it pushes, in order.
pub mod Cover
pub mod Ids
use Prim.Native.Nat.{max}
use open_chords.Prelude.{
  ℕ, String, Bool, not, List, [], ◌∷◌, ◌++◌, ltb, leb, ◌==◌, ◌===◌, text_ltb, template, decimal,
  includes, if◌then◌else◌,
}

-- `if (test) issues.push(issue)`, before the issues that follow.
abbrev pub push_if : Bool → String → List String → List String
push_if test issue rest = if test then issue ∷ rest else rest

pub record Interval : Type 0 where
  pub end_sample : ℕ
  pub id : String
  pub start_sample : ℕ

-- The loop of `validateUniqueIds`, over the ids of the items.
pub unique_from : List String → List String → String → List String
unique_from seen [] label = []
unique_from seen (id ∷ ids) label =
    push_if (includes id seen) (template (label ∷ " contains duplicate id " ∷ id ∷ []))
      (unique_from (id ∷ seen) ids label)

unfoldable pub validate_unique_ids : List String → String → List String
unfolding unique_from
validate_unique_ids ids label = unique_from [] ids label

-- The loop of `validateCover`.
pub cover_from : ℕ → List Interval → ℕ → String → List String
cover_from cursor [] duration label =
    push_if (not (cursor == duration))
      (template (label ∷ " must end at Project duration " ∷ decimal duration ∷ [])) []
cover_from cursor (item ∷ items) duration label =
    push_if (leb item.end_sample item.start_sample)
      (template (label ∷ " " ∷ item.id ∷ " must be half-open with start < end" ∷ []))
      (push_if (ltb item.start_sample cursor)
        (template (label ∷ " " ∷ item.id ∷ " overlaps the preceding interval" ∷ []))
        (push_if (ltb cursor item.start_sample)
          (template (label ∷ " has a gap before " ∷ item.id ∷ []))
          (cover_from (max cursor item.end_sample) items duration label)))

unfoldable pub validate_cover : List Interval → ℕ → String → List String
unfolding cover_from
validate_cover [] duration label = template (label ∷ " must cover the Project Range" ∷ []) ∷ []
validate_cover (item ∷ items) duration label = cover_from 0 (item ∷ items) duration label

-- The loop of `validateOrdered`, by the items before and at the index.
pub ordered_from : Interval → List Interval → String → List String
ordered_from left [] label = []
ordered_from left (right ∷ rest) label =
    push_if (leb right.start_sample left.start_sample)
      (template (label ∷ " is not in stable Project Time order" ∷ []))
      (ordered_from right rest label)

unfoldable pub validate_ordered : List Interval → String → List String
unfolding ordered_from
validate_ordered [] label = []
validate_ordered (left ∷ rest) label = ordered_from left rest label

-- The loop of `validateSortedUnique`.
pub sorted_from : String → List String → String → List String
sorted_from left [] label = []
sorted_from left (right ∷ rest) label =
    push_if (not (text_ltb left right)) (template (label ∷ " must be sorted and unique" ∷ []))
      (sorted_from right rest label)

unfoldable pub validate_sorted_unique : List String → String → List String
unfolding sorted_from
validate_sorted_unique [] label = []
validate_sorted_unique (left ∷ rest) label = sorted_from left rest label

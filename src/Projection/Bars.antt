-- ===== src/Projection/Bars.antt =====
-- packages/domain/src/projection.ts: the edits of beats and bars of `applyOperation`. The source changes the
-- bars in place; here a function gives the changed ones back, or the error that is thrown.
pub mod Samples
use mathlib.Core.Option.{map as map_option}
use open_chords.Prelude.{
  ℕ, zero, suc, ◌+◌, String, Bool, false, not, Option, none, some, List, [], ◌∷◌, ◌++◌, map, ltb,
  ◌==◌, ◌===◌, template, length, get_elem?, some_of, keep, find_index, modify_at, modify_first,
  Result, ok, err, error, throw_if, ◌>>=◌, ◌>>◌, if◌then◌else◌,
}
use open_chords.Schema.{Beat, BeatRole, Bar, Meter, SplitBar, MergeBars}
use open_chords.Projection.Find.{or_throw, adjacent}

-- The first Beat of that id in the order of the bars is moved.
unfoldable pub move_first_beat : List Bar → ℕ → String → Option (List Bar)
move_first_beat [] at_sample id = none
move_first_beat (bar ∷ bars) at_sample id =
    let later = map_option (λ rest. bar ∷ rest) (move_first_beat bars at_sample id) in
    elim (modify_first (λ b. b.id === id) (λ b. record b { at_sample = at_sample }) bar.beats) [
      | some beats ↦ some (record bar { beats = beats } ∷ bars)
      | none ↦ later
    ]

abbrev pub move_downbeat : ℕ → List Beat → List Beat
move_downbeat at_sample [] = []
move_downbeat at_sample (b ∷ rest) = record b { at_sample = at_sample } ∷ rest

abbrev has_downbeat : Option Bar → Bool
has_downbeat none = false
has_downbeat (some bar) = not (length bar.beats == 0)

unfoldable pub move_bars_boundary : List Bar → ℕ → String → String → Result (List Bar)
move_bars_boundary bars at_sample left_id right_id = do
  left ←
      adjacent (find_index (λ b. b.id === left_id) bars) (find_index (λ b. b.id === right_id) bars)
        "Bar boundary edit must name adjacent Bars"
  throw_if (not (has_downbeat (get_elem? bars (left + 1)))) "Right Bar has no downbeat"
  ok (
      modify_at (left + 1)
        (λ b. record b { start_sample = at_sample; beats = move_downbeat at_sample b.beats })
        (modify_at left (λ b. record b { end_sample = at_sample }) bars))

abbrev pub as_beat : Beat → Beat
as_beat b = record b { role = BeatRole.beat }

abbrev pub as_beats : List Beat → List Beat
as_beats beats = map as_beat beats

unfoldable pub left_half : SplitBar → Bar → Bar
left_half split bar = record bar {
  beats = keep (λ b. ltb b.at_sample split.at_sample) bar.beats;
  end_sample = split.at_sample;
  status = split.left_status;
}

unfoldable pub right_half : SplitBar → Bar → Bar
right_half split bar = record {
  beats =
      record { at_sample = split.at_sample; id = split.new_downbeat_id; role = BeatRole.downbeat }
      ∷ as_beats (keep (λ b. ltb split.at_sample b.at_sample) bar.beats);
  end_sample = bar.end_sample;
  id = split.new_bar_id;
  meter = split.right_meter;
  start_sample = split.at_sample;
  status = split.right_status;
}

-- `bars.find`, and the same bar by its index: the two new halves stand in its place.
unfoldable pub split_first : List Bar → SplitBar → Result (List Bar)
unfolding left_half right_half
split_first [] split = err (error (template ("Edit references unknown Bar " ∷ split.bar_id ∷ [])))
split_first (bar ∷ bars) split =
    let later = split_first bars split >>= λ rest. ok (bar ∷ rest) in
    if bar.id === split.bar_id
    then (if some_of (λ b. b.at_sample == split.at_sample) bar.beats
        then err (error (template ("Split point collides with an existing Beat in " ∷ bar.id ∷ [])))
        else ok (left_half split bar ∷ right_half split bar ∷ bars))
    else later

unfoldable pub merged : MergeBars → Bar → Bar → Bar
merged merge left right = record left {
  end_sample = right.end_sample;
  beats = left.beats ++ as_beats right.beats;
  meter = merge.meter;
  status = merge.status;
}

-- The bar at the index takes in the one behind it, which goes.
unfoldable pub merge_at : ℕ → MergeBars → List Bar → List Bar
unfolding merged
merge_at i merge [] = []
merge_at i merge (left ∷ []) = left ∷ []
merge_at zero merge (left ∷ right ∷ bars) = merged merge left right ∷ bars
merge_at (suc i) merge (left ∷ right ∷ bars) = left ∷ merge_at i merge (right ∷ bars)

unfoldable pub merge_neighbours : List Bar → MergeBars → Result (List Bar)
unfolding merge_at
merge_neighbours bars merge = do
  left ←
      adjacent (find_index (λ b. b.id === merge.left_bar_id) bars)
        (find_index (λ b. b.id === merge.right_bar_id) bars) "Merge edit must name adjacent Bars"
  ok (merge_at left merge bars)

unfoldable pub set_meter : List Bar → String → Meter → Result (List Bar)
set_meter bars id meter =
    or_throw (modify_first (λ b. b.id === id) (λ b. record b { meter = meter }) bars)
      (template ("Edit references unknown Bar " ∷ id ∷ []))

unfoldable pub move_beat : List Bar → ℕ → String → Result (List Bar)
unfolding move_first_beat
move_beat bars at_sample id =
    or_throw (move_first_beat bars at_sample id)
      (template ("Edit references unknown Beat " ∷ id ∷ []))

-- ===== src/Draft/Grid.antt =====
-- apps/desktop/src/renderer/editor-draft.ts: the grid that the boundaries of a draft must lie on.
use open_chords.Prelude.{
  ℕ, ◌+◌, ◌-◌, ◌*◌, ◌/◌, Bool, not, ◌||◌, List, [], ◌∷◌, ◌++◌, map, some_of, ◌==◌,
}
use open_chords.Schema.{Bar, ChordEvent, SequenceEvent}
use open_chords.Draft.{Editor}

-- The beats of a bar, and its end.
abbrev pub boundaries : Bar → List ℕ
boundaries bar = map (λ beat. beat.at_sample) bar.beats ++ (bar.end_sample ∷ [])

-- `Math.round(left + ((right - left) * subdivision) / 4)`, for a subdivision up to 4
abbrev pub subdivided : ℕ → ℕ → ℕ → ℕ
subdivided left right subdivision = (left * (4 - subdivision) + right * subdivision + 2) / 4

unfoldable pub subdivisions : List ℕ → List ℕ
subdivisions [] = []
subdivisions (left ∷ []) = []
subdivisions (left ∷ right ∷ rest) =
    map (subdivided left right) (0 ∷ 1 ∷ 2 ∷ 3 ∷ 4 ∷ []) ++ subdivisions (right ∷ rest)

unfoldable pub chord_grid : List ChordEvent → List ℕ
chord_grid [] = []
chord_grid (event ∷ events) = event.start_sample ∷ event.end_sample ∷ chord_grid events

unfoldable pub bar_grid : List Bar → List ℕ
bar_grid [] = []
bar_grid (bar ∷ bars) = subdivisions (boundaries bar) ++ bar_grid bars

abbrev pub grid_of : Editor → List ℕ
grid_of editor =
    chord_grid editor.effective.timeline.chord_events ++ bar_grid editor.effective.timeline.bars

-- A boundary that is not on the grid.
abbrev pub off_grid : List ℕ → SequenceEvent → Bool
off_grid grid event =
    not (some_of (λ sample. sample == event.start_sample) grid)
    || not (some_of (λ sample. sample == event.end_sample) grid)

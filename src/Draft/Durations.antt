-- ===== src/Draft/Durations.antt =====
-- apps/desktop/src/renderer/editor-draft.ts: what the editor shows of an event. A number of samples that
-- is NaN is `none`.
use Prim.Native.Nat.{max}
use open_chords.Prelude.{
  ℕ, ◌+◌, ◌-◌, ◌*◌, ◌/◌, String, Bool, true, false, ◌&&◌, Option, none, some, List, [], ◌∷◌, ◌++◌,
  map, get_elem?, find, find_index, ltb, leb, ◌===◌,
}
use open_chords.Schema.{AssertionState, Bar, ChordEvent, SequenceEvent}
use open_chords.Draft.{Editor, DraftState}
use open_chords.Draft.Grid.{boundaries}

-- A text for a number of quarters of a beat, and that number.
abbrev pub quarters : List (String × ℕ)
quarters =
    ("0.25 beats", 1)
    ∷ ("0.5 beats", 2)
    ∷ ("1 beat", 4)
    ∷ ("2 beats", 8)
    ∷ ("3 beats", 12)
    ∷ ("4 beats", 16)
    ∷ []

-- `Math.max(0, boundaries.findIndex((sample) => sample > start) - 1)`
abbrev pub beat_index : List ℕ → ℕ → ℕ
beat_index samples start = elim (find_index (λ sample. ltb start sample) samples) [
  | none ↦ 0
  | some index ↦ index - 1
]

abbrev pub gap : Option ℕ → Option ℕ → Option ℕ
gap (some left) (some right) = some (right - left)
gap _ _ = none

abbrev pub beat_duration : List ℕ → ℕ → Option ℕ
beat_duration samples index = gap (get_elem? samples index) (get_elem? samples (index + 1))

-- `Math.max(1, Math.round(beatDuration * beats))`
abbrev pub samples_of : Option ℕ → ℕ → Option ℕ
samples_of none quarter = none
samples_of (some duration) quarter = some (max 1 ((duration * quarter + 2) / 4))

abbrev pub options_in : SequenceEvent → Option Bar → List (String × Option ℕ)
options_in event none = []
options_in event (some bar) =
    let duration =
      beat_duration (boundaries bar) (beat_index (boundaries bar) event.start_sample) in
    map (λ (q : String × ℕ). (q.0, samples_of duration q.1)) quarters
    ++ (("Whole bar", some (bar.end_sample - bar.start_sample)) ∷ [])

abbrev pub options_of : List Bar → Option SequenceEvent → List (String × Option ℕ)
options_of bars none = []
options_of bars (some event) = options_in event (
    find (λ bar. leb bar.start_sample event.start_sample && ltb event.start_sample bar.end_sample)
      bars)

unfoldable pub duration_options : Editor → DraftState → String → List (String × Option ℕ)
duration_options editor s id =
    options_of editor.effective.timeline.bars (find (λ e. e.id === id) s.events)

abbrev pub state_of : Option ChordEvent → Option AssertionState
state_of none = none
state_of (some event) = some event.assertion.state

abbrev pub abstained_state : Option AssertionState → Bool
abstained_state (some AssertionState.abstained) = true
abstained_state _ = false

abbrev pub low_state : Option AssertionState → Bool
low_state (some AssertionState.low_confidence) = true
low_state _ = false

abbrev pub effective_state : Editor → String → Option AssertionState
effective_state editor id =
    state_of (find (λ e. e.id === id) editor.effective.timeline.chord_events)

abbrev pub is_abstained : Editor → String → Bool
is_abstained editor id = abstained_state (effective_state editor id)

abbrev pub needs_review : Editor → String → Bool
needs_review editor id = low_state (effective_state editor id)

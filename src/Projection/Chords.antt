-- ===== src/Projection/Chords.antt =====
-- packages/domain/src/projection.ts: the chord edits of `applyOperation`. The source changes the
-- chord events in place; here a function gives the changed ones back, or the error that is thrown.
pub mod Boundary
use mathlib.Core.Option.{map as map_option}
use open_chords.Prelude.{
  ℕ, ◌+◌, String, Bool, true, false, not, ◌||◌, Option, none, some, List, [], ◌∷◌, map, ◌==◌, ◌===◌,
  template, length, get_elem?, take, drop, some_of, find_index, modify_at, modify_first, splice,
  get_last?, map_get, set_size, includes, Result, ok, throw_if, ◌>>=◌, ◌>>◌, if◌then◌else◌,
}
use open_chords.Schema.{Assertion, AssertionState, ChordEvent, ChordValue, SequenceEvent}
use open_chords.Projection.Values.{differs}
use open_chords.Projection.Find.{or_throw, adjacent}

-- `{ evidence: [], reasonCodes: ["user_authored"], state: "asserted" }`
abbrev pub user_authored : Assertion
user_authored = record {
  evidence = [];
  reason_codes = "user_authored" ∷ [];
  state = AssertionState.asserted;
}

abbrev pub same_frame : Option ℕ → Option ℕ → Bool
same_frame none none = true
same_frame (some a) (some b) = a == b
same_frame _ _ = false

-- `previous.some((event, offset) => event.id !== ids[offset])`
unfoldable pub misplaced : List ChordEvent → List String → Bool
misplaced [] ids = false
misplaced (event ∷ rest) [] = true
misplaced (event ∷ rest) (id ∷ ids) = not (event.id === id) || misplaced rest ids

-- The event of a sequence, with the assertion of its original where nothing is changed.
unfoldable pub replaced : ChordEvent → SequenceEvent → ChordEvent
replaced original event = record {
  end_sample = event.end_sample;
  start_sample = event.start_sample;
  id = event.id;
  value = event.value;
  assertion =
      if not (original.start_sample == event.start_sample)
        || (not (original.end_sample == event.end_sample) || differs original.value event.value)
      then user_authored
      else original.assertion;
}

unfoldable pub replace_all :
    List (String × ChordEvent) → List SequenceEvent → Result (List ChordEvent)
unfolding replaced
replace_all originals [] = ok []
replace_all originals (event ∷ rest) = do
  original ← or_throw (map_get event.id originals) "Cannot read properties of undefined"
  others ← replace_all originals rest
  ok (replaced original event ∷ others)

abbrev pub sequence_ids : List SequenceEvent → List String
sequence_ids events = map (λ e. e.id) events

abbrev pub get_first? {ℓ} : {A : Type ℓ} → List A → Option A
get_first? items = get_elem? items 0

unfoldable pub replace_sequence :
    List ChordEvent → List String → List SequenceEvent → Result (List ChordEvent)
replace_sequence chord_events targets events = do
  first ← or_throw (get_first? targets) "Chord sequence must name one contiguous saved span"
  index ←
      or_throw (find_index (λ e. e.id === first) chord_events)
        "Chord sequence must name one contiguous saved span"
  let previous = take (length targets) (drop index chord_events)
  throw_if (not (length previous == length targets) || misplaced previous targets)
      "Chord sequence must name one contiguous saved span"
  throw_if
      (not (set_size (sequence_ids events) == length previous)
        || (not (length events == length previous)
            || some_of (λ e. not (includes e.id targets)) events))
      "Chord sequence must preserve stable identities"
  throw_if
      (not (
          same_frame (map_option (λ e. e.start_sample) (get_first? events))
            (map_option (λ e. e.start_sample) (get_first? previous)))
        || not (
            same_frame (map_option (λ e. e.end_sample) (get_last? events))
              (map_option (λ e. e.end_sample) (get_last? previous))))
      "Chord sequence must preserve its outer boundaries"
  replacements ← replace_all (map (λ e. (e.id, e)) previous) events
  ok (splice index (length previous) replacements chord_events)

unfoldable pub replace_value : List ChordEvent → String → ChordValue → Result (List ChordEvent)
replace_value chord_events id value =
    or_throw
      (modify_first (λ e. e.id === id) (λ e. record e { value = value; assertion = user_authored })
        chord_events)
      (template ("Edit references unknown Chord Event " ∷ id ∷ []))

unfoldable pub move_boundary : List ChordEvent → ℕ → String → String → Result (List ChordEvent)
move_boundary chord_events at_sample left_id right_id = do
  left ←
      adjacent (find_index (λ e. e.id === left_id) chord_events)
        (find_index (λ e. e.id === right_id) chord_events)
        "Boundary edit must name adjacent Chord Events"
  ok (
      modify_at (left + 1) (λ e. record e { start_sample = at_sample })
        (modify_at left (λ e. record e { end_sample = at_sample }) chord_events))

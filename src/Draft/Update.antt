-- ===== src/Draft/Update.antt =====
-- apps/desktop/src/renderer/editor-draft.ts: `update` and the methods that call it. The suffix of the
-- id under which a draft is checked has fuel for one more than there are transactions.
pub mod Suffix
pub mod Tiles
pub mod Saved
pub mod Arranged
use open_chords.Draft.Grid.{
  boundaries, subdivided, subdivisions, chord_grid, bar_grid, grid_of, off_grid,
}
use open_chords.Prelude.{
  ℕ, zero, suc, ◌+◌, ◌-◌, ◌*◌, ◌/◌, ◌≡◌, String, Bool, true, false, not, ◌&&◌, ◌||◌, Option, none,
  some, List, [], ◌∷◌, ◌++◌, map, length, get_elem?, keep, find, find_index, includes, set_size,
  splice, some_of, modify_first, ltb, ◌==◌, ◌===◌, template, decimal, Result, Error, endless, err,
  ok, error, ◌>>=◌, ◌>>◌, throw_if, if◌then◌else◌,
}
use open_chords.Schema.{
  AssertionState, Bar, Beat, ChordEvent, ChordValue, SequenceEvent, EditOperation, EditTransaction,
  EditLayer, ActiveView, ProjectContract,
}
use open_chords.Projection.Find.{or_throw}
use open_chords.Projection.Values.{differs}
use open_chords.Parsing.{parse_project_contract}
use open_chords.Draft.{
  DraftInput, draft_key, same_key, Editor, DraftState, operations_for, initial_state,
  create_editor_draft,
}

abbrev pub draft_id : ℕ → String
draft_id suffix = template ("transaction_draft_validation_" ∷ decimal suffix ∷ [])

-- The ids of the transactions of all layers.
unfoldable pub transaction_ids : List EditLayer → List String
transaction_ids [] = []
transaction_ids (layer ∷ layers) = map (λ t. t.id) layer.transactions ++ transaction_ids layers

unfoldable pub free_suffix : ℕ → List String → ℕ → Option ℕ
free_suffix zero ids suffix = none
free_suffix (suc fuel) ids suffix =
    let next = free_suffix fuel ids (suc suffix) in
    if includes (draft_id suffix) ids then next else some suffix

-- The transaction, at the end of the first layer of the id.
unfoldable pub with_transaction : String → EditTransaction → List EditLayer → List EditLayer
with_transaction id t [] = []
with_transaction id t (layer ∷ layers) =
    if layer.id === id
    then record layer { transactions = layer.transactions ++ (t ∷ []) } ∷ layers
    else layer ∷ with_transaction id t layers

-- The project with the transaction in the layer of its view, and the view behind it.
abbrev pub candidate : Editor → EditLayer → EditTransaction → ProjectContract
candidate editor layer t = record editor.project {
  edit_layers = with_transaction editor.active.edit_layer_id t editor.project.edit_layers;
  active_view =
      some (record editor.active { edit_history_position = suc (length layer.transactions) });
}

abbrev pub off_beat : String
off_beat = "New boundaries must snap to a quarter-beat subdivision."

abbrev pub unfilled : String
unfilled = "Durations must be positive and fill the saved span without gaps or overlap."

-- The ids were looked for, and the loop has ended or not; the checks of the candidate are in the
-- same `try`.
abbrev pub caught_errors : List String → Result (Unit {0}) → Result (List String)
caught_errors errors (ok done) = ok errors
caught_errors errors (err endless) = err endless
caught_errors errors (err thrown) = ok (errors ++ (unfilled ∷ []))

-- Whether two lists of events have one canonical JSON text.
unfoldable pub same_events : List SequenceEvent → List SequenceEvent → Bool
same_events [] [] = true
same_events [] (y ∷ ys) = false
same_events (x ∷ xs) [] = false
same_events (x ∷ xs) (y ∷ ys) =
    x.id === y.id
    && (x.start_sample == y.start_sample
        && (x.end_sample == y.end_sample && (not (differs x.value y.value) && same_events xs ys)))

abbrev pub is_dirty : Editor → List SequenceEvent → List String → Bool
is_dirty editor events reviewed = ltb 0 (length reviewed) || not (same_events events editor.base)

abbrev pub grid_errors : Editor → List SequenceEvent → List String
grid_errors editor events = if some_of (off_grid (grid_of editor)) events then off_beat ∷ [] else []

abbrev pub draft_transaction : Editor → List SequenceEvent → List String → String → EditTransaction
draft_transaction editor events reviewed id = record {
  id = id;
  parent_transaction_id = editor.parent_transaction_id;
  operations = operations_for editor.base events reviewed;
}

abbrev pub active_layer : Editor → Option EditLayer
active_layer editor = find (λ l. l.id === editor.active.edit_layer_id) editor.project.edit_layers

abbrev pub suffix_of : Editor → EditLayer → Option ℕ
suffix_of editor layer =
    free_suffix (suc (length (transaction_ids editor.project.edit_layers)))
      (transaction_ids editor.project.edit_layers) (length layer.transactions)

-- The start of the base, which is not empty.
abbrev pub base_start : List SequenceEvent → ℕ
base_start [] = 0
base_start (event ∷ base) = event.start_sample

-- The events one after another, each with its duration.
unfoldable pub reflow : ℕ → List SequenceEvent → List SequenceEvent
reflow start [] = []
reflow start (event ∷ events) =
    record event {
      start_sample = start;
      end_sample = start + event.end_sample - event.start_sample;
    }
    ∷ reflow (start + event.end_sample - event.start_sample) events

abbrev pub resize : String → ℕ → SequenceEvent → SequenceEvent
resize id duration event =
    if event.id === id then record event { end_sample = event.start_sample + duration } else event

abbrev pub revalue : String → ChordValue → SequenceEvent → SequenceEvent
revalue id value event = if event.id === id then record event { value = value } else event

pub data Side : Type 0 where
  before after : Side

-- Where a moved event is put among those that remain.
abbrev pub place : Side → ℕ → Option ℕ → ℕ
place before count none = count - 1
place after count none = 0
place before count (some index) = index
place after count (some index) = index + 1

abbrev pub moved_events :
    List SequenceEvent → SequenceEvent → String → String → Side → List SequenceEvent
moved_events events source id target side =
    let remaining = keep (λ e. not (e.id === id)) events in
    splice (place side (length remaining) (find_index (λ e. e.id === target) remaining)) 0
      (source ∷ []) remaining

abbrev pub with_id : List String → String → List String
with_id ids id = if includes id ids then ids else ids ++ (id ∷ [])

abbrev pub is_asserted : AssertionState → Bool
is_asserted AssertionState.asserted = true
is_asserted _ = false

-- The event is in the effective timeline, and asserted.
abbrev pub already_asserted : Option ChordEvent → Bool
already_asserted none = false
already_asserted (some event) = is_asserted event.assertion.state

-- `accepts` tells whether the schema of zod accepts a project.
module _ (collate : String → String → Bool) (accepts : ProjectContract → Bool)
    (editor : Editor) where
  abbrev pub check_candidate :
      List SequenceEvent → List String → EditLayer → Option ℕ → Result (Unit {0})
  check_candidate events reviewed layer none = err endless
  check_candidate events reviewed layer (some suffix) = do
    let next = candidate editor layer (draft_transaction editor events reviewed (draft_id suffix))
    throw_if (not (accepts next)) "ZodError"
    parse_project_contract collate next

  unfoldable pub check_draft : List SequenceEvent → List String → Result (Unit {0})
  check_draft events reviewed = do
    layer ← or_throw (active_layer editor) "Cannot read properties of undefined"
    check_candidate events reviewed layer (suffix_of editor layer)

  unfoldable pub draft_errors : Bool → List SequenceEvent → List String → Result (List String)
  draft_errors false events reviewed = ok (grid_errors editor events)
  draft_errors true events reviewed =
      caught_errors (grid_errors editor events) (check_draft events reviewed)

  unfoldable pub update : DraftState → List SequenceEvent → List String → Result DraftState
  update s events reviewed =
      draft_errors (is_dirty editor events reviewed) events reviewed >>= λ errors. ok (record s {
        events = events;
        dirty = is_dirty editor events reviewed;
        errors = errors;
        reviewed_ids = reviewed;
      })

  unfoldable pub mark_reviewed : DraftState → String → Result DraftState
  unfolding update
  mark_reviewed s id =
      if some_of (λ e. e.id === id) s.events
      then update s s.events (with_id s.reviewed_ids id)
      else err (error "Review target is unavailable")

  unfoldable pub set_chord : DraftState → String → ChordValue → Result DraftState
  unfolding update
  set_chord s id value = update s (map (revalue id value) s.events) (
      if already_asserted (find (λ e. e.id === id) editor.effective.timeline.chord_events)
      then s.reviewed_ids
      else with_id s.reviewed_ids id)

  unfoldable pub set_duration : DraftState → String → ℕ → Result DraftState
  unfolding update
  set_duration s id duration =
      update s (reflow (base_start editor.base) (map (resize id duration) s.events)) s.reviewed_ids

  abbrev pub move_source :
      DraftState → String → String → Side → Option SequenceEvent → Result DraftState
  move_source s id target side none = err (error "Reorder target is unavailable")
  move_source s id target side (some source) =
      if some_of (λ e. e.id === target) s.events
      then update s (reflow (base_start editor.base) (moved_events s.events source id target side))
          s.reviewed_ids
      else err (error "Reorder target is unavailable")

  unfoldable pub move : DraftState → String → String → Side → Result DraftState
  unfolding update
  move s id target side =
      if id === target
      then ok s
      else move_source s id target side (find (λ e. e.id === id) s.events)

abbrev pub reset : Editor → DraftState → DraftState
reset editor s = record s { events = editor.base; dirty = false; errors = []; reviewed_ids = [] }

unfoldable pub reconcile : Editor → DraftState → DraftInput → DraftState
reconcile editor s next =
    if same_key (draft_key next) editor.key then s else record s { stale = true }

unfoldable pub transaction : Editor → DraftState → String → Result EditTransaction
transaction editor s id =
    if s.stale || (not s.dirty || ltb 0 (length s.errors))
    then err (error "Draft is not ready to save")
    else ok (draft_transaction editor s.events s.reviewed_ids id)

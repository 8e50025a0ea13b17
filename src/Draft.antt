-- ===== src/Draft.antt =====
-- apps/desktop/src/renderer/editor-draft.ts: the draft of an edit of chords. A frozen part of the
-- closure of `createEditorDraft` is an Editor, the store a DraftState.
pub mod Durations
pub mod Grid
pub mod Update
use open_chords.Prelude.{
  ℕ, zero, suc, ◌+◌, ◌-◌, ◌*◌, ◌/◌, ◌≡◌, String, Bool, true, false, not, ◌&&◌, ◌||◌, Option, none,
  some, List, [], ◌∷◌, ◌++◌, map, length, get_elem?, keep, find, includes, set_size, some_of, ◌==◌,
  ◌===◌, Result, err, ok, error, ◌>>=◌, ◌>>◌, throw_if, if◌then◌else◌,
}
use open_chords.Schema.{
  Bar, ChordEvent, ChordValue, MusicalTimeline, SequenceEvent, EditOperation, EditTransaction,
  EditLayer, ActiveView, ProjectContract,
}
use open_chords.Invariants.Project.{same_optional}
use open_chords.Projection.Find.{or_throw}
use open_chords.Projection.Values.{differs}
use open_chords.Projection.Materialize.{EffectiveTimeline, materialize_effective_timeline}

pub record DraftInput : Type 0 where
  pub project : ProjectContract
  pub project_revision_id : String
  pub target_ids : List String

pub record DraftKey : Type 0 where
  pub project_id : String
  pub project_revision_id : String
  pub analysis_revision_id : Option String
  pub target_ids : List String

abbrev pub revision_of : Option ActiveView → Option String
revision_of none = none
revision_of (some view) = some view.analysis_revision_id

abbrev pub draft_key : DraftInput → DraftKey
draft_key input = record {
  project_id = input.project.id;
  project_revision_id = input.project_revision_id;
  analysis_revision_id = revision_of input.project.active_view;
  target_ids = input.target_ids;
}

unfoldable pub same_texts : List String → List String → Bool
same_texts [] [] = true
same_texts [] (y ∷ ys) = false
same_texts (x ∷ xs) [] = false
same_texts (x ∷ xs) (y ∷ ys) = x === y && same_texts xs ys

unfoldable pub same_key : DraftKey → DraftKey → Bool
unfolding same_texts
same_key a b =
    a.project_id === b.project_id
    && (a.project_revision_id === b.project_revision_id
        && (same_optional a.analysis_revision_id b.analysis_revision_id
            && same_texts a.target_ids b.target_ids))

pub record Editor : Type 0 where
  pub project : ProjectContract
  pub active : ActiveView
  pub effective : EffectiveTimeline
  pub base : List SequenceEvent
  pub parent_transaction_id : Option String
  pub key : DraftKey

pub record DraftState : Type 0 where
  pub dirty : Bool
  pub events : List SequenceEvent
  pub errors : List String
  pub stale : Bool
  pub reviewed_ids : List String

abbrev pub event_of : ChordEvent → SequenceEvent
event_of event = record {
  id = event.id;
  start_sample = event.start_sample;
  end_sample = event.end_sample;
  value = event.value;
}

-- `transactions[position - 1]?.id ?? null`
abbrev pub transaction_before : List EditTransaction → ℕ → Option String
transaction_before transactions zero = none
transaction_before transactions (suc position) = elim (get_elem? transactions position) [
  | none ↦ none
  | some t ↦ some t.id
]

abbrev pub base_of : MusicalTimeline → List String → List SequenceEvent
base_of timeline ids = map event_of (keep (λ event. includes event.id ids) timeline.chord_events)

abbrev pub missing : List SequenceEvent → List String → Bool
missing base ids = length base == 0 || not (length base == set_size ids)

module _ (collate : String → String → Bool) where
  abbrev pub create_active : DraftInput → Option ActiveView → Result Editor
  create_active input none = err (error "An Analysis Revision is required to edit")
  create_active input (some active) = do
    effective ← materialize_effective_timeline collate input.project
    throw_if (missing (base_of effective.timeline input.target_ids) input.target_ids)
        "Editor target is unavailable"
    layer ←
        or_throw (find (λ l. l.id === active.edit_layer_id) input.project.edit_layers)
          "Cannot read properties of undefined"
    ok (record {
      project = input.project;
      active = active;
      effective = effective;
      base = base_of effective.timeline input.target_ids;
      parent_transaction_id = transaction_before layer.transactions active.edit_history_position;
      key = draft_key input;
    })

  unfoldable pub create_editor_draft : DraftInput → Result Editor
  create_editor_draft input = create_active input input.project.active_view

-- The store of a new draft.
abbrev pub initial_state : Editor → DraftState
initial_state editor = record {
  dirty = false;
  events = editor.base;
  errors = [];
  stale = false;
  reviewed_ids = [];
}

-- `structuredClone` of the value of each event that `test` keeps
abbrev pub value_operation : SequenceEvent → EditOperation
value_operation event = EditOperation.replace_chord_value event.id event.value

-- An event has another id, start or end than the event of the base at its index.
unfoldable pub rearranged : List SequenceEvent → List SequenceEvent → Bool
rearranged [] base = false
rearranged (event ∷ events) [] = true
rearranged (event ∷ events) (original ∷ base) =
    not (event.id === original.id)
    || (not (event.start_sample == original.start_sample)
        || (not (event.end_sample == original.end_sample) || rearranged events base))

-- The events that were reviewed, or whose value is not that of the base at their index.
unfoldable pub revalued : List String → List SequenceEvent → List SequenceEvent → List SequenceEvent
revalued reviewed [] base = []
revalued reviewed (event ∷ events) [] = event ∷ revalued reviewed events []
revalued reviewed (event ∷ events) (original ∷ base) =
    let rest = revalued reviewed events base in
    if includes event.id reviewed || differs event.value original.value then event ∷ rest else rest

unfoldable pub operations_for :
    List SequenceEvent → List SequenceEvent → List String → List EditOperation
unfolding rearranged revalued
operations_for base events reviewed =
    if rearranged events base
    then EditOperation.replace_chord_sequence (map (λ e. e.id) base) events
      ∷ map value_operation (keep (λ e. includes e.id reviewed) events)
    else map value_operation (revalued reviewed events base)

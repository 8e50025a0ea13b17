-- ===== src/Tests/Draft.antt =====
-- The theorems on the drafts of an edit, at the sample project.
use open_chords.Prelude.{
  ℕ, ◌≡◌, refl, ◌↔◌, ◌⊎◌, Bool, true, false, some, List, [], ◌∷◌, units, ok, map,
}
use open_chords.Schema.{
  PitchClass, ChordQuality, SequenceEvent, EditOperation, EditTransaction, EditLayer,
  ProjectContract,
}
use open_chords.Invariants.Project.{validate_project_invariants}
use open_chords.Projection.Committed.{validate_committed_edit_layer_projections}
use open_chords.Projection.Materialize.{EffectiveTimeline, materialize_effective_timeline}
use open_chords.Practice.{resolve_practice_loop}
use open_chords.Parsing.{
  major_version, practice_is_ready, parse_project_contract, parse_project_contract_iff,
}
use open_chords.Draft.{
  DraftInput, draft_key, Editor, DraftState, event_of, create_editor_draft, initial_state,
  rearranged, revalued, operations_for,
}
use open_chords.Draft.Update.{
  transaction_ids, free_suffix, with_transaction, off_beat, unfilled, grid_errors, base_start,
  same_events, check_draft, draft_errors, update, reflow, set_chord, set_duration, transaction,
}
use open_chords.Draft.Grid.{subdivisions, chord_grid, bar_grid}
use open_chords.Draft.Update.Suffix.{suffix_of_total}
use open_chords.Draft.Update.{suffix_of, draft_id}
use open_chords.Tests.Sample.{layer}
use open_chords.Prelude.{includes, arith}
use open_chords.Draft.Update.Saved.{
  sets_chord, Reaches, created, acted, Commits, committed, transaction-Commits,
}
use open_chords.Draft.Update.Tiles.{lengths, with_length, Follows}
use open_chords.Draft.Update.Arranged.{set_duration-Follows}
use open_chords.Tests.Projects.{edits, effective}
use open_chords.Tests.Sample.{collate, triad, project, view}

abbrev accepts : ProjectContract → Bool
accepts _ = true

abbrev input : DraftInput
input = record {
  project = project;
  project_revision_id = "project_revision_1";
  target_ids = "chord_1" ∷ "chord_2" ∷ [];
}

abbrev base : List SequenceEvent
base = map event_of effective.timeline.chord_events

abbrev editor : Editor
editor = record {
  project = project;
  active = view;
  effective = effective;
  base = base;
  parent_transaction_id = some "transaction_2";
  key = draft_key input;
}

made : create_editor_draft collate input ≡ ok editor
unfolding edits create_editor_draft
made = refl

-- The second chord is G again.
abbrev changed : DraftState
changed = record {
  dirty = true;
  events =
      record {
        end_sample = 40;
        start_sample = 0;
        id = "chord_1";
        value = triad PitchClass.c_natural ChordQuality.major;
      }
      ∷ record {
        end_sample = 100;
        start_sample = 40;
        id = "chord_2";
        value = triad PitchClass.g_natural ChordQuality.major;
      }
      ∷ [];
  errors = [];
  stale = false;
  reviewed_ids = [];
}

changed-Reaches : Reaches collate accepts editor changed
unfolding edits set_chord update same_events draft_errors check_draft subdivisions chord_grid
    bar_grid transaction_ids free_suffix with_transaction rearranged revalued operations_for
    parse_project_contract major_version
changed-Reaches =
    acted (sets_chord "chord_2" (triad PitchClass.g_natural ChordQuality.major)) refl created

abbrev saved : EditTransaction
saved = record {
  id = "transaction_3";
  operations =
      EditOperation.replace_chord_value "chord_2" (triad PitchClass.g_natural ChordQuality.major)
      ∷ [];
  parent_transaction_id = some "transaction_2";
}

transaction-Commits_example :
    (l : EditLayer) × (n : ℕ) × Commits collate accepts editor saved l n
    × (grid_errors editor changed.events ≡ [])
    × (e : EffectiveTimeline) × (materialize_effective_timeline collate (committed editor l saved n)
        ≡ ok e)
unfolding edits transaction operations_for rearranged revalued
transaction-Commits_example =
    transaction-Commits collate accepts editor changed "transaction_3" saved changed-Reaches refl

-- The second chord made shorter leaves a gap, and ends off the beat.
abbrev shorter : DraftState
shorter = record {
  dirty = true;
  events =
      record {
        end_sample = 40;
        start_sample = 0;
        id = "chord_1";
        value = triad PitchClass.c_natural ChordQuality.major;
      }
      ∷ record {
        end_sample = 90;
        start_sample = 40;
        id = "chord_2";
        value = triad PitchClass.a_natural ChordQuality.minor;
      }
      ∷ [];
  errors = off_beat ∷ unfilled ∷ [];
  stale = false;
  reviewed_ids = [];
}

set_duration-Follows_example :
    Follows (base_start editor.base) shorter.events
    × (lengths shorter.events ≡ with_length "chord_2" 50 (lengths base))
unfolding edits set_duration reflow update same_events draft_errors check_draft subdivisions
    chord_grid bar_grid transaction_ids free_suffix with_transaction rearranged revalued
    operations_for parse_project_contract major_version
set_duration-Follows_example =
    set_duration-Follows collate accepts input editor (initial_state editor) shorter "chord_2" 50
      made created refl

parse_project_contract_iff_example : (parse_project_contract collate project ≡ ok tt) ↔ (
    (major_version 0 (units project.schema_version) ≡ 1)
    × (validate_project_invariants project collate ≡ ok tt)
    × (validate_committed_edit_layer_projections collate project ≡ ok tt)
    × ((practice_is_ready project.practice ≡ false)
        ⊎ ((span : ℕ × ℕ) × (resolve_practice_loop collate project ≡ ok (some span)))))
parse_project_contract_iff_example = parse_project_contract_iff collate project

suffix_of_total_example :
    (n : ℕ) × (suffix_of editor layer ≡ some n)
    × (includes (draft_id n) (transaction_ids editor.project.edit_layers) ≡ false)
unfolding transaction_ids
suffix_of_total_example = suffix_of_total editor layer (omega arith) (omega arith)

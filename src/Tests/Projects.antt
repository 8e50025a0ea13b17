-- ===== src/Tests/Projects.antt =====
-- The invariants, the projections and their theorems on the sample project.
use mathlib.Core.Bool.{decide}
use open_chords.Prelude.{
  ◌≡◌, refl, ok, some, [], ◌∷◌, some_of, find, keep, modify_at, modify_first, get_last?, map_get,
  lookup, map_set, map_has, map_delete, map_values, find_index, includes, set_size, decimal,
  Bool-cases,
}
use open_chords.Invariants.Checks.{
  validate_unique_ids, validate_cover, validate_ordered, validate_sorted_unique,
}
use open_chords.Invariants.Gather.{gather, for_each}
use open_chords.Invariants.Timeline.{all_beats, metered_track, validate_timeline_invariants}
use open_chords.Invariants.Lyrics.{validate_lyrics_alignment}
use open_chords.Invariants.Anchors.{anchor_issues, positions}
use open_chords.Invariants.Histories.{layer_issues}
use open_chords.Invariants.Documents.{document_issues}
use open_chords.Invariants.Project.{validate_project_invariants}
use open_chords.Projection.Values.{differs}
use open_chords.Projection.Chords.{
  misplaced, replace_all, replace_sequence, replace_value, move_boundary,
}
use open_chords.Projection.Bars
use open_chords.Projection.Apply.{
  replace_label, set_token_timing, set_line_timing, edit_alignment, apply_operation,
  apply_operations, apply_transactions,
}
use open_chords.Projection.Chain.{walk, history}
use open_chords.Projection.Materialize.{
  selected_alignment, validate_selected, materialize_view, materialize_effective_timeline,
}
use open_chords.Projection.Committed.{
  put_back, commit_operation, commit_operations, parent_state, validate_alignments,
  commit_transaction, commit_transactions, validate_layer,
  validate_committed_edit_layer_projections,
}
use open_chords.Schema.{PitchClass, ChordQuality, MusicalTimeline, LyricsTiming, LyricsAlignment}
use open_chords.Projection.Chords.{user_authored}
use open_chords.Projection.Materialize.{EffectiveTimeline}
use open_chords.Tests.Sample.{
  collate, triad, c_chord, g_chord, timeline, untimed, alignment, project,
}

-- What the tests compute with.
unfoldable pub checks : Unit {0}
unfolding some_of find keep map_get lookup map_set map_has map_delete map_values find_index includes
    set_size decimal validate_unique_ids validate_cover validate_ordered validate_sorted_unique
    gather for_each all_beats metered_track validate_timeline_invariants validate_lyrics_alignment
    anchor_issues positions layer_issues document_issues validate_project_invariants
checks = tt

unfoldable pub edits : Unit {0}
unfolding checks decide Bool-cases modify_at modify_first get_last? differs misplaced replace_all
    replace_sequence replace_value move_boundary Bars.move_beat Bars.move_bars_boundary
    Bars.set_meter Bars.split_first Bars.merge_neighbours replace_label set_token_timing
    set_line_timing edit_alignment apply_operation apply_operations apply_transactions walk history
    selected_alignment validate_selected materialize_view materialize_effective_timeline put_back
    commit_operation commit_operations parent_state validate_alignments commit_transaction
    commit_transactions validate_layer validate_committed_edit_layer_projections
edits = tt

pub project_valid : validate_project_invariants project collate ≡ ok tt
unfolding checks
project_valid = refl

pub committed_valid : validate_committed_edit_layer_projections collate project ≡ ok tt
unfolding edits
committed_valid = refl

abbrev pub edited_timeline : MusicalTimeline
edited_timeline = record timeline {
  chord_events =
      record c_chord { end_sample = 40 }
      ∷ record g_chord {
        start_sample = 40;
        value = triad PitchClass.a_natural ChordQuality.minor;
        assertion = user_authored;
      }
      ∷ [];
}

abbrev pub edited_alignment : LyricsAlignment
edited_alignment = record alignment {
  occurrences =
      record { timing = LyricsTiming.matched 10 20 user_authored; token_id = "lyrics_1_token_0" }
      ∷ record { timing = untimed; token_id = "lyrics_1_token_1" }
      ∷ [];
}

abbrev pub effective : EffectiveTimeline
effective = record {
  timeline = edited_timeline;
  analysis_revision_id = "revision_1";
  edit_layer_id = "layer_1";
  lyrics_alignment = some edited_alignment;
}

pub materialized : materialize_effective_timeline collate project ≡ ok effective
unfolding edits
materialized = refl

-- ===== src/Tests/EditHistory.antt =====
-- The theorems on the review of edits, where the sample project has a second revision.
use open_chords.Prelude.{◌≡◌, refl, some, List, [], ◌∷◌, ok, find, All, ◌===◌}
use open_chords.Schema.{AnalysisRevision, EditOperation, ProjectContract}
use open_chords.EditHistory.{
  EditMapping, EditMappingAction, ReviewedMapping, set_all, map_id, map_ids, map_events,
  review_operation, review_operations, review_chain, source_chain, unused_mappings, reviewed,
  review_found, review_edit_mapping,
}
use open_chords.EditHistory.OneToOne.{IsOneToOne}
use open_chords.EditHistory.Targets.{NamesOnly, review_edit_mapping-NamesOnly}
use open_chords.EditHistory.Total.{review_edit_mapping_total}
use open_chords.Tests.Projects.{edits, project_valid, committed_valid}
use open_chords.Tests.Sample.{collate, revision, project}

reviews : Unit {0}
unfolding edits set_all map_id map_ids map_events review_operation review_operations review_chain
    source_chain unused_mappings reviewed review_found review_edit_mapping
reviews = tt

abbrev two_revisions : ProjectContract
two_revisions = record project {
  analysis_revisions = revision ∷ record revision { id = "revision_2" } ∷ [];
}

abbrev crossed : List EditMapping
crossed =
    record { source_id = "chord_1"; target_id = "chord_2" }
    ∷ record { source_id = "chord_2"; target_id = "chord_1" }
    ∷ []

abbrev crossing : EditMappingAction
crossing = record {
  source_edit_layer_id = "layer_1";
  source_history_position = 1;
  target_analysis_revision_id = "revision_2";
  mappings = crossed;
}

abbrev crossed_over : ReviewedMapping
crossed_over = record {
  conflicts = [];
  operations = EditOperation.move_chord_boundary 40 "chord_2" "chord_1" ∷ [];
  requirements =
      ("chord_1", "chord_1" ∷ "chord_2" ∷ []) ∷ ("chord_2", "chord_1" ∷ "chord_2" ∷ []) ∷ [];
}

review_edit_mapping-NamesOnly_example :
    (target : AnalysisRevision) × (find
        (λ r. r.id === "revision_2")
        two_revisions.analysis_revisions
      ≡ some target)
    × All
        (NamesOnly target.timeline)
        (EditOperation.move_chord_boundary 40 "chord_2" "chord_1" ∷ [])
    × IsOneToOne crossed
unfolding reviews
review_edit_mapping-NamesOnly_example =
    review_edit_mapping-NamesOnly two_revisions crossing crossed_over refl refl

review_edit_mapping_total_example :
    (result : ReviewedMapping) × (review_edit_mapping project crossing ≡ ok result)
review_edit_mapping_total_example =
    review_edit_mapping_total collate project crossing project_valid committed_valid

-- ===== src/Projection/Committed/Histories.antt =====
-- Every history of a checked project ends.
use open_chords.Prelude.{
  ℕ, ◌≤◌, ◌≡◌, String, Bool, Option, none, some, List, find, length, keep, ok, >>=-eq-ok, ◌===◌,
}
use open_chords.Schema.{AnalysisRevision, EditTransaction, EditLayer, ProjectContract}
use open_chords.Invariants.Project.{validate_project_invariants}
use open_chords.Invariants.Project.Facts
use open_chords.Projection.Find.{or_throw}
use open_chords.Projection.Chain.{history}
use open_chords.Projection.Materialize.{selected_alignment}
use open_chords.Projection.Committed.{validate_layer, validate_committed_edit_layer_projections}
use open_chords.Projection.Committed.Located.{layer_of_layers, located}

module _ (collate : String → String → Bool) (project : ProjectContract) where
  revision_of_or_throw :
      (o : Option AnalysisRevision) (r : AnalysisRevision) (message : String)
      → or_throw o message ≡ ok r
      → o ≡ some r
  revision_of_or_throw none r message h = cc
  revision_of_or_throw (some other) r message h = cc

  -- In a project whose checks throw nothing the walk from any position of any layer ends.
  pub history_total :
      (id : String) (layer : EditLayer) (position : ℕ)
      → validate_project_invariants project collate ≡ ok tt
      → validate_committed_edit_layer_projections collate project ≡ ok tt
      → find (λ l. l.id === id) project.edit_layers ≡ some layer
      → position ≤ length layer.transactions
      → (chain : List EditTransaction) × (history layer.transactions position ≡ ok chain)
  unfolding validate_committed_edit_layer_projections validate_layer selected_alignment
  history_total id layer position checked committed there within =
      let v = Facts.validate_project_invariants-IsProject collate project checked in
      let (r, found, commits) =
        >>=-eq-ok
          (or_throw (find (λ r. r.id === layer.analysis_revision_id) project.analysis_revisions)
            "Edit Layer revision was not validated")
          _ (layer_of_layers collate project _ project.edit_layers layer committed there) in
      let w =
        located collate project v none
          (record {
            lyrics_alignments =
                keep (λ a. a.analysis_revision_id === layer.analysis_revision_id)
                  project.lyrics_alignments;
            timeline = r.timeline;
          })
          layer.transactions position (Facts.transactions_distinct collate project _ layer v there)
          commits within
          (Facts.timeline_valid collate project _ r v (revision_of_or_throw _ r _ found))
          (λ x chosen. absurd cc) in
      (w.chain, w.found)

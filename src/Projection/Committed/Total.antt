-- ===== src/Projection/Committed/Total.antt =====
-- A project whose invariants and committed projections were checked materializes at whatever position
-- of the history its view names: nothing that `materializeEffectiveTimeline` throws can be thrown.
use mathlib.Core.Path.{subst}
use open_chords.Prelude.{
  String, ◌≡◌, refl, sym, ap, ◌∙◌, Bool, Option, none, some, [], arith, eq_iff, ◌===◌, find, keep,
  ok,
}
use open_chords.Schema.{AnalysisRevision, EditLayer, LyricsAlignment, ActiveView, ProjectContract}
use open_chords.Invariants.Project.{validate_project_invariants}
use open_chords.Invariants.Project.Facts
use open_chords.Invariants.Project.Facts.{IsProject, ViewFacts}
use open_chords.Projection.Apply.{ProjectionState}
use open_chords.Projection.Lookup.{map_get-eq-find, find_of_includes, find-keep}
use open_chords.Projection.Materialize.{
  EffectiveTimeline, selected_alignment, materialize_effective_timeline,
}
use open_chords.Projection.Committed.{
  CommittedState, commit_transactions, validate_layer, validate_committed_edit_layer_projections,
}
use open_chords.Projection.Committed.Located.{
  layer_of_layers, Fits, Located, located, materialize_view-Located,
}

module _ (collate : String → String → Bool) (project : ProjectContract) where
  -- The alignment that a view selects is one of the alignments of its layer's revision.
  selected-keep :
      (v : IsProject collate project) (view : ActiveView) (base : String)
      → project.active_view ≡ some view
      → base ≡ view.analysis_revision_id
      → ViewFacts collate project view
      → (chosen : Option String) → view.lyrics_alignment_id ≡ chosen
      → selected_alignment
          (keep (λ a. a.analysis_revision_id === base) project.lyrics_alignments)
          chosen
        ≡ selected_alignment project.lyrics_alignments chosen
  unfolding selected_alignment
  selected-keep v view base active same facts none e = refl
  selected-keep v view base active same facts (some id) e =
      let (x, found) =
        find_of_includes (λ a. a.id) id project.lyrics_alignments (facts.alignment_known id e) in
      let kept =
        Facts.selection_base collate project view id x v active e (
          map_get-eq-find (λ a. a.id) id project.lyrics_alignments v.alignments_distinct ∙ found) in
      find-keep (λ a. a.id) (λ a. a.analysis_revision_id === base) id project.lyrics_alignments x
        found ((eq_iff x.analysis_revision_id base).1 (kept ∙ sym same))
      ∙ sym found

  -- What a layer starts from, with the timeline of its revision.
  start_of : EditLayer → AnalysisRevision → CommittedState
  start_of layer r = record {
    lyrics_alignments =
        keep (λ a. a.analysis_revision_id === layer.analysis_revision_id) project.lyrics_alignments;
    timeline = r.timeline;
  }

  layer_commits :
      (layer : EditLayer) (r : AnalysisRevision)
      → validate_layer collate project layer ≡ ok tt
      → find (λ r. r.id === layer.analysis_revision_id) project.analysis_revisions ≡ some r
      → commit_transactions collate project (start_of layer r) [] layer.transactions ≡ ok tt
  unfolding validate_layer start_of
  layer_commits layer r h found = rw found at h

  project-Fits :
      (v : IsProject collate project) (a : Option String) (x : LyricsAlignment)
      → selected_alignment project.lyrics_alignments a ≡ some x
      → Fits collate project x
  unfolding selected_alignment Fits
  project-Fits v none x h = absurd (ground arith)
  project-Fits v (some id) x h = Facts.alignment_valid collate project _ x v h

  -- If the checks of a project and of its committed edit layers throw nothing, and the project has
  -- an active view, materializing gives an effective timeline.
  pub materialize_total :
      (view : ActiveView)
      → validate_project_invariants project collate ≡ ok tt
      → validate_committed_edit_layer_projections collate project ≡ ok tt
      → project.active_view ≡ some view
      → (e : EffectiveTimeline) × (materialize_effective_timeline collate project ≡ ok e)
  unfolding materialize_effective_timeline validate_committed_edit_layer_projections start_of
  materialize_total view checked committed active =
      let v = Facts.validate_project_invariants-IsProject collate project checked in
      let facts = Facts.view_facts collate project view v active in
      let layer = facts.layer in
      let (r, r_found) =
        find_of_includes (λ r. r.id) view.analysis_revision_id project.analysis_revisions
          facts.revision_known in
      let layer_found =
        sym (map_get-eq-find (λ l. l.id) view.edit_layer_id project.edit_layers v.layers_distinct)
        ∙ facts.layer_found in
      let commits =
        layer_commits layer r
          (layer_of_layers collate project _ project.edit_layers layer committed layer_found)
          (ap (λ id. find (λ x. x.id === id) project.analysis_revisions) facts.base ∙ r_found) in
      let same =
        selected-keep v view layer.analysis_revision_id active facts.base facts
          view.lyrics_alignment_id refl in
      let w =
        located collate project v view.lyrics_alignment_id (start_of layer r) layer.transactions
          view.edit_history_position
          (Facts.transactions_distinct collate project _ layer v layer_found) commits
          facts.in_history (Facts.timeline_valid collate project _ r v r_found)
          (λ x chosen. project-Fits v view.lyrics_alignment_id x (sym same ∙ chosen)) in
      let start : ProjectionState → Type 0 =
        λ s. Located collate project s layer.transactions view.edit_history_position in
      let (e, done) =
        materialize_view-Located collate project view r layer
          (subst start (λ i. record { timeline = r.timeline; lyrics_alignment = same i }) w) in
      (e, ground (arith, active, r_found, layer_found, done))

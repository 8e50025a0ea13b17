-- ===== src/Projection/Materialize/Valid.antt =====
-- What a materialized project promises to those that read it.
use open_chords.Prelude.{
  ℕ, ◌<◌, ◌≡◌, String, Bool, some, map, arith, ◌===◌, find, ap, sym, ◌∙◌, ok, >>=-eq-ok,
}
use open_chords.Schema.{
  ActiveView, AnalysisRevision, EditLayer, LyricsAlignment, LyricsDocument, ProjectContract,
}
use open_chords.Invariants.Checks.Cover.{times_held, IsCover-times_held}
use open_chords.Invariants.Timeline.{
  chord_interval, section_interval, key_interval, metered_track, validate_timeline_invariants,
}
use open_chords.Invariants.Timeline.Exact.{IsTimeline, validate_timeline_invariants_iff}
use open_chords.Invariants.Lyrics.Exact.{IsAligned, validate_lyrics_alignment_iff}
use open_chords.Projection.Find.{or_throw}
use open_chords.Projection.Materialize.{
  EffectiveTimeline, validate_selected, materialize_view, materialize_effective_timeline,
}

module _ (collate : String → String → Bool) (project : ProjectContract)
    (e : EffectiveTimeline) where
  record WasChecked : Type 0 where
    timeline : validate_timeline_invariants collate e.timeline project.duration_samples ≡ ok tt
    selected :
        validate_selected project.lyrics_documents e.lyrics_alignment project.duration_samples
        ≡ ok tt

  view-WasChecked :
      (view : ActiveView) (r : AnalysisRevision) (layer : EditLayer)
      → materialize_view collate project view r layer ≡ ok e
      → WasChecked
  unfolding materialize_view
  view-WasChecked view r layer h = record { timeline = ground arith; selected = ground arith }

  was_checked : materialize_effective_timeline collate project ≡ ok e → WasChecked
  unfolding materialize_effective_timeline
  was_checked h =
      let (view, _, h1) = >>=-eq-ok (or_throw project.active_view _) _ h in
      let (r, _, h2) =
        >>=-eq-ok
          (or_throw (find (λ r. r.id === view.analysis_revision_id) project.analysis_revisions) _) _
          h1 in
      let (layer, _, h3) =
        >>=-eq-ok (or_throw (find (λ l. l.id === view.edit_layer_id) project.edit_layers) _) _ h2 in
      view-WasChecked view r layer h3

  -- A timeline that was materialized is well formed.
  pub materialize-IsTimeline :
      materialize_effective_timeline collate project ≡ ok e
      → IsTimeline collate e.timeline project.duration_samples
  materialize-IsTimeline h =
      (validate_timeline_invariants_iff collate e.timeline project.duration_samples).0
        (was_checked h).timeline

  -- In a timeline that was materialized every sample before the end of the project lies in exactly
  -- one chord event, one section, one key region, and one item of the bars and unmetered regions.
  pub materialize-times_held :
      (s : ℕ)
      → materialize_effective_timeline collate project ≡ ok e
      → s < project.duration_samples
      → (times_held (map chord_interval e.timeline.chord_events) s ≡ 1)
        × (times_held (map section_interval e.timeline.section_regions) s ≡ 1)
        × (times_held (map key_interval e.timeline.key_regions) s ≡ 1)
        × (times_held (metered_track collate e.timeline) s ≡ 1)
  materialize-times_held s h l =
      let t = materialize-IsTimeline h in
      (
        IsCover-times_held _ _ s t.chord_track l,
        IsCover-times_held _ _ s t.section_track l,
        IsCover-times_held _ _ s t.key_track l,
        IsCover-times_held _ _ s t.metered l,
      )

  -- A lyrics alignment that was materialized belongs to a document of the project and is well formed
  -- over it.
  pub materialize-IsAligned :
      (a : LyricsAlignment)
      → materialize_effective_timeline collate project ≡ ok e
      → e.lyrics_alignment ≡ some a
      → (d : LyricsDocument) × (find (λ d. d.id === a.lyrics_document_id) project.lyrics_documents
          ≡ some d)
        × IsAligned a d project.duration_samples
  unfolding validate_selected
  materialize-IsAligned a h selected =
      let valid : validate_selected project.lyrics_documents (some a) project.duration_samples
          ≡ ok tt =
        ap (λ x. validate_selected project.lyrics_documents x project.duration_samples)
          (sym selected)
        ∙ (was_checked h).selected in
      let (d, found, aligned) =
        >>=-eq-ok (or_throw (find (λ d. d.id === a.lyrics_document_id) project.lyrics_documents) _)
          _ valid in
      (d, ground arith, (validate_lyrics_alignment_iff a d project.duration_samples).0 aligned)

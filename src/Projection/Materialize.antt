-- ===== src/Projection/Materialize.antt =====
-- packages/domain/src/projection.ts: `materializeEffectiveTimeline`.
pub mod Valid
use open_chords.Prelude.{
  ℕ, String, Bool, Option, none, some, List, ◌===◌, find, Result, ok, ◌>>=◌, ◌>>◌,
}
use open_chords.Schema.{
  MusicalTimeline, LyricsAlignment, LyricsDocument, ActiveView, AnalysisRevision, EditLayer,
  ProjectContract,
}
use open_chords.Invariants.Timeline.{validate_timeline_invariants}
use open_chords.Invariants.Lyrics.{validate_lyrics_alignment}
use open_chords.Projection.Find.{or_throw}
use open_chords.Projection.Apply.{apply_transactions}
use open_chords.Projection.Chain.{history}

pub record EffectiveTimeline : Type 0 where
  pub timeline : MusicalTimeline
  pub analysis_revision_id : String
  pub edit_layer_id : String
  pub lyrics_alignment : Option LyricsAlignment

-- The alignment whose id the view names; none where the view names none.
unfoldable pub selected_alignment : List LyricsAlignment → Option String → Option LyricsAlignment
selected_alignment alignments none = none
selected_alignment alignments (some id) = find (λ a. a.id === id) alignments

unfoldable pub validate_selected :
    List LyricsDocument → Option LyricsAlignment → ℕ → Result (Unit {0})
validate_selected documents none duration = ok tt
validate_selected documents (some alignment) duration = do
  document ←
      or_throw (find (λ d. d.id === alignment.lyrics_document_id) documents)
        "Lyrics Alignment document was not validated"
  validate_lyrics_alignment alignment document duration

module _ (collate : String → String → Bool) (project : ProjectContract) where
  unfoldable pub materialize_view :
      ActiveView → AnalysisRevision → EditLayer → Result EffectiveTimeline
  materialize_view view revision layer = do
    chain ← history layer.transactions view.edit_history_position
    s ←
        apply_transactions
          (record {
            timeline = revision.timeline;
            lyrics_alignment =
                selected_alignment project.lyrics_alignments view.lyrics_alignment_id;
          })
          chain
    validate_timeline_invariants collate s.timeline project.duration_samples
    validate_selected project.lyrics_documents s.lyrics_alignment project.duration_samples
    ok (record {
      timeline = s.timeline;
      analysis_revision_id = revision.id;
      edit_layer_id = layer.id;
      lyrics_alignment = s.lyrics_alignment;
    })

  unfoldable pub materialize_effective_timeline : Result EffectiveTimeline
  materialize_effective_timeline = do
    view ← or_throw project.active_view "Project has no Analysis Revision to materialize"
    revision ←
        or_throw (find (λ r. r.id === view.analysis_revision_id) project.analysis_revisions)
          "Active View references were not validated"
    layer ←
        or_throw (find (λ l. l.id === view.edit_layer_id) project.edit_layers)
          "Active View references were not validated"
    materialize_view view revision layer

-- ===== src/Projection/Committed/Located.antt =====
-- What materializing at a position of a history gives, where the layer of the history was checked.
use mathlib.Core.Path.{subst}
use open_chords.Prelude.{
  ℕ, zero, suc, ◌+◌, ◌-◌, ◌≤◌, String, ◌≡◌, refl, sym, ap, ◌∙◌, Bool, Option, none, some, List, [],
  ◌∷◌, map, arith, Bool-cases, Option-cases, Result-cases, inl, inr, length, find, map_get, ok,
  >>=-eq-ok,
}
use mathlib.Core.List.{append-nil}
use open_chords.Schema.{
  AnalysisRevision, EditTransaction, EditLayer, LyricsAlignment, LyricsDocument, ActiveView,
  ProjectContract,
}
use open_chords.Invariants.Checks.Ids.{AllDistinct}
use open_chords.Invariants.Timeline.{validate_timeline_invariants}
use open_chords.Invariants.Lyrics.{validate_lyrics_alignment}
use open_chords.Invariants.Project.Facts.{IsProject}
use open_chords.Projection.Apply.{ProjectionState, apply_transactions}
use open_chords.Projection.Chain.{walk, history}
use open_chords.Projection.Chain.Route.{walk-Route}
use open_chords.Projection.Lookup.{map_get-eq-find, get_elem?_of_lt}
use open_chords.Projection.Materialize.{
  EffectiveTimeline, selected_alignment, validate_selected, materialize_view,
}
use open_chords.Projection.Committed.{
  CommittedState, validate_alignments, commit_transactions, validate_layer, validate_layers,
}
use open_chords.Projection.Committed.Agree.{seen}
use open_chords.Projection.Committed.Reached.{history-Reached}

module _ (collate : String → String → Bool) (project : ProjectContract) where
  pub layer_of_layers :
      (test : EditLayer → Bool) (layers : List EditLayer) (l : EditLayer)
      → validate_layers collate project layers ≡ ok tt
      → find test layers ≡ some l
      → validate_layer collate project l ≡ ok tt
  unfolding validate_layers find
  layer_of_layers test [] l h e = absurd (ground arith)
  layer_of_layers test (x ∷ rest) l h e =
      let (_, first, later) = >>=-eq-ok (validate_layer collate project x) _ h in
      elim (Bool-cases (test x)) [
        | inl passes ↦
            let same : x ≡ l = ground arith in
            subst (λ y. validate_layer collate project y ≡ ok tt) same first
        | inr fails ↦ layer_of_layers test rest l later (ground arith)
      ]

  -- One of the alignments that were checked, by its id.
  alignment_of_alignments :
      (test : LyricsAlignment → Bool) (l : List LyricsAlignment) (a : LyricsAlignment)
      → validate_alignments collate project l ≡ ok tt
      → find test l ≡ some a
      → (d : LyricsDocument) × (map_get a.lyrics_document_id
            (map (λ d. (d.id, d)) project.lyrics_documents)
          ≡ some d)
        × (validate_lyrics_alignment a d project.duration_samples ≡ ok tt)
  unfolding validate_alignments find
  alignment_of_alignments test [] a h e = absurd (ground arith)
  alignment_of_alignments test (x ∷ rest) a h e =
      elim (Option-cases
        (map_get x.lyrics_document_id (map (λ d. (d.id, d)) project.lyrics_documents))) [
          | inl missing ↦ absurd (ground arith)
          | inr (d, found) ↦
              elim (Result-cases (validate_lyrics_alignment x d project.duration_samples)) [
                | inr (failure, failed) ↦ absurd (ground arith)
                | inl (_, valid) ↦ elim (Bool-cases (test x)) [
                  | inl passes ↦
                      let same : x ≡ a = ground arith in
                      subst
                        (λ y.
                          (d : LyricsDocument) × (map_get y.lyrics_document_id
                              (map (λ d. (d.id, d)) project.lyrics_documents)
                            ≡ some d)
                          × (validate_lyrics_alignment y d project.duration_samples ≡ ok tt))
                        same (d, found, valid)
                  | inr fails ↦ alignment_of_alignments test rest a (ground arith) (ground arith)
                ]
              ]
        ]

  -- What materializing at a position of a history gives, before it is put together.
  pub record Located (start : ProjectionState) (all : List EditTransaction) (position : ℕ)
      : Type 0 where
    pub chain : List EditTransaction
    pub s : ProjectionState
    pub found : history all position ≡ ok chain
    pub applied : apply_transactions start chain ≡ ok s
    pub timeline_valid :
        validate_timeline_invariants collate s.timeline project.duration_samples ≡ ok tt
    pub alignment_valid :
        validate_selected project.lyrics_documents s.lyrics_alignment project.duration_samples
        ≡ ok tt

  -- The alignment `a` fits its document.
  unfoldable pub Fits : LyricsAlignment → Type 0
  Fits a =
      (d : LyricsDocument) × (map_get a.lyrics_document_id
          (map (λ d. (d.id, d)) project.lyrics_documents)
        ≡ some d)
      × (validate_lyrics_alignment a d project.duration_samples ≡ ok tt)

  validate_selected_of_Fits :
      AllDistinct (map (λ d. d.id) project.lyrics_documents)
      → (a : Option LyricsAlignment) → ((x : LyricsAlignment) → a ≡ some x → Fits x)
      → validate_selected project.lyrics_documents a project.duration_samples ≡ ok tt
  unfolding validate_selected Fits
  validate_selected_of_Fits distinct none fits = refl
  validate_selected_of_Fits distinct (some x) fits =
      let (d, found, valid) = fits x refl in
      rw
        (sym (map_get-eq-find (λ d. d.id) x.lyrics_document_id project.lyrics_documents distinct)
          ∙ found)
        (rw valid refl)

  Fits-selected :
      (a : Option String) (l : List LyricsAlignment)
      → validate_alignments collate project l ≡ ok tt
      → (x : LyricsAlignment) → selected_alignment l a ≡ some x
      → Fits x
  unfolding selected_alignment Fits
  Fits-selected none l h x chosen = absurd (ground arith)
  Fits-selected (some id) l h x chosen = alignment_of_alignments _ l x h chosen

  module _ (v : IsProject collate project) (a : Option String) (initial : CommittedState)
      (all : List EditTransaction) where
    -- The root of a history is what its layer starts from, any other position is one of its
    -- transactions.
    pub located :
        (position : ℕ)
        → AllDistinct (map (λ t. t.id) all)
        → commit_transactions collate project initial [] all ≡ ok tt
        → position ≤ length all
        → validate_timeline_invariants collate initial.timeline project.duration_samples ≡ ok tt
        → ((x : LyricsAlignment) → selected_alignment initial.lyrics_alignments a ≡ some x → Fits x)
        → Located (seen a initial) all position
    unfolding history walk apply_transactions
    located zero distinct h within valid fits = record {
      chain = [];
      s = seen a initial;
      found = refl;
      applied = refl;
      timeline_valid = valid;
      alignment_valid = validate_selected_of_Fits v.documents_distinct _ fits;
    }
    located (suc i) distinct h within valid fits =
        let (t, there) = get_elem?_of_lt all i within in
        let (c, r) = history-Reached collate project a initial all distinct h i t there in
        record {
          chain = r.chain;
          s = seen a c;
          found =
              ap (λ selected. walk (length all + 2) all selected []) there
              ∙ walk-Route (length all + 2 - length r.chain) [] (length all + 2) r.route
                  (omega (arith, r.short))
              ∙ ap ok (append-nil r.chain);
          applied = r.applied;
          timeline_valid = r.timeline_valid;
          alignment_valid =
              validate_selected_of_Fits v.documents_distinct _
                (Fits-selected a c.lyrics_alignments r.alignments_valid);
        }

  pub materialize_view-Located :
      (view : ActiveView) (r : AnalysisRevision) (layer : EditLayer)
      → Located
          (record {
            timeline = r.timeline;
            lyrics_alignment =
                selected_alignment project.lyrics_alignments view.lyrics_alignment_id;
          })
          layer.transactions
          view.edit_history_position
      → (e : EffectiveTimeline) × (materialize_view collate project view r layer ≡ ok e)
  unfolding materialize_view
  materialize_view-Located view r layer w = (
    record {
      timeline = w.s.timeline;
      analysis_revision_id = r.id;
      edit_layer_id = layer.id;
      lyrics_alignment = w.s.lyrics_alignment;
    },
    ground (arith, w.found, w.applied, w.timeline_valid, w.alignment_valid),
  )

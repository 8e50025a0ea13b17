-- ===== src/Invariants/Project.antt =====
-- packages/domain/src/invariants.ts: `validateProjectInvariants`.
pub mod Facts
use open_chords.Prelude.{
  ◌+◌, String, Bool, true, false, not, ◌||◌, Option, none, some, List, [], ◌∷◌, map, ltb, ◌==◌,
  ◌===◌, template, length, some_of, map_get, set_size, includes, Result, if◌then◌else◌,
}
use open_chords.Schema.{
  AnalysisRevision, AlignmentProvenance, LyricsAlignment, LyricsDocument, ActiveView, EditLayer,
  ImportOrigin, ProjectContract,
}
use open_chords.Invariants.Checks.{push_if, validate_unique_ids}
use open_chords.Invariants.Gather.{gather, for_each, throw_issues}
use open_chords.Invariants.Timeline.{timeline_issues}
use open_chords.Invariants.Lyrics.{alignment_issues}
use open_chords.Invariants.Anchors.{anchor_issues}
use open_chords.Invariants.Histories.{layer_issues}
use open_chords.Invariants.Documents.{document_issues}

abbrev pub origins : Option (List ImportOrigin) → List ImportOrigin
origins none = []
origins (some items) = items

abbrev pub is_some {ℓ} : {A : Type ℓ} → Option A → Bool
is_some none = false
is_some (some a) = true

-- `!map.has(id)`, where an id is given
abbrev pub names_unknown : Option String → List String → Bool
names_unknown none ids = false
names_unknown (some id) ids = not (includes id ids)

abbrev pub same_optional : Option String → Option String → Bool
same_optional none none = true
same_optional (some a) (some b) = a === b
same_optional _ _ = false

module _ (project : ProjectContract) where
  abbrev pub revision_ids : List String
  revision_ids = map (λ r. r.id) project.analysis_revisions

  abbrev pub history_project_ids : List String
  history_project_ids = project.id ∷ map (λ o. o.project_id) (origins project.import_origins)

  unfoldable pub claim_issues : AnalysisRevision → List String → List String
  claim_issues revision [] = []
  claim_issues revision (id ∷ ids) =
      push_if (not (includes id (map (λ c. c.id) project.support_claims)))
        (template (revision.id ∷ " references unknown Support Claim " ∷ id ∷ []))
        (claim_issues revision ids)

  unfoldable pub revision_issues : (String → String → Bool) → AnalysisRevision → List String
  unfolding claim_issues
  revision_issues collate revision = gather (
      push_if (not (includes revision.project_id history_project_ids))
        (template (revision.id ∷ " belongs to another Project" ∷ [])) []
      ∷ claim_issues revision revision.support_claim_ids
      ∷ map (λ issue. template (revision.id ∷ ": " ∷ issue ∷ []))
          (timeline_issues collate revision.timeline project.duration_samples)
      ∷ [])

  abbrev layer_matches : ActiveView → Option EditLayer → List String
  layer_matches view none = "Active View references unknown Edit Layer" ∷ []
  layer_matches view (some layer) =
      push_if (not (layer.analysis_revision_id === view.analysis_revision_id))
        "Active View Analysis Revision and Edit Layer base do not match"
        (push_if (ltb (length layer.transactions) view.edit_history_position)
          "Active View history position is outside committed Edit Layer history" [])

  unfoldable pub view_issues : Option ActiveView → List String
  view_issues none =
      push_if
        (not (length project.analysis_revisions == 0) || not (length project.edit_layers == 0))
        "A Project without an Active View must not contain analysis or edit revisions"
        (push_if (not (length project.support_claims == 0))
          "A Project without an Active View must not contain Support Claims"
          (push_if
            (not (length project.lyrics_documents == 0)
              || not (length project.lyrics_alignments == 0))
            "A Project without an Active View must not contain lyrics records" []))
  view_issues (some view) = gather (
      push_if (not (includes view.analysis_revision_id revision_ids))
        "Active View references unknown Analysis Revision" []
      ∷ layer_matches view (map_get view.edit_layer_id (map (λ l. (l.id, l)) project.edit_layers))
      ∷ push_if
          (if is_some view.lyrics_document_id
            then not (is_some view.lyrics_alignment_id)
            else is_some view.lyrics_alignment_id)
          "Active View must select Lyrics Document and Lyrics Alignment together" []
      ∷ push_if (names_unknown view.lyrics_document_id (map (λ d. d.id) project.lyrics_documents))
          "Active View references unknown Lyrics Document" []
      ∷ push_if (names_unknown view.lyrics_alignment_id (map (λ a. a.id) project.lyrics_alignments))
          "Active View references unknown Lyrics Alignment" []
      ∷ [])

  unfoldable pub recipe_issues : LyricsAlignment → Option AlignmentProvenance → List String
  recipe_issues alignment none = []
  recipe_issues alignment (some provenance) =
      let recipe = provenance.recipe in
      gather (
        push_if
          (not (includes recipe.project_id history_project_ids)
            || (not (recipe.lyrics_document_id === alignment.lyrics_document_id)
                || (not (recipe.analysis_revision_id === alignment.analysis_revision_id)
                    || (not (recipe.sample_rate == project.sample_rate)
                        || not (recipe.duration_samples == project.duration_samples)))))
          (template (alignment.id ∷ " Alignment Recipe scope is invalid" ∷ [])) []
        ∷ push_if
            (some_of (λ a. not (a.lyrics_document_id === alignment.lyrics_document_id))
              recipe.anchors)
            (template (alignment.id ∷ " Lyrics Anchor belongs to another document" ∷ [])) []
        ∷ anchor_issues recipe.anchors project alignment.analysis_revision_id
        ∷ [])

  unfoldable pub aligned_issues : LyricsAlignment → Option LyricsDocument → List String
  aligned_issues alignment none =
      template (alignment.id ∷ " references unknown Lyrics Document" ∷ []) ∷ []
  aligned_issues alignment (some document) =
      alignment_issues alignment document project.duration_samples

  unfoldable pub lyrics_issues : LyricsAlignment → List String
  unfolding recipe_issues aligned_issues
  lyrics_issues alignment = gather (
      recipe_issues alignment alignment.provenance
      ∷ push_if (not (includes alignment.analysis_revision_id revision_ids))
          (template (alignment.id ∷ " references unknown Analysis Revision" ∷ [])) []
      ∷ aligned_issues alignment
          (map_get alignment.lyrics_document_id (map (λ d. (d.id, d)) project.lyrics_documents))
      ∷ [])

  unfoldable pub selection_issues : ActiveView → Option LyricsAlignment → List String
  selection_issues view none = []
  selection_issues view (some alignment) =
      push_if
        (not (alignment.analysis_revision_id === view.analysis_revision_id)
          || not (same_optional (some alignment.lyrics_document_id) view.lyrics_document_id))
        "Active View Lyrics Alignment does not belong to its selected Document and Analysis Revision"
        []

  unfoldable pub selected_issues : Option ActiveView → List String
  unfolding selection_issues
  selected_issues none = []
  selected_issues (some view) = elim view.lyrics_alignment_id [
    | none ↦ []
    | some id ↦ selection_issues view (map_get id (map (λ a. (a.id, a)) project.lyrics_alignments))
  ]

  unfoldable pub project_issues : (String → String → Bool) → List String
  unfolding revision_issues view_issues lyrics_issues selected_issues
  project_issues collate = gather (
      validate_unique_ids revision_ids "analysis revisions"
      ∷ validate_unique_ids (map (λ l. l.id) project.edit_layers) "edit layers"
      ∷ validate_unique_ids (map (λ d. d.id) project.lyrics_documents) "lyrics documents"
      ∷ validate_unique_ids (map (λ a. a.id) project.lyrics_alignments) "lyrics alignments"
      ∷ validate_unique_ids (map (λ c. c.id) project.support_claims) "support claims"
      ∷ push_if (not (set_size history_project_ids == length (origins project.import_origins) + 1))
          "Import origins must name distinct earlier Project identities" []
      ∷ for_each (revision_issues collate) project.analysis_revisions
      ∷ for_each (layer_issues project) project.edit_layers
      ∷ view_issues project.active_view
      ∷ for_each lyrics_issues project.lyrics_alignments
      ∷ for_each document_issues project.lyrics_documents
      ∷ selected_issues project.active_view
      ∷ [])

  unfoldable pub validate_project_invariants : (String → String → Bool) → Result (Unit {0})
  unfolding project_issues
  validate_project_invariants collate = throw_issues (project_issues collate)

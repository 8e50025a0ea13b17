-- ===== src/Invariants/Project/Facts.antt =====
-- What a project that passes `validateProjectInvariants` gives to the functions that rest on it.
use mathlib.Core.Path.{subst}
use open_chords.Prelude.{
  ◌≤◌, String, ◌≡◌, refl, Bool, true, some, List, [], ◌∷◌, map, arith, eq_iff, sym, ap, ◌∙◌,
  Bool-cases, Option-cases, inl, inr, length, find, map_get, includes, All, ok,
}
use open_chords.Schema.{
  AnalysisRevision, EditLayer, LyricsAlignment, LyricsDocument, ActiveView, ProjectContract,
}
use open_chords.Invariants.Checks.Ids.{AllDistinct, validate_unique_ids_iff}
use open_chords.Invariants.Gather.{gather_iff, for_each, for_each_iff, throw_issues_iff}
use open_chords.Invariants.Timeline.{validate_timeline_invariants}
use open_chords.Invariants.Lyrics.{validate_lyrics_alignment}
use open_chords.Invariants.Histories.{layer_issues}
use open_chords.Invariants.Project.{
  revision_ids, revision_issues, view_issues, lyrics_issues, selected_issues, project_issues,
  validate_project_invariants,
}

pub All-find {ℓ κ} :
    {A : Type ℓ} (P : A → Type κ) (test : A → Bool) (xs : List A) (x : A)
    → All P xs
    → find test xs ≡ some x
    → P x
unfolding find
All-find P test [] x h e = absurd (ground arith)
All-find P test (y ∷ ys) x h e = elim (Bool-cases (test y)) [
  | inl passes ↦ let same : y ≡ x = ground arith in subst P same h.0
  | inr fails ↦ All-find P test ys x h.1 (ground arith)
]

map-eq-nil : (f : String → String) (xs : List String) → map f xs ≡ [] → xs ≡ []
map-eq-nil f [] h = refl
map-eq-nil f (x ∷ xs) h = cc

module _ (collate : String → String → Bool) (project : ProjectContract) where
  pub record IsProject : Type 0 where
    pub revisions_distinct : AllDistinct (revision_ids project)
    pub layers_distinct : AllDistinct (map (λ l. l.id) project.edit_layers)
    pub documents_distinct : AllDistinct (map (λ d. d.id) project.lyrics_documents)
    pub alignments_distinct : AllDistinct (map (λ a. a.id) project.lyrics_alignments)
    pub revisions : for_each (revision_issues project collate) project.analysis_revisions ≡ []
    pub layers : for_each (layer_issues project) project.edit_layers ≡ []
    pub view : view_issues project project.active_view ≡ []
    pub alignments : for_each (lyrics_issues project) project.lyrics_alignments ≡ []
    pub selection : selected_issues project project.active_view ≡ []

  pub validate_project_invariants-IsProject :
      validate_project_invariants project collate ≡ ok tt → IsProject
  unfolding validate_project_invariants
  validate_project_invariants-IsProject h =
      let p = (gather_iff _).0 ((throw_issues_iff (project_issues project collate)).0 h) in
      record {
        revisions_distinct = (validate_unique_ids_iff _ _).0 p.0;
        layers_distinct = (validate_unique_ids_iff _ _).0 p.1.0;
        documents_distinct = (validate_unique_ids_iff _ _).0 p.1.1.0;
        alignments_distinct = (validate_unique_ids_iff _ _).0 p.1.1.1.0;
        revisions = p.1.1.1.1.1.1.0;
        layers = p.1.1.1.1.1.1.1.0;
        view = p.1.1.1.1.1.1.1.1.0;
        alignments = p.1.1.1.1.1.1.1.1.1.0;
        selection = p.1.1.1.1.1.1.1.1.1.1.1.0;
      }

  -- What the view of a project names.
  pub record ViewFacts (view : ActiveView) : Type 0 where
    pub revision_known : includes view.analysis_revision_id (revision_ids project) ≡ true
    pub layer : EditLayer
    pub layer_found :
        map_get view.edit_layer_id (map (λ l. (l.id, l)) project.edit_layers) ≡ some layer
    pub base : layer.analysis_revision_id ≡ view.analysis_revision_id
    pub in_history : view.edit_history_position ≤ length layer.transactions
    pub alignment_known :
        (id : String)
        → view.lyrics_alignment_id ≡ some id
        → includes id (map (λ a. a.id) project.lyrics_alignments) ≡ true

  pub timeline_valid :
      (test : AnalysisRevision → Bool) (r : AnalysisRevision)
      → IsProject
      → find test project.analysis_revisions ≡ some r
      → validate_timeline_invariants collate r.timeline project.duration_samples ≡ ok tt
  unfolding validate_timeline_invariants revision_issues
  timeline_valid test r v found =
      let checked : revision_issues project collate r ≡ [] =
        All-find (λ x. revision_issues project collate x ≡ []) test project.analysis_revisions r
          ((for_each_iff _ (revision_issues project collate) (λ x. (λ h. h, λ h. h)) _).0
            v.revisions)
          found in
      (throw_issues_iff _).1 (map-eq-nil _ _ ((gather_iff _).0 checked).1.1.0)

  pub transactions_distinct :
      (test : EditLayer → Bool) (l : EditLayer)
      → IsProject
      → find test project.edit_layers ≡ some l
      → AllDistinct (map (λ t. t.id) l.transactions)
  unfolding layer_issues
  transactions_distinct test l v found =
      let checked : layer_issues project l ≡ [] =
        All-find (λ x. layer_issues project x ≡ []) test project.edit_layers l
          ((for_each_iff _ (layer_issues project) (λ x. (λ h. h, λ h. h)) _).0 v.layers) found in
      (validate_unique_ids_iff _ _).0 ((gather_iff _).0 checked).1.0

  pub alignment_valid :
      (test : LyricsAlignment → Bool) (a : LyricsAlignment)
      → IsProject
      → find test project.lyrics_alignments ≡ some a
      → (d : LyricsDocument) × (map_get a.lyrics_document_id
            (map (λ d. (d.id, d)) project.lyrics_documents)
          ≡ some d)
        × (validate_lyrics_alignment a d project.duration_samples ≡ ok tt)
  unfolding lyrics_issues validate_lyrics_alignment
  alignment_valid test a v found =
      let checked : lyrics_issues project a ≡ [] =
        All-find (λ x. lyrics_issues project x ≡ []) test project.lyrics_alignments a
          ((for_each_iff _ (lyrics_issues project) (λ x. (λ h. h, λ h. h)) _).0 v.alignments)
          found in
      let last = ((gather_iff _).0 checked).1.1.0 in
      elim (Option-cases
        (map_get a.lyrics_document_id (map (λ d. (d.id, d)) project.lyrics_documents))) [
          | inl missing ↦ absurd (ground arith)
          | inr (d, there) ↦ (d, there, (throw_issues_iff _).1 (ground arith))
        ]

  pub view_facts :
      (view : ActiveView) → IsProject → project.active_view ≡ some view → ViewFacts view
  unfolding view_issues
  view_facts view v active =
      let checked : view_issues project (some view) ≡ [] =
        ap (view_issues project) (sym active) ∙ v.view in
      let p = (gather_iff _).0 checked in
      let revision = p.0 in
      let based = p.1.0 in
      let alignment = p.1.1.1.1.0 in
      elim (Option-cases (map_get view.edit_layer_id (map (λ l. (l.id, l)) project.edit_layers))) [
        | inl missing ↦ absurd (ground arith)
        | inr (layer, found) ↦ record {
          revision_known = ground arith;
          layer = layer;
          layer_found = found;
          base = ground (arith, eq_iff layer.analysis_revision_id view.analysis_revision_id);
          in_history = ground arith;
          alignment_known = λ id chosen. ground arith;
        }
      ]

  pub selection_base :
      (view : ActiveView) (id : String) (a : LyricsAlignment)
      → IsProject
      → project.active_view ≡ some view
      → view.lyrics_alignment_id ≡ some id
      → map_get id (map (λ a. (a.id, a)) project.lyrics_alignments) ≡ some a
      → a.analysis_revision_id ≡ view.analysis_revision_id
  unfolding selected_issues
  selection_base view id a v active chosen found =
      let checked : selected_issues project (some view) ≡ [] =
        ap (selected_issues project) (sym active) ∙ v.selection in
      ground (arith, eq_iff a.analysis_revision_id view.analysis_revision_id)

-- ===== src/EditHistory/Total.antt =====
-- A review walks the history the way that the effective timeline does, and ends.
use open_chords.Prelude.{
  ℕ, zero, suc, ◌+◌, ◌≡◌, refl, ap, sym, ◌∙◌, inl, inr, String, Bool, Option, none, some, List, [],
  ◌∷◌, map, arith, ◌===◌, Bool-cases, find, length, ok,
}
use open_chords.Schema.{AnalysisRevision, EditTransaction, EditLayer, ProjectContract}
use open_chords.Invariants.Checks.Ids.{AllDistinct}
use open_chords.Invariants.Project.{validate_project_invariants}
use open_chords.Invariants.Project.Facts
use open_chords.Projection.Chain.{at_position, parent_of, walk, history}
use open_chords.Projection.Lookup.{map_get-eq-find}
use open_chords.Projection.Committed.{validate_committed_edit_layer_projections}
use open_chords.Projection.Committed.Histories.{history_total}
use open_chords.EditHistory.{
  EditMappingAction, ReviewedMapping, parent_found, source_chain, refused, unfit, reviewed,
  review_found, review_edit_mapping,
}

parent_found-eq-parent_of :
    (all : List EditTransaction) (id : Option String)
    → AllDistinct (map (λ t. t.id) all)
    → parent_found all id ≡ parent_of all id
parent_found-eq-parent_of all none d = refl
parent_found-eq-parent_of all (some id) d = sym (map_get-eq-find (λ t. t.id) id all d)

-- Where no transaction id occurs twice, the review and the effective timeline walk alike.
pub source_chain-eq-walk :
    (fuel : ℕ) (all : List EditTransaction) (selected : Option EditTransaction)
    (chain : List EditTransaction)
    → AllDistinct (map (λ t. t.id) all)
    → source_chain fuel all selected chain ≡ walk fuel all selected chain
unfolding source_chain walk
source_chain-eq-walk zero all none chain d = refl
source_chain-eq-walk (suc fuel) all none chain d = refl
source_chain-eq-walk zero all (some t) chain d = refl
source_chain-eq-walk (suc fuel) all (some t) chain d =
    ap (λ p. source_chain fuel all p (t ∷ chain))
      (parent_found-eq-parent_of all t.parent_transaction_id d)
    ∙ source_chain-eq-walk fuel all (parent_of all t.parent_transaction_id) (t ∷ chain) d

module _ (collate : String → String → Bool) (project : ProjectContract) where
  review_found_total :
      (id : String) (source : Option EditLayer) (target : Option AnalysisRevision)
      (action : EditMappingAction)
      → validate_project_invariants project collate ≡ ok tt
      → validate_committed_edit_layer_projections collate project ≡ ok tt
      → find (λ l. l.id === id) project.edit_layers ≡ source
      → (result : ReviewedMapping) × (review_found source target action ≡ ok result)
  unfolding review_found history
  review_found_total id none target action checked committed e = (refused action, refl)
  review_found_total id (some source) none action checked committed e = (refused action, refl)
  review_found_total id (some source) (some target) action checked committed e =
      elim (Bool-cases (unfit source target action)) [
        | inl bad ↦ (refused action, rw bad refl)
        | inr good ↦
            let (chain, found) =
              history_total collate project id source action.source_history_position checked
                committed e (ground arith) in
            let v = Facts.validate_project_invariants-IsProject collate project checked in
            let walked =
              source_chain-eq-walk (length source.transactions + 2) source.transactions
                (at_position source.transactions action.source_history_position) []
                (Facts.transactions_distinct collate project _ source v e)
              ∙ found in
            (reviewed source target action chain, rw (good, walked) refl)
      ]

  -- In a project whose checks throw nothing, every review of a mapping ends with a result.
  pub review_edit_mapping_total :
      (action : EditMappingAction)
      → validate_project_invariants project collate ≡ ok tt
      → validate_committed_edit_layer_projections collate project ≡ ok tt
      → (result : ReviewedMapping) × (review_edit_mapping project action ≡ ok result)
  unfolding review_edit_mapping
  review_edit_mapping_total action checked committed =
      review_found_total action.source_edit_layer_id _ _ action checked committed refl

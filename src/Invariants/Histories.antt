-- ===== src/Invariants/Histories.antt =====
-- packages/domain/src/invariants.ts: the checks of edit layers in `validateProjectInvariants`.
use open_chords.Prelude.{
  String, Bool, false, not, Option, none, some, List, [], ◌∷◌, ◌++◌, map, ◌===◌, template, some_of,
  lookup, map_get, map_set, map_has, map_delete, map_values, includes,
}
use open_chords.Schema.{
  LyricsAnchor, LyricsAlignment, EditOperation, EditTransaction, EditLayer, ProjectContract,
}
use open_chords.Invariants.Checks.{push_if, validate_unique_ids}
use open_chords.Invariants.Gather.{gather}
use open_chords.Invariants.Anchors.{anchor_issues}

abbrev pub Anchors : Type 0
Anchors = List (String × LyricsAnchor)

abbrev pub alignments_by_id : ProjectContract → List (String × LyricsAlignment)
alignments_by_id project = map (λ a. (a.id, a)) project.lyrics_alignments

-- What an operation does to the anchors of its transaction.
unfoldable pub edit_anchors : EditOperation → Anchors → Anchors
edit_anchors (EditOperation.set_lyrics_anchor anchor) anchors = map_set anchor.id anchor anchors
edit_anchors (EditOperation.remove_lyrics_anchor id) anchors = map_delete id anchors
edit_anchors _ anchors = anchors

unfoldable pub timing_scope :
    EditTransaction
    → EditLayer
    → Option LyricsAlignment
    → (LyricsAlignment → Bool)
    → String
    → List String
timing_scope t layer none known what =
    template (t.id ∷ " references unknown Lyrics Alignment" ∷ []) ∷ []
timing_scope t layer (some alignment) known what =
    push_if (not (alignment.analysis_revision_id === layer.analysis_revision_id))
      (template (t.id ∷ " Lyrics Alignment belongs to another Analysis Revision" ∷ []))
      (push_if (not (known alignment)) (template (t.id ∷ " references unknown " ∷ what ∷ [])) [])

unfoldable pub operation_issues :
    ProjectContract → EditLayer → EditTransaction → EditOperation → Anchors → List String
unfolding timing_scope
operation_issues project layer t (EditOperation.remove_lyrics_anchor id) anchors =
    push_if (not (map_has id anchors))
      (template (t.id ∷ " references an unknown Lyrics Anchor" ∷ [])) []
operation_issues project layer t (EditOperation.set_lyrics_timing id timing token_id) anchors =
    timing_scope t layer (map_get id (alignments_by_id project))
      (λ a. some_of (λ o. o.token_id === token_id) a.occurrences) "Lyrics Token Occurrence"
operation_issues project layer t (EditOperation.set_lyrics_line_timing id line_id timing) anchors =
    timing_scope t layer (map_get id (alignments_by_id project))
      (λ a. some_of (λ o. o.line_id === line_id) a.line_occurrences) "Lyrics Line Occurrence"
operation_issues project layer t _ anchors = []

-- The loop over the operations, with the check of the anchors that they leave.
unfoldable pub operations_issues :
    ProjectContract → EditLayer → EditTransaction → List EditOperation → Anchors → List String
unfolding operation_issues
operations_issues project layer t [] anchors =
    anchor_issues (map_values anchors) project layer.analysis_revision_id
operations_issues project layer t (operation ∷ rest) anchors =
    operation_issues project layer t operation anchors
    ++ operations_issues project layer t rest (edit_anchors operation anchors)

unfoldable pub anchors_after : List EditOperation → Anchors → Anchors
unfolding edit_anchors
anchors_after [] anchors = anchors
anchors_after (operation ∷ rest) anchors = anchors_after rest (edit_anchors operation anchors)

abbrev pub anchors_before : List (String × Anchors) → Option String → Anchors
anchors_before anchor_history none = []
anchors_before anchor_history (some id) = elim (lookup id anchor_history) [
  | none ↦ []
  | some anchors ↦ anchors
]

abbrev pub is_orphan : List String → Option String → Bool
is_orphan preceding none = false
is_orphan preceding (some id) = not (includes id preceding)

-- The loop over the transactions, with the ids and the anchors of those before.
unfoldable pub transactions_issues :
    ProjectContract
    → EditLayer
    → List String
    → List (String × Anchors)
    → List EditTransaction
    → List String
unfolding operations_issues anchors_after
transactions_issues project layer preceding anchor_history [] = []
transactions_issues project layer preceding anchor_history (t ∷ rest) =
    let anchors = anchors_before anchor_history t.parent_transaction_id in
    push_if (is_orphan preceding t.parent_transaction_id)
      (template (t.id ∷ " parent must be an earlier transaction in " ∷ layer.id ∷ [])) []
    ++ (operations_issues project layer t t.operations anchors
        ++ transactions_issues project layer (t.id ∷ preceding)
            ((t.id, anchors_after t.operations anchors) ∷ anchor_history) rest)

unfoldable pub layer_issues : ProjectContract → EditLayer → List String
unfolding transactions_issues
layer_issues project layer = gather (
    push_if (not (includes layer.analysis_revision_id (map (λ r. r.id) project.analysis_revisions)))
      (template (layer.id ∷ " references unknown Analysis Revision" ∷ [])) []
    ∷ validate_unique_ids (map (λ t. t.id) layer.transactions)
        (template ("transactions in " ∷ layer.id ∷ []))
    ∷ transactions_issues project layer [] [] layer.transactions
    ∷ [])

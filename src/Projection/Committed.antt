-- ===== src/Projection/Committed.antt =====
-- packages/domain/src/projection.ts: `validateCommittedEditLayerProjections`. The map of the
-- projections is kept with the entry that was set last in front.
pub mod Agree
pub mod Reached
pub mod Histories
pub mod Located
pub mod Total
use open_chords.Prelude.{
  String, Bool, Option, none, some, List, [], ◌∷◌, map, ◌===◌, template, find, keep, lookup,
  map_get, Result, ok, ◌>>=◌, ◌>>◌, if◌then◌else◌,
}
use open_chords.Schema.{
  MusicalTimeline, LyricsAlignment, EditOperation, EditTransaction, EditLayer, ProjectContract,
}
use open_chords.Invariants.Timeline.{validate_timeline_invariants}
use open_chords.Invariants.Lyrics.{validate_lyrics_alignment}
use open_chords.Projection.Find.{or_throw}
use open_chords.Projection.Apply.{apply_operation}

pub record CommittedState : Type 0 where
  pub lyrics_alignments : List LyricsAlignment
  pub timeline : MusicalTimeline

-- The alignment that an operation names, where it sets a timing.
abbrev pub timed_alignment : EditOperation → Option String
timed_alignment (EditOperation.set_lyrics_timing id timing token_id) = some id
timed_alignment (EditOperation.set_lyrics_line_timing id line_id timing) = some id
timed_alignment _ = none

-- The first alignment of the id, after it was changed in place.
unfoldable pub put_back :
    String → Option LyricsAlignment → List LyricsAlignment → List LyricsAlignment
put_back id changed [] = []
put_back id none (a ∷ rest) = a ∷ rest
put_back id (some changed) (a ∷ rest) =
    if a.id === id then changed ∷ rest else a ∷ put_back id (some changed) rest

unfoldable pub commit_named : Option String → CommittedState → EditOperation → Result CommittedState
commit_named none s operation = do
  s' ← apply_operation (record { timeline = s.timeline; lyrics_alignment = none }) operation
  ok (record s { timeline = s'.timeline })
commit_named (some id) s operation = do
  alignment ←
      or_throw (find (λ a. a.id === id) s.lyrics_alignments)
        (template ("Edit references unknown Lyrics Alignment " ∷ id ∷ []))
  s' ←
      apply_operation (record { timeline = s.timeline; lyrics_alignment = some alignment })
        operation
  ok (record {
    timeline = s'.timeline;
    lyrics_alignments = put_back id s'.lyrics_alignment s.lyrics_alignments;
  })

unfoldable pub commit_operation : CommittedState → EditOperation → Result CommittedState
unfolding commit_named
commit_operation s operation = commit_named (timed_alignment operation) s operation

unfoldable pub commit_operations : CommittedState → List EditOperation → Result CommittedState
commit_operations s [] = ok s
commit_operations s (operation ∷ rest) =
    commit_operation s operation >>= λ s'. commit_operations s' rest

-- `projections`, and the state that a transaction starts from.
unfoldable pub parent_state :
    CommittedState → List (String × CommittedState) → Option String → Result CommittedState
parent_state initial projections none = ok initial
parent_state initial projections (some id) =
    or_throw (lookup id projections) "Edit transaction parent was not validated"

module _ (collate : String → String → Bool) (project : ProjectContract) where
  unfoldable pub validate_alignments : List LyricsAlignment → Result (Unit {0})
  validate_alignments [] = ok tt
  validate_alignments (a ∷ rest) = do
    document ←
        or_throw (map_get a.lyrics_document_id (map (λ d. (d.id, d)) project.lyrics_documents))
          "Lyrics Alignment document was not validated"
    validate_lyrics_alignment a document project.duration_samples
    validate_alignments rest

  unfoldable pub commit_transaction :
      CommittedState → List (String × CommittedState) → EditTransaction → Result CommittedState
  commit_transaction initial projections t = do
    parent ← parent_state initial projections t.parent_transaction_id
    projection ← commit_operations parent t.operations
    validate_timeline_invariants collate projection.timeline project.duration_samples
    validate_alignments projection.lyrics_alignments
    ok projection

  unfoldable pub commit_transactions :
      CommittedState → List (String × CommittedState) → List EditTransaction → Result (Unit {0})
  commit_transactions initial projections [] = ok tt
  commit_transactions initial projections (t ∷ rest) =
      commit_transaction initial projections t >>= λ projection.
      commit_transactions initial ((t.id, projection) ∷ projections) rest

  unfoldable pub validate_layer : EditLayer → Result (Unit {0})
  validate_layer layer = do
    revision ←
        or_throw (find (λ r. r.id === layer.analysis_revision_id) project.analysis_revisions)
          "Edit Layer revision was not validated"
    commit_transactions
        (record {
          lyrics_alignments =
              keep (λ a. a.analysis_revision_id === layer.analysis_revision_id)
                project.lyrics_alignments;
          timeline = revision.timeline;
        })
        [] layer.transactions

  unfoldable pub validate_layers : List EditLayer → Result (Unit {0})
  validate_layers [] = ok tt
  validate_layers (layer ∷ rest) = validate_layer layer >> validate_layers rest

  unfoldable pub validate_committed_edit_layer_projections : Result (Unit {0})
  unfolding validate_layers
  validate_committed_edit_layer_projections = validate_layers project.edit_layers

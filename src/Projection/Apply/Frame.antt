-- ===== src/Projection/Apply/Frame.antt =====
-- What no operation changes.
use open_chords.Prelude.{◌≡◌, List, [], ◌∷◌, arith, ok, >>=-eq-ok}
use open_chords.Schema.{MusicalTimeline, EditOperation, EditTransaction}
use open_chords.Projection.Apply.{
  ProjectionState, apply_operation, apply_operations, apply_transactions,
}

abbrev pub SameRegions : MusicalTimeline → MusicalTimeline → Type 0
SameRegions t u = (u.key_regions ≡ t.key_regions) × (u.unmetered_regions ≡ t.unmetered_regions)

apply_operation-SameRegions :
    (s s' : ProjectionState) (operation : EditOperation)
    → apply_operation s operation ≡ ok s'
    → SameRegions s.timeline s'.timeline
unfolding apply_operation
apply_operation-SameRegions s s' (EditOperation.set_lyrics_anchor anchor) h = ground arith
apply_operation-SameRegions s s' _ h = ground arith

apply_operations-SameRegions :
    (s s' : ProjectionState) (operations : List EditOperation)
    → apply_operations s operations ≡ ok s'
    → SameRegions s.timeline s'.timeline
unfolding apply_operations
apply_operations-SameRegions s s' [] h = ground arith
apply_operations-SameRegions s s' (operation ∷ rest) h =
    let (mid, first, later) = >>=-eq-ok (apply_operation s operation) _ h in
    ground (
      arith,
      apply_operation-SameRegions s mid operation first,
      apply_operations-SameRegions mid s' rest later,
    )

-- Whatever edits are made, the keys and the unmetered regions of the timeline stay.
pub apply_transactions-SameRegions :
    (s s' : ProjectionState) (transactions : List EditTransaction)
    → apply_transactions s transactions ≡ ok s'
    → SameRegions s.timeline s'.timeline
unfolding apply_transactions
apply_transactions-SameRegions s s' [] h = ground arith
apply_transactions-SameRegions s s' (t ∷ ts) h =
    let (mid, first, later) = >>=-eq-ok (apply_operations s t.operations) _ h in
    ground (
      arith,
      apply_operations-SameRegions s mid t.operations first,
      apply_transactions-SameRegions mid s' ts later,
    )

-- ===== src/LyricsAnchors/Resolved.antt =====
-- The anchors of a checked project resolve, and each is of what the view shows, with an id of its own.
use open_chords.Prelude.{
  ◌≡◌, refl, ap, sym, subst, ◌∙◌, inl, inr, String, Bool, true, false, Option, none, some, List, [],
  ◌∷◌, eq_iff, ◌===◌, Bool-cases, find, keep, map_set, map_delete, map_values, All, ok, >>=-eq-ok,
}
use open_chords.Schema.{
  LyricsAnchor, EditOperation, EditTransaction, EditLayer, ActiveView, ProjectContract,
}
use open_chords.Invariants.Project.{validate_project_invariants}
use open_chords.Projection.Find.{or_throw}
use open_chords.Projection.Chain.{history}
use open_chords.Projection.Materialize.{materialize_view, materialize_effective_timeline}
use open_chords.Projection.Committed.{validate_committed_edit_layer_projections}
use open_chords.Projection.Committed.Total.{materialize_total}
use open_chords.LyricsAnchors.{
  set_or_delete, after_operations, after_chain, is_of, resolve_in, resolve_lyrics_anchors,
}

-- No id occurs twice.
abbrev pub DistinctIds : List LyricsAnchor → Type 0
DistinctIds [] = Unit
DistinctIds (a ∷ anchors) = All (λ b. (a.id === b.id) ≡ false) anchors × DistinctIds anchors

-- A Map of anchors under their ids.
abbrev Keys : List (String × LyricsAnchor) → Type 0
Keys [] = Unit
Keys ((k, a) ∷ entries) = (k ≡ a.id) × All (λ entry. (k === entry.0) ≡ false) entries × Keys entries

other_set :
    (k id : String) (a : LyricsAnchor) (entries : List (String × LyricsAnchor))
    → (k === id) ≡ false
    → All (λ entry. (k === entry.0) ≡ false) entries
    → All (λ entry. (k === entry.0) ≡ false) (map_set id a entries)
unfolding map_set
other_set k id a [] n h = (n, tt)
other_set k id a ((k', b) ∷ entries) n (o, h) = elim (Bool-cases (k' === id)) [
  | inl same ↦ rw same (o, h)
  | inr other ↦ rw other (o, other_set k id a entries n h)
]

set-Keys :
    (a : LyricsAnchor) (entries : List (String × LyricsAnchor))
    → Keys entries
    → Keys (map_set a.id a entries)
unfolding map_set
set-Keys a [] h = (refl, tt, tt)
set-Keys a ((k, b) ∷ entries) (e, o, h) = elim (Bool-cases (k === a.id)) [
  | inl same ↦ rw same ((eq_iff k a.id).0 same, o, h)
  | inr other ↦ rw other (e, other_set k a.id a entries other o, set-Keys a entries h)
]

other_delete :
    (k id : String) (entries : List (String × LyricsAnchor))
    → All (λ entry. (k === entry.0) ≡ false) entries
    → All (λ entry. (k === entry.0) ≡ false) (map_delete id entries)
unfolding map_delete
other_delete k id [] h = tt
other_delete k id ((k', b) ∷ entries) (o, h) = elim (Bool-cases (k' === id)) [
  | inl same ↦ rw same h
  | inr other ↦ rw other (o, other_delete k id entries h)
]

delete-Keys :
    (id : String) (entries : List (String × LyricsAnchor))
    → Keys entries
    → Keys (map_delete id entries)
unfolding map_delete
delete-Keys id [] h = tt
delete-Keys id ((k, b) ∷ entries) (e, o, h) = elim (Bool-cases (k === id)) [
  | inl same ↦ rw same h
  | inr other ↦ rw other (e, other_delete k id entries o, delete-Keys id entries h)
]

step-Keys :
    (operation : EditOperation) (entries : List (String × LyricsAnchor))
    → Keys entries
    → Keys (set_or_delete operation entries)
step-Keys (EditOperation.set_lyrics_anchor a) entries h = set-Keys a entries h
step-Keys (EditOperation.remove_lyrics_anchor id) entries h = delete-Keys id entries h
step-Keys _ entries h = h

operations-Keys :
    (operations : List EditOperation) (entries : List (String × LyricsAnchor))
    → Keys entries
    → Keys (after_operations operations entries)
unfolding after_operations
operations-Keys [] entries h = h
operations-Keys (operation ∷ rest) entries h =
    operations-Keys rest _ (step-Keys operation entries h)

chain-Keys :
    (chain : List EditTransaction) (entries : List (String × LyricsAnchor))
    → Keys entries
    → Keys (after_chain chain entries)
unfolding after_chain
chain-Keys [] entries h = h
chain-Keys (t ∷ ts) entries h = chain-Keys ts _ (operations-Keys t.operations entries h)

other_kept :
    (test : LyricsAnchor → Bool) (k : String) (entries : List (String × LyricsAnchor))
    → Keys entries
    → All (λ entry. (k === entry.0) ≡ false) entries
    → All (λ b. (k === b.id) ≡ false) (keep test (map_values entries))
unfolding map_values keep
other_kept test k [] h o = tt
other_kept test k ((k', b) ∷ entries) (e, _, h) (n, o) = elim (Bool-cases (test b)) [
  | inl stays ↦ rw stays (sym (ap (λ x. k === x) e) ∙ n, other_kept test k entries h o)
  | inr goes ↦ rw goes (other_kept test k entries h o)
]

kept-DistinctIds :
    (test : LyricsAnchor → Bool) (entries : List (String × LyricsAnchor))
    → Keys entries
    → DistinctIds (keep test (map_values entries))
unfolding map_values keep
kept-DistinctIds test [] h = tt
kept-DistinctIds test ((k, a) ∷ entries) (e, o, h) = elim (Bool-cases (test a)) [
  | inl stays ↦ rw stays (
    subst (λ id. All (λ b. (id === b.id) ≡ false) (keep test (map_values entries))) e
        (other_kept test k entries h o),
    kept-DistinctIds test entries h,
  )
  | inr goes ↦ rw goes (kept-DistinctIds test entries h)
]

kept-All :
    (test : LyricsAnchor → Bool) (anchors : List LyricsAnchor)
    → All (λ a. test a ≡ true) (keep test anchors)
unfolding keep
kept-All test [] = tt
kept-All test (a ∷ anchors) = elim (Bool-cases (test a)) [
  | inl stays ↦ rw stays (stays, kept-All test anchors)
  | inr goes ↦ rw goes (kept-All test anchors)
]

module _ (collate : String → String → Bool) (project : ProjectContract) where
  found_of_or_throw :
      (o : Option EditLayer) (layer : EditLayer)
      → or_throw o "Active View references were not validated" ≡ ok layer
      → o ≡ some layer
  found_of_or_throw none layer h = cc
  found_of_or_throw (some other) layer h = cc

  resolve_in-ok :
      (view : ActiveView) (layer : EditLayer) (chain : List EditTransaction)
      → history layer.transactions view.edit_history_position ≡ ok chain
      → (anchors : List LyricsAnchor) × (resolve_in view (some layer) ≡ ok anchors)
        × All (λ a. is_of view a ≡ true) anchors
        × DistinctIds anchors
  unfolding resolve_in
  resolve_in-ok view layer chain h =
      let entries = after_chain chain [] in
      (
        keep (is_of view) (map_values entries),
        rw h refl,
        kept-All (is_of view) (map_values entries),
        kept-DistinctIds (is_of view) entries (chain-Keys chain [] tt),
      )

  -- In a project whose checks throw nothing, the anchors of the active view resolve; they are of the
  -- document and the revision of the view, and no two have one id.
  pub resolve_lyrics_anchors_total :
      (view : ActiveView)
      → validate_project_invariants project collate ≡ ok tt
      → validate_committed_edit_layer_projections collate project ≡ ok tt
      → project.active_view ≡ some view
      → (anchors : List LyricsAnchor) × (resolve_lyrics_anchors project ≡ ok anchors)
        × All (λ a. is_of view a ≡ true) anchors
        × DistinctIds anchors
  unfolding resolve_lyrics_anchors materialize_effective_timeline materialize_view
  resolve_lyrics_anchors_total view checked committed active =
      let (e, m) = materialize_total collate project view checked committed active in
      let (r, _, h1) =
        >>=-eq-ok
          (or_throw (find (λ r. r.id === view.analysis_revision_id) project.analysis_revisions)
            "Active View references were not validated")
          _ (rw active at m) in
      let (layer, l, h2) =
        >>=-eq-ok
          (or_throw (find (λ l. l.id === view.edit_layer_id) project.edit_layers)
            "Active View references were not validated")
          _ h1 in
      let (chain, walked, _) =
        >>=-eq-ok (history layer.transactions view.edit_history_position) _ h2 in
      rw (active, found_of_or_throw _ layer l) (resolve_in-ok view layer chain walked)

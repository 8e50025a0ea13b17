-- ===== src/Draft/Update/Saved.antt =====
-- What a draft commits when it is saved.
use open_chords.Prelude.{
  ℕ, ◌≡◌, refl, ap, subst, ◌∙◌, ◌⊎◌, inl, inr, String, Bool, true, false, not, ◌||◌, Option, none,
  some, List, [], ◌∷◌, arith, length, includes, ltb, ◌===◌, Result, endless, err, ok, error,
  invariants, ◌>>=◌, both_ok, throw_if_ok, Bool-cases, some_of,
}
use open_chords.Schema.{ChordValue, SequenceEvent, EditTransaction, EditLayer, ProjectContract}
use open_chords.Parsing.{parse_project_contract, parse_project_contract_iff}
use open_chords.Projection.Committed.Total.{materialize_total}
use open_chords.Projection.Materialize.{EffectiveTimeline, materialize_effective_timeline}
use open_chords.Draft.{DraftInput, draft_key, same_key, Editor, DraftState, initial_state}
use open_chords.Draft.Update.Suffix.{free_suffix_lem}
use open_chords.Draft.Update.{
  draft_id, transaction_ids, candidate, caught_errors, grid_errors, draft_transaction, active_layer,
  suffix_of, Side, is_dirty, check_candidate, check_draft, draft_errors, update, reconcile,
  mark_reviewed, set_chord, set_duration, move_source, move, transaction, reset,
}

-- A call of a method of the draft.
pub data DraftAction : Type 0 where
  reviews : String → DraftAction
  sets_chord : String → ChordValue → DraftAction
  sets_duration : String → ℕ → DraftAction
  moves : (id target : String) → Side → DraftAction
  reconciles : DraftInput → DraftAction
  resets : DraftAction

-- The project with the transaction under the id of the check.
abbrev pub committed : Editor → EditLayer → EditTransaction → ℕ → ProjectContract
committed editor layer t suffix = candidate editor layer (record t { id = draft_id suffix })

pub the_state : {s s' : DraftState} → ok s ≡ ok s' → s ≡ s'
the_state h = cc

module _ (collate : String → String → Bool) (accepts : ProjectContract → Bool)
    (editor : Editor) where
  abbrev pub act : DraftState → DraftAction → Result DraftState
  act s (reviews id) = mark_reviewed collate accepts editor s id
  act s (sets_chord id value) = set_chord collate accepts editor s id value
  act s (sets_duration id duration) = set_duration collate accepts editor s id duration
  act s (moves id target side) = move collate accepts editor s id target side
  act s (reconciles next) = ok (reconcile editor s next)
  act s resets = ok (reset editor s)

  -- The states of the store. A call that throws leaves the state.
  pub data Reaches : DraftState → Type 0 where
    created : Reaches (initial_state editor)
    acted : {s s' : DraftState} (a : DraftAction) → act s a ≡ ok s' → Reaches s → Reaches s'

  -- The errors of a changed draft are those of its check.
  abbrev IsChecked : DraftState → Type 0
  IsChecked s =
      (s.dirty ≡ false)
      ⊎ (draft_errors collate accepts editor true s.events s.reviewed_ids ≡ ok s.errors)

  -- The state that an update stores.
  abbrev stored : DraftState → List SequenceEvent → List String → Bool → List String → DraftState
  stored s events reviewed dirty errors = record s {
    events = events;
    dirty = dirty;
    errors = errors;
    reviewed_ids = reviewed;
  }

  stored-IsChecked :
      (s s' : DraftState) (events : List SequenceEvent) (reviewed : List String) (dirty : Bool)
      (errors : Result (List String))
      → draft_errors collate accepts editor dirty events reviewed ≡ errors
      → (errors >>= λ found. ok (stored s events reviewed dirty found)) ≡ ok s'
      → IsChecked s'
  stored-IsChecked s s' events reviewed dirty (err thrown) e h = cc
  stored-IsChecked s s' events reviewed false (ok found) e h =
      subst IsChecked (the_state h) (inl refl)
  stored-IsChecked s s' events reviewed true (ok found) e h = subst IsChecked (the_state h) (inr e)

  update-IsChecked :
      (s s' : DraftState) (events : List SequenceEvent) (reviewed : List String)
      → update collate accepts editor s events reviewed ≡ ok s'
      → IsChecked s'
  unfolding update
  update-IsChecked s s' events reviewed h =
      stored-IsChecked s s' events reviewed (is_dirty editor events reviewed) _ refl h

  source-IsChecked :
      (s s' : DraftState) (id target : String) (side : Side) (source : Option SequenceEvent)
      → move_source collate accepts editor s id target side source ≡ ok s'
      → IsChecked s'
  source-IsChecked s s' id target side none h = cc
  source-IsChecked s s' id target side (some source) h =
      elim (Bool-cases (some_of (λ e. e.id === target) s.events)) [
        | inl there ↦ update-IsChecked s s' _ _ (rw there at h)
        | inr gone ↦ let k = rw gone at h in cc
      ]

  act-IsChecked :
      (s s' : DraftState) (a : DraftAction) → act s a ≡ ok s' → IsChecked s → IsChecked s'
  unfolding mark_reviewed set_chord set_duration move reconcile
  act-IsChecked s s' (reviews id) h k = elim (Bool-cases (some_of (λ e. e.id === id) s.events)) [
    | inl there ↦ update-IsChecked s s' _ _ (rw there at h)
    | inr gone ↦ let k = rw gone at h in cc
  ]
  act-IsChecked s s' (sets_chord id value) h k = update-IsChecked s s' _ _ h
  act-IsChecked s s' (sets_duration id duration) h k = update-IsChecked s s' _ _ h
  act-IsChecked s s' (moves id target side) h k = elim (Bool-cases (id === target)) [
    | inl same ↦ subst IsChecked (the_state (rw same at h)) k
    | inr other ↦ source-IsChecked s s' id target side _ (rw other at h)
  ]
  act-IsChecked s s' (reconciles next) h k =
      elim (Bool-cases (same_key (draft_key next) editor.key)) [
        | inl same ↦ subst IsChecked (the_state (rw same at h)) k
        | inr other ↦ subst IsChecked (the_state (rw other at h)) k
      ]
  act-IsChecked s s' resets h k = subst IsChecked (the_state h) (inl refl)

  Reaches-IsChecked : (s : DraftState) → Reaches s → IsChecked s
  Reaches-IsChecked s created = inl refl
  Reaches-IsChecked s (acted {s = before} a h reached) =
      act-IsChecked before s a h (Reaches-IsChecked before reached)

  none_long : (errors : List String) → ltb 0 (length errors) ≡ false → errors ≡ []
  none_long [] h = refl
  none_long (e ∷ errors) h = absurd (ground arith)

  ready :
      (s : DraftState) (id : String) (t : EditTransaction)
      → transaction editor s id ≡ ok t
      → (s.dirty ≡ true)
        × (s.errors ≡ [])
        × (draft_transaction editor s.events s.reviewed_ids id ≡ t)
  unfolding transaction
  ready s id t h = elim (Bool-cases (s.stale || (not s.dirty || ltb 0 (length s.errors)))) [
    | inl refused ↦ let k = rw refused at h in cc
    | inr saved ↦ let k = rw saved at h in (ground arith, none_long s.errors (ground arith), cc)
  ]

  caught_none :
      (errors : List String) (r : Result (Unit {0}))
      → caught_errors errors r ≡ ok []
      → (errors ≡ []) × (r ≡ ok tt)
  caught_none errors (ok tt) h = (cc, refl)
  caught_none errors (err endless) h = cc
  caught_none [] (err (error message)) h = cc
  caught_none [] (err (invariants issues)) h = cc
  caught_none (e ∷ errors) (err (error message)) h = cc
  caught_none (e ∷ errors) (err (invariants issues)) h = cc

  -- What holds of a transaction that is saved.
  abbrev pub Commits : EditTransaction → EditLayer → ℕ → Type 0
  Commits t layer suffix =
      (active_layer editor ≡ some layer)
      × (includes (draft_id suffix) (transaction_ids editor.project.edit_layers) ≡ false)
      × (accepts (committed editor layer t suffix) ≡ true)
      × (parse_project_contract collate (committed editor layer t suffix) ≡ ok tt)

  checked-Commits :
      (s : DraftState) (id : String) (layer : EditLayer) (suffix : Option ℕ)
      → active_layer editor ≡ some layer
      → suffix_of editor layer ≡ suffix
      → check_candidate collate accepts editor s.events s.reviewed_ids layer suffix ≡ ok tt
      → (n : ℕ) × Commits (draft_transaction editor s.events s.reviewed_ids id) layer n
  checked-Commits s id layer none found chosen h = cc
  checked-Commits s id layer (some n) found chosen h =
      let (accepted, parsed) = both_ok _ _ h in
      (n, (found, free_suffix_lem _ _ _ n chosen, ground (arith, throw_if_ok _ _ accepted), parsed))

  draft-Commits :
      (s : DraftState) (id : String) (layer : Option EditLayer)
      → active_layer editor ≡ layer
      → check_draft collate accepts editor s.events s.reviewed_ids ≡ ok tt
      → (l : EditLayer) × (n : ℕ) × Commits
          (draft_transaction editor s.events s.reviewed_ids id)
          l
          n
  unfolding check_draft
  draft-Commits s id none e h = let k = rw e at h in cc
  draft-Commits s id (some layer) e h =
      let (n, commits) = checked-Commits s id layer (suffix_of editor layer) e refl (rw e at h) in
      (layer, n, commits)

  state-Commits :
      (s : DraftState) (id : String)
      → s.dirty ≡ true
      → s.errors ≡ []
      → IsChecked s
      → (grid_errors editor s.events ≡ [])
        × (l : EditLayer) × (n : ℕ) × Commits
            (draft_transaction editor s.events s.reviewed_ids id)
            l
            n
  unfolding draft_errors
  state-Commits s id dirty clean (inl h) = absurd (ground arith)
  state-Commits s id dirty clean (inr h) =
      let (on_grid, checked) = caught_none _ _ (h ∙ ap (λ errors. ok errors) clean) in
      let (layer, n, commits) = draft-Commits s id (active_layer editor) refl checked in
      (on_grid, layer, n, commits)

  -- A transaction that a draft gives to save, after any calls of its methods, can be committed: with it
  -- at the end of the layer of the view, under an id that no transaction has, the schema accepts the
  -- project, `parseProjectContract` does, and the timeline of the view behind the transaction can be
  -- materialized; and every boundary of its events is on the grid.
  pub transaction-Commits :
      (s : DraftState) (id : String) (t : EditTransaction)
      → Reaches s
      → transaction editor s id ≡ ok t
      → (layer : EditLayer) × (suffix : ℕ) × Commits t layer suffix
        × (grid_errors editor s.events ≡ [])
        × (e : EffectiveTimeline) × (materialize_effective_timeline collate
              (committed editor layer t suffix)
            ≡ ok e)
  transaction-Commits s id t reached h =
      let (dirty, clean, same) = ready s id t h in
      let (on_grid, layer, suffix, commits) =
        state-Commits s id dirty clean (Reaches-IsChecked s reached) in
      let (found, free, accepted, parsed) = subst (λ t. Commits t layer suffix) same commits in
      let (version, checked, projected, loop) =
        (parse_project_contract_iff collate (committed editor layer t suffix)).0 parsed in
      let (e, done) =
        materialize_total collate (committed editor layer t suffix) _ checked projected refl in
      (layer, suffix, (found, free, accepted, parsed), on_grid, e, done)

-- ===== src/Draft/Update/Arranged.antt =====
-- Where a draft puts its events, whatever was done to it before.
use open_chords.Prelude.{
  ℕ, ◌≡◌, refl, subst, ◌∙◌, inl, inr, String, Bool, not, Option, none, some, List, [], ◌∷◌, map,
  arith, keep, find, includes, some_of, ◌===◌, Result, ok, throw_if, >>=-eq-ok, Bool-cases,
}
use open_chords.Schema.{ChordEvent, SequenceEvent, ActiveView, ProjectContract}
use open_chords.Invariants.Checks.Cover.{Tiles}
use open_chords.Draft.{
  DraftInput, draft_key, same_key, Editor, DraftState, event_of, create_active, create_editor_draft,
}
use open_chords.Draft.Update.{
  base_start, resize, Side, moved_events, is_dirty, draft_errors, update, mark_reviewed, set_chord,
  set_duration, move_source, move, reconcile,
}
use open_chords.Draft.Update.Saved.{
  DraftAction, reviews, sets_chord, sets_duration, moves, reconciles, resets, act, Reaches, created,
  acted, the_state,
}
use open_chords.Draft.Update.Tiles.{
  lengths, with_length, Ordered, Follows, reflow-Follows, lengths-reflow, Follows-Ordered,
  resize-Ordered, lengths-resize, revalue-Ordered, keep-Ordered, find-Ordered, splice-Ordered,
}
use open_chords.Invariants.Timeline.{chord_interval}
use open_chords.Projection.Find.{or_throw}
use open_chords.Projection.Materialize.{materialize_effective_timeline}
use open_chords.Projection.Materialize.Valid.{materialize-IsTimeline}
use open_chords.Draft.{base_of, missing}

module _ (collate : String → String → Bool) (accepts : ProjectContract → Bool)
    (editor : Editor) where
  abbrev the_act : DraftState → DraftAction → Result DraftState
  the_act s a = act collate accepts editor s a

  update_events :
      (s s' : DraftState) (events : List SequenceEvent) (reviewed : List String)
      → update collate accepts editor s events reviewed ≡ ok s'
      → s'.events ≡ events
  unfolding update
  update_events s s' events reviewed h =
      let (errors, checked, done) =
        >>=-eq-ok
          (draft_errors collate accepts editor (is_dirty editor events reviewed) events reviewed) _
          h in
      cc

  -- The events after a move, from those before it.
  source_events :
      (s s' : DraftState) (id target : String) (side : Side) (source : Option SequenceEvent)
      → move_source collate accepts editor s id target side source ≡ ok s'
      → Ordered s.events
      → find (λ e. e.id === id) s.events ≡ source
      → Follows (base_start editor.base) s'.events
  source_events s s' id target side none h k e = cc
  source_events s s' id target side (some source) h k e =
      elim (Bool-cases (some_of (λ e. e.id === target) s.events)) [
        | inl there ↦
            let remaining = keep (λ e. not (e.id === id)) s.events in
            let arranged : Ordered (moved_events s.events source id target side) =
              splice-Ordered _ source remaining
                (find-Ordered (λ e. e.id === id) s.events source k e)
                (keep-Ordered (λ e. not (e.id === id)) s.events k) in
            rw (update_events s s' _ _ (rw there at h))
              (reflow-Follows (base_start editor.base) _ arranged)
        | inr gone ↦ let k = rw gone at h in cc
      ]

  act-Ordered :
      (s s' : DraftState) (a : DraftAction)
      → the_act s a ≡ ok s'
      → Ordered editor.base
      → Ordered s.events
      → Ordered s'.events
  unfolding mark_reviewed set_chord set_duration move reconcile
  act-Ordered s s' (reviews id) h b k = elim (Bool-cases (some_of (λ e. e.id === id) s.events)) [
    | inl there ↦ rw (update_events s s' _ _ (rw there at h)) k
    | inr gone ↦ let k = rw gone at h in cc
  ]
  act-Ordered s s' (sets_chord id value) h b k =
      rw (update_events s s' _ _ h) (revalue-Ordered id value s.events k)
  act-Ordered s s' (sets_duration id duration) h b k = rw (update_events s s' _ _ h) (
      Follows-Ordered (base_start editor.base) _
        (reflow-Follows (base_start editor.base) _ (resize-Ordered id duration s.events k)))
  act-Ordered s s' (moves id target side) h b k = elim (Bool-cases (id === target)) [
    | inl same ↦ subst (λ (z : DraftState). Ordered z.events) (the_state (rw same at h)) k
    | inr other ↦ Follows-Ordered (base_start editor.base) s'.events (
        source_events s s' id target side (find (λ e. e.id === id) s.events) (rw other at h) k refl)
  ]
  act-Ordered s s' (reconciles next) h b k =
      elim (Bool-cases (same_key (draft_key next) editor.key)) [
        | inl same ↦ subst (λ (z : DraftState). Ordered z.events) (the_state (rw same at h)) k
        | inr other ↦ subst (λ (z : DraftState). Ordered z.events) (the_state (rw other at h)) k
      ]
  act-Ordered s s' resets h b k = subst (λ (z : DraftState). Ordered z.events) (the_state h) b

  Reaches-Ordered :
      (s : DraftState) → Ordered editor.base → Reaches collate accepts editor s → Ordered s.events
  Reaches-Ordered s b created = b
  Reaches-Ordered s b (acted {s = earlier} a h reached) =
      act-Ordered earlier s a h b (Reaches-Ordered earlier b reached)

chords-Ordered :
    (test : ChordEvent → Bool) (cursor limit : ℕ) (events : List ChordEvent)
    → Tiles cursor (map chord_interval events) limit
    → Ordered (map event_of (keep test events))
unfolding keep
chords-Ordered test cursor limit [] h = refl
chords-Ordered test cursor limit (e ∷ events) (start, less, h) = elim (Bool-cases (test e)) [
  | inl kept ↦ rw kept (omega arith, chords-Ordered test e.end_sample limit events h)
  | inr left ↦ rw left (chords-Ordered test e.end_sample limit events h)
]

module _ (collate : String → String → Bool) where
  active-Ordered :
      (input : DraftInput) (view : Option ActiveView) (editor : Editor)
      → create_active collate input view ≡ ok editor
      → Ordered editor.base
  active-Ordered input none editor h = cc
  active-Ordered input (some active) editor h =
      let (effective, made, h1) =
        >>=-eq-ok (materialize_effective_timeline collate input.project) _ h in
      let (u, named, h2) =
        >>=-eq-ok
          (throw_if (missing (base_of effective.timeline input.target_ids) input.target_ids) _) _
          h1 in
      let (layer, found, h3) =
        >>=-eq-ok (or_throw (find (λ l. l.id === active.edit_layer_id) input.project.edit_layers) _)
          _ h2 in
      let base : base_of effective.timeline input.target_ids ≡ editor.base = cc in
      subst Ordered base (
        chords-Ordered (λ event. includes event.id input.target_ids) 0
          input.project.duration_samples effective.timeline.chord_events
          (materialize-IsTimeline collate input.project effective made).chord_track.1)

  create-Ordered :
      (input : DraftInput) (editor : Editor)
      → create_editor_draft collate input ≡ ok editor
      → Ordered editor.base
  unfolding create_editor_draft
  create-Ordered input editor h = active-Ordered input input.project.active_view editor h

  -- After `setDuration`, in a draft that was made by `createEditorDraft` and changed by any calls of
  -- its methods, the events follow one another without a gap from the start of the first of the saved
  -- span; the named event has the new length, and each other event the length that it had, in the order
  -- that it had.
  pub set_duration-Follows :
      (accepts : ProjectContract → Bool) (input : DraftInput) (editor : Editor) (s s' : DraftState)
      (id : String) (duration : ℕ)
      → create_editor_draft collate input ≡ ok editor
      → Reaches collate accepts editor s
      → set_duration collate accepts editor s id duration ≡ ok s'
      → Follows (base_start editor.base) s'.events
        × (lengths s'.events ≡ with_length id duration (lengths s.events))
  unfolding set_duration
  set_duration-Follows accepts input editor s s' id duration made reached h =
      let resized =
        resize-Ordered id duration s.events
          (Reaches-Ordered collate accepts editor s (create-Ordered input editor made) reached) in
      rw (update_events collate accepts editor s s' _ _ h) (
        reflow-Follows (base_start editor.base) (map (resize id duration) s.events) resized,
        lengths-reflow (base_start editor.base) (map (resize id duration) s.events) resized
            ∙ lengths-resize id duration s.events,
      )

-- ===== src/Practice/Actions.antt =====
-- What an action of practice leaves alone, and what it promises about the loop.
use open_chords.Prelude.{
  ℕ, ◌≡◌, refl, ap, sym, ◌∙◌, ◌⊎◌, inl, inr, String, Bool, true, false, not, ◌||◌, Option, none,
  some, arith, Bool-cases, ok, err, error, Result, ◌>>=◌, >>=-eq-ok, if◌then◌else◌,
}
use open_chords.Schema.{ActiveView, PracticeState, PracticeLoop, LoopStatus, ProjectContract}
use open_chords.Projection.Materialize.{materialize_view, materialize_effective_timeline}
use open_chords.Practice.{
  Settings, PracticeAction, set_view, assign, get_practice_state, with_loop, ready_loop, is_ready,
  is_none, views, resolve_practice_loop, needing_review, apply_set_loop, apply_practice_action,
  reconcile_active, reconcile_loop, reconcile_practice_state, loop_changed,
}

module _ (collate : String → String → Bool) where
  set_practice-materialize :
      (project : ProjectContract) (practice : Option PracticeState)
      → materialize_effective_timeline collate (record project { practice = practice })
        ≡ materialize_effective_timeline collate project
  unfolding materialize_effective_timeline materialize_view
  set_practice-materialize project practice = refl

  set_view-materialize :
      (project : ProjectContract) (s : Settings) (view : Option ActiveView)
      → materialize_effective_timeline collate (record project { active_view = set_view s view })
        ≡ materialize_effective_timeline collate (record project { active_view = view })
  unfolding materialize_effective_timeline materialize_view
  set_view-materialize project s none = refl
  set_view-materialize project s (some view) = refl

  checked :
      (changed q : ProjectContract) (r : Result (Option (ℕ × ℕ))) (message : String)
      → (r >>= λ span. if is_none span then err (error message) else ok changed) ≡ ok q
      → (q ≡ changed) × (span : ℕ × ℕ) × (r ≡ ok (some span))
  checked changed q (ok none) message h = cc
  checked changed q (ok (some span)) message h = (cc, span, refl)
  checked changed q (err e) message h = cc

  set_loop-changed :
      (project q : ProjectContract) (first last : String) (view : Option ActiveView)
      → apply_set_loop collate project first last view ≡ ok q
      → (loop : PracticeLoop) × (q ≡ with_loop project (some loop))
        × (loop.first_bar_id ≡ first)
        × (loop.last_bar_id ≡ last)
        × (span : ℕ × ℕ) × (resolve_practice_loop collate q ≡ ok (some span))
  unfolding apply_set_loop
  set_loop-changed project q first last none h = cc
  set_loop-changed project q first last (some view) h =
      let (e, span, resolved) =
        checked (with_loop project (some (ready_loop view first last))) q
          (resolve_practice_loop collate (with_loop project (some (ready_loop view first last))))
          "Loop must cover contiguous active Bars" h in
      (
        ready_loop view first last,
        e,
        refl,
        refl,
        span,
        ap (resolve_practice_loop collate) e ∙ resolved,
      )

  -- An action of practice that succeeds never changes the effective timeline, whether or not the project
  -- materializes.
  pub apply_practice_action-materialize :
      (project q : ProjectContract) (action : PracticeAction)
      → apply_practice_action collate project action ≡ ok q
      → materialize_effective_timeline collate q ≡ materialize_effective_timeline collate project
  unfolding apply_practice_action
  apply_practice_action-materialize project q PracticeAction.clear_loop h =
      let e : q ≡ with_loop project none = cc in
      ap (materialize_effective_timeline collate) e ∙ set_practice-materialize project _
  apply_practice_action-materialize project q (PracticeAction.settings s) h =
      let e : q ≡ record project {
        active_view = set_view s project.active_view;
        practice = some (assign (get_practice_state project) s);
      } =
        cc in
      ap (materialize_effective_timeline collate) e
      ∙ set_practice-materialize (record project { active_view = set_view s project.active_view })
          (some (assign (get_practice_state project) s))
      ∙ set_view-materialize project s project.active_view
  apply_practice_action-materialize project q (PracticeAction.set_loop first last) h =
      let (loop, e, _, _, _, _) = set_loop-changed project q first last project.active_view h in
      ap (materialize_effective_timeline collate) e
      ∙ set_practice-materialize project (with_loop project (some loop)).practice

  -- Setting a loop, where it succeeds, stores the bars asked for, and the stored loop resolves.
  pub set_loop-resolves :
      (project q : ProjectContract) (first last : String)
      → apply_practice_action collate project (PracticeAction.set_loop first last) ≡ ok q
      → (loop : PracticeLoop) × ((get_practice_state q).loop ≡ some loop)
        × (loop.first_bar_id ≡ first)
        × (loop.last_bar_id ≡ last)
        × (span : ℕ × ℕ) × (resolve_practice_loop collate q ≡ ok (some span))
  unfolding apply_practice_action
  set_loop-resolves project q first last h =
      let (loop, e, a, b, span, r) = set_loop-changed project q first last project.active_view h in
      (loop, ap (λ p. (get_practice_state p).loop) e, a, b, span, r)

  abbrev Resolves : ProjectContract → Type 0
  Resolves q = (span : ℕ × ℕ) × (resolve_practice_loop collate q ≡ ok (some span))

  -- What a ready loop of a reconciled project leads to.
  reconcile_rest :
      (project q : ProjectContract) (loop : PracticeLoop) (changed : Bool)
      (r : Result (Option (ℕ × ℕ)))
      → resolve_practice_loop collate project ≡ r
      → (if changed
          then ok (with_loop project (some (needing_review loop)))
          else (r >>= λ span.
              ok
                (if is_none span then with_loop project (some (needing_review loop)) else project)))
        ≡ ok q
      → (q ≡ with_loop project (some (needing_review loop))) ⊎ Resolves q
  reconcile_rest project q loop true r e h = inl cc
  reconcile_rest project q loop false (ok none) e h = inl cc
  reconcile_rest project q loop false (ok (some span)) e h =
      let same : project ≡ q = cc in inr (span, ap (resolve_practice_loop collate) (sym same) ∙ e)
  reconcile_rest project q loop false (err x) e h = cc

  abbrev Waits : ProjectContract → Type 0
  Waits q =
      (l : PracticeLoop) × ((get_practice_state q).loop ≡ some l) × (is_ready l.status ≡ false)

  waits :
      (project q : ProjectContract) (loop : PracticeLoop)
      → q ≡ with_loop project (some (needing_review loop))
      → Waits q ⊎ ((get_practice_state q).loop ≡ none) ⊎ Resolves q
  waits project q loop e = inl (needing_review loop, ap (λ p. (get_practice_state p).loop) e, refl)

  reconcile_active-cases :
      (before project q : ProjectContract) (loop : PracticeLoop)
      → reconcile_active collate before project loop ≡ ok q
      → (q ≡ with_loop project (some (needing_review loop))) ⊎ Resolves q
  unfolding reconcile_active
  reconcile_active-cases before project q loop h =
      let (old, _, h1) = >>=-eq-ok (materialize_effective_timeline collate before) _ h in
      let (new, _, h2) = >>=-eq-ok (materialize_effective_timeline collate project) _ h1 in
      reconcile_rest project q loop (loop_changed old.timeline.bars new.timeline.bars loop) _ refl
        h2

  reconcile_loop-cases :
      (before project q : ProjectContract) (loop : Option PracticeLoop)
      → (get_practice_state project).loop ≡ loop
      → reconcile_loop collate before project loop ≡ ok q
      → Waits q ⊎ ((get_practice_state q).loop ≡ none) ⊎ Resolves q
  unfolding reconcile_loop
  reconcile_loop-cases before project q none e h =
      let same : project ≡ q = cc in
      inr (inl (ap (λ p. (get_practice_state p).loop) (sym same) ∙ e))
  reconcile_loop-cases before project q (some loop) e h =
      elim (Bool-cases (not (is_ready loop.status))) [
        | inl waiting ↦
            let same : project ≡ q = ground arith in
            inl (loop, ap (λ p. (get_practice_state p).loop) (sym same) ∙ e, ground arith)
        | inr ready ↦
            elim (Bool-cases (
              not (views project.active_view loop.analysis_revision_id)
              || is_none before.active_view)) [
                | inl inactive ↦
                    let reviewed : ok (with_loop project (some (needing_review loop))) ≡ ok q =
                      rw inactive at (rw ready at h) in
                    waits project q loop cc
                | inr active ↦
                    elim (reconcile_active-cases before project q loop
                      (rw active at (rw ready at h))) [
                        | inl reviewed ↦ waits project q loop reviewed
                        | inr resolves ↦ inr (inr resolves)
                      ]
              ]
      ]

  -- After a reconciliation that succeeds, a loop that is marked ready resolves.
  pub reconcile_practice_state-resolves :
      (before project q : ProjectContract) (loop : PracticeLoop)
      → reconcile_practice_state collate before project ≡ ok q
      → (get_practice_state q).loop ≡ some loop
      → loop.status ≡ LoopStatus.ready
      → (span : ℕ × ℕ) × (resolve_practice_loop collate q ≡ ok (some span))
  unfolding reconcile_practice_state
  reconcile_practice_state-resolves before project q loop h stored ready =
      elim (reconcile_loop-cases before project q (get_practice_state project).loop refl h) [
        | inl (l, e, waiting) ↦
            let same : l ≡ loop = cc in
            let status : l.status ≡ loop.status = ap (λ l. l.status) same in
            let wait : is_ready LoopStatus.ready ≡ false = rw ready at (rw status at waiting) in
            absurd (ground arith)
        | inr (inl nothing) ↦ absurd cc
        | inr (inr resolves) ↦ resolves
      ]

-- ===== src/Sidecar/Protocol/Cancellation.antt =====
-- What a session does once its request is aborted.
use open_chords.Prelude.{
  ℕ, ◌≡◌, ◌⊎◌, refl, inl, inr, Bool, true, false, Option, List, [], ◌∷◌, arith, Bool-cases,
}
use open_chords.Sidecar.{SidecarSessionError, session_error, cancelled}
use open_chords.Sidecar.Messages.{SidecarMessage, SidecarSessionRequest}
use open_chords.Sidecar.Protocol.{
  Phase, starting, active, cancelling, acking, cleaning, returned, failed, rejected, Session,
  Action, arrive, pump_failed, pump_ended, written, write_failed, abort_request, expire, resume,
  abort_lifecycle, look_active, look_inbox, take_active, resumed, can_expire, after_write, step,
  run,
}
use open_chords.Sidecar.Inbox.{Lifecycle, live, aborted, Look, took, stopped, waits}
use open_chords.Sidecar.Protocol.Keeping.{take_ack-keeps, take_cleanup-keeps}

abbrev pub cancellation : SidecarSessionError
cancellation = session_error cancelled "Sidecar session was cancelled"

-- The start frame has been written, the session has not returned, and the failure that it throws or
-- will throw, if there is one, is the cancellation.
abbrev pub IsCancelling : Phase → Type 0
IsCancelling (active accepted expected) = true ≡ true
IsCancelling (cancelling failure expected) = failure ≡ cancellation
IsCancelling (acking failure expected) = failure ≡ cancellation
IsCancelling (cleaning failure expected) = failure ≡ cancellation
IsCancelling (failed failure) = failure ≡ cancellation
IsCancelling _ = true ≡ false

-- The start frame is still being written, or its write has failed and the function has thrown the
-- error of the write.
abbrev pub IsWriting : Phase → Type 0
IsWriting starting = true ≡ true
IsWriting rejected = true ≡ true
IsWriting _ = true ≡ false

-- The look at the inbox of a session whose request is aborted never takes a message.
abbrev IsStopped : {J : Type 0} → Look J → Type 0
IsStopped (stopped failure) = true ≡ true
IsStopped _ = true ≡ false

module _ {J : Type 0} (validate : J → Option SidecarMessage) (request : SidecarSessionRequest) where
  aborted-IsStopped :
      (expired accepted : Bool) (lifecycle : Lifecycle) (s : Session J)
      → s.request_aborted ≡ true
      → s.expired ≡ expired
      → s.lifecycle ≡ lifecycle
      → IsStopped (look_active accepted s)
  aborted-IsStopped true accepted lifecycle s h e l = rw e refl
  aborted-IsStopped false accepted live s h e l = rw (e, l, h) refl
  aborted-IsStopped false accepted (aborted reason) s h e l = rw (e, l) refl

  -- The request is aborted, and the session cancels.
  abbrev Cancels : Bool → Phase → Type 0
  Cancels request_aborted p = (request_aborted ≡ true) × IsCancelling p

  take_active-Cancels :
      (s : Session J) (accepted : Bool) (expected : ℕ) (look : Look J)
      → s.request_aborted ≡ true
      → IsStopped look
      → Cancels
          (take_active validate request s accepted expected look).request_aborted
          (take_active validate request s accepted expected look).phase
  take_active-Cancels s accepted expected (stopped failure) h k = rw h (refl, refl)
  take_active-Cancels s accepted expected waits h k = absurd (ground arith)
  take_active-Cancels s accepted expected (took m rest) h k = absurd (ground arith)

  resumed-Cancels :
      (p : Phase) (s : Session J)
      → s.phase ≡ p
      → s.request_aborted ≡ true
      → IsCancelling p
      → Cancels (resumed validate request p s).request_aborted (resumed validate request p s).phase
  unfolding resumed
  resumed-Cancels (active accepted expected) s e h k =
      take_active-Cancels s accepted expected (look_active accepted s) h
        (aborted-IsStopped s.expired accepted s.lifecycle s h refl refl)
  resumed-Cancels (acking failure expected) s e h k =
      take_ack-keeps validate request (λ b p sent. Cancels b p) s failure expected (look_inbox s)
        (h, rw e k) (λ n. (h, k)) (λ n. (h, k)) (h, k)
  resumed-Cancels (cleaning failure expected) s e h k =
      take_cleanup-keeps validate request (λ b p sent. Cancels b p) s failure expected
        (look_inbox s) (h, rw e k) (λ n. (h, k)) (h, k)
  resumed-Cancels (cancelling failure expected) s e h k = (h, rw e k)
  resumed-Cancels starting s e h k = absurd (ground arith)
  resumed-Cancels (returned r) s e h k = absurd (ground arith)
  resumed-Cancels (failed failure) s e h k = (h, rw e k)
  resumed-Cancels rejected s e h k = absurd (ground arith)

  written-IsCancelling : (p next : Phase) → IsCancelling p → IsCancelling (after_write p next)
  written-IsCancelling starting next k = absurd (ground arith)
  written-IsCancelling (active accepted expected) next k = k
  written-IsCancelling (cancelling failure expected) next k = k
  written-IsCancelling (acking failure expected) next k = k
  written-IsCancelling (cleaning failure expected) next k = k
  written-IsCancelling (returned r) next k = k
  written-IsCancelling (failed failure) next k = k
  written-IsCancelling rejected next k = k

  step-Cancels :
      (s : Session J) (a : Action J)
      → s.request_aborted ≡ true
      → IsCancelling s.phase
      → Cancels (step validate request s a).request_aborted (step validate request s a).phase
  unfolding step
  step-Cancels s (arrive m) h k = (h, k)
  step-Cancels s (pump_failed e) h k = (h, k)
  step-Cancels s pump_ended h k = (h, k)
  step-Cancels s abort_request h k = (refl, k)
  step-Cancels s (abort_lifecycle reason) h k = (h, k)
  step-Cancels s written h k = (h, written-IsCancelling s.phase (active false 0) k)
  step-Cancels s write_failed h k = (h, written-IsCancelling s.phase rejected k)
  step-Cancels s expire h k = elim (Bool-cases (can_expire s.phase s)) [
    | inl runs_out ↦ rw runs_out (h, k)
    | inr kept ↦ rw kept (h, k)
  ]
  step-Cancels s resume h k = resumed-Cancels s.phase s refl h k

  -- The request is aborted, and the session cancels or its start frame is not written.
  abbrev Yields : Bool → Phase → Type 0
  Yields request_aborted p = (request_aborted ≡ true) × (IsCancelling p ⊎ IsWriting p)

  written-IsWriting :
      (p : Phase)
      → IsWriting p
      → (IsCancelling (after_write p (active false 0)) ⊎ IsWriting (after_write p (active false 0)))
        × IsWriting (after_write p rejected)
  written-IsWriting starting k = (inl refl, refl)
  written-IsWriting rejected k = (inr refl, refl)
  written-IsWriting (active accepted expected) k = absurd (ground arith)
  written-IsWriting (cancelling failure expected) k = absurd (ground arith)
  written-IsWriting (acking failure expected) k = absurd (ground arith)
  written-IsWriting (cleaning failure expected) k = absurd (ground arith)
  written-IsWriting (returned r) k = absurd (ground arith)
  written-IsWriting (failed failure) k = absurd (ground arith)

  resumed-Yields :
      (p : Phase) (s : Session J)
      → s.phase ≡ p
      → s.request_aborted ≡ true
      → IsWriting p
      → Yields (resumed validate request p s).request_aborted (resumed validate request p s).phase
  unfolding resumed
  resumed-Yields starting s e h k = (h, inr (rw e k))
  resumed-Yields rejected s e h k = (h, inr (rw e k))
  resumed-Yields (active accepted expected) s e h k = absurd (ground arith)
  resumed-Yields (cancelling failure expected) s e h k = absurd (ground arith)
  resumed-Yields (acking failure expected) s e h k = absurd (ground arith)
  resumed-Yields (cleaning failure expected) s e h k = absurd (ground arith)
  resumed-Yields (returned r) s e h k = absurd (ground arith)
  resumed-Yields (failed failure) s e h k = absurd (ground arith)

  step-Yields :
      (s : Session J) (a : Action J)
      → s.request_aborted ≡ true
      → IsWriting s.phase
      → Yields (step validate request s a).request_aborted (step validate request s a).phase
  unfolding step
  step-Yields s (arrive m) h k = (h, inr k)
  step-Yields s (pump_failed e) h k = (h, inr k)
  step-Yields s pump_ended h k = (h, inr k)
  step-Yields s abort_request h k = (refl, inr k)
  step-Yields s (abort_lifecycle reason) h k = (h, inr k)
  step-Yields s written h k = (h, (written-IsWriting s.phase k).0)
  step-Yields s write_failed h k = (h, inr (written-IsWriting s.phase k).1)
  step-Yields s expire h k = elim (Bool-cases (can_expire s.phase s)) [
    | inl runs_out ↦ rw runs_out (h, inr k)
    | inr kept ↦ rw kept (h, inr k)
  ]
  step-Yields s resume h k = resumed-Yields s.phase s refl h k

  run-Cancels :
      (s : Session J) (actions : List (Action J))
      → s.request_aborted ≡ true
      → IsCancelling s.phase
      → IsCancelling (run validate request s actions).phase
  unfolding run
  run-Cancels s [] h k = k
  run-Cancels s (a ∷ actions) h k =
      let (aborts, cancels) = step-Cancels s a h k in
      run-Cancels (step validate request s a) actions aborts cancels

  run-Yields :
      (s : Session J) (actions : List (Action J))
      → s.request_aborted ≡ true
      → IsWriting s.phase
      → IsCancelling (run validate request s actions).phase
        ⊎ IsWriting (run validate request s actions).phase
  unfolding run
  run-Yields s [] h k = inr k
  run-Yields s (a ∷ actions) h k =
      let (aborts, yields) = step-Yields s a h k in
      elim yields [
        | inl cancels ↦ inl (run-Cancels (step validate request s a) actions aborts cancels)
        | inr writes ↦ run-Yields (step validate request s a) actions aborts writes
      ]

  -- Once the signal of the request is aborted, in a session that has not returned, failed otherwise or
  -- thrown before, no order of later steps makes the session return a result. If the start frame had
  -- been written, all that it can throw is the cancellation, whatever arrives, runs out or is aborted
  -- as well; if not, it can also throw the error of that write, if the write fails.
  pub run-IsCancelling :
      (s : Session J) (actions : List (Action J))
      → s.request_aborted ≡ true
      → IsCancelling s.phase ⊎ IsWriting s.phase
      → IsCancelling (run validate request s actions).phase
        ⊎ (IsWriting s.phase × IsWriting (run validate request s actions).phase)
  run-IsCancelling s actions h (inl cancels) = inl (run-Cancels s actions h cancels)
  run-IsCancelling s actions h (inr writes) = elim (run-Yields s actions h writes) [
    | inl cancels ↦ inl cancels
    | inr still ↦ inr (writes, still)
  ]

-- ===== src/Sidecar/Protocol/Told.antt =====
-- What a session tells the process.
use open_chords.Prelude.{
  ℕ, ◌≡◌, refl, ◌⊎◌, inl, inr, Bool, true, false, Option, List, [], ◌∷◌, Bool-cases,
}
use open_chords.Sidecar.{SidecarSessionError}
use open_chords.Sidecar.Messages.{
  SidecarMessage, SidecarSessionRequest, Round, continued, finished, broken, round,
}
use open_chords.Sidecar.Protocol.{
  Outgoing, start, cancel, Phase, starting, active, cancelling, acking, cleaning, returned, failed,
  rejected, Session, Action, arrive, pump_failed, pump_ended, written, write_failed, abort_request,
  expire, resume, abort_lifecycle, look_active, look_inbox, is_cooperative, give_up,
  terminal_failure, after_round, take_active, resumed, can_expire, after_write, step, run,
  start_session,
}
use open_chords.Sidecar.Inbox.{Look, took, stopped, waits}
use open_chords.Sidecar.Protocol.Keeping.{take_ack-keeps, take_cleanup-keeps}

-- What the process has been sent, in each phase.
abbrev pub IsTold : Phase → List Outgoing → Type 0
IsTold (cancelling failure expected) sent =
    (is_cooperative failure.code ≡ true) × (n : ℕ) × (sent ≡ start ∷ cancel n ∷ [])
IsTold (acking failure expected) sent =
    (is_cooperative failure.code ≡ true) × (n : ℕ) × (sent ≡ start ∷ cancel n ∷ [])
IsTold (cleaning failure expected) sent =
    (is_cooperative failure.code ≡ true) × (n : ℕ) × (sent ≡ start ∷ cancel n ∷ [])
IsTold (failed failure) sent =
    ((is_cooperative failure.code ≡ true) × (n : ℕ) × (sent ≡ start ∷ cancel n ∷ []))
    ⊎ ((is_cooperative failure.code ≡ false) × (sent ≡ start ∷ []))
IsTold _ sent = sent ≡ start ∷ []

module _ {J : Type 0} (validate : J → Option SidecarMessage) (request : SidecarSessionRequest) where
  give_up-IsTold :
      (s : Session J) (failure : SidecarSessionError) (expected : ℕ)
      → s.sent ≡ start ∷ []
      → IsTold (give_up s failure expected).phase (give_up s failure expected).sent
  give_up-IsTold s failure expected h = elim (Bool-cases (is_cooperative failure.code)) [
    | inl asks ↦ rw (asks, h) (asks, expected, refl)
    | inr throws ↦ rw throws (inr (throws, h))
  ]

  after_round-IsTold :
      (s : Session J) (o : Round)
      → s.sent ≡ start ∷ []
      → IsTold (after_round s o).phase (after_round s o).sent
  after_round-IsTold s (continued accepted expected) h = h
  after_round-IsTold s (finished r) h = h
  after_round-IsTold s (broken failure expected) h =
      give_up-IsTold s (terminal_failure s failure) expected h

  take_active-IsTold :
      (s : Session J) (accepted : Bool) (expected : ℕ) (look : Look J)
      → s.phase ≡ active accepted expected
      → s.sent ≡ start ∷ []
      → IsTold
          (take_active validate request s accepted expected look).phase
          (take_active validate request s accepted expected look).sent
  take_active-IsTold s accepted expected waits e h = rw e h
  take_active-IsTold s accepted expected (stopped failure) e h =
      give_up-IsTold s (terminal_failure s failure) expected h
  take_active-IsTold s accepted expected (took m rest) e h =
      after_round-IsTold (record s { messages = rest })
        (round request accepted expected (validate m)) h

  resumed-IsTold :
      (p : Phase) (s : Session J)
      → s.phase ≡ p
      → IsTold p s.sent
      → IsTold (resumed validate request p s).phase (resumed validate request p s).sent
  unfolding resumed
  resumed-IsTold (active accepted expected) s e h =
      take_active-IsTold s accepted expected (look_active accepted s) e h
  resumed-IsTold (acking failure expected) s e h =
      take_ack-keeps validate request (λ b p sent. IsTold p sent) s failure expected (look_inbox s)
        (rw e h) (λ n. h) (λ n. h) (inl h)
  resumed-IsTold (cleaning failure expected) s e h =
      take_cleanup-keeps validate request (λ b p sent. IsTold p sent) s failure expected
        (look_inbox s) (rw e h) (λ n. h) (inl h)
  resumed-IsTold (cancelling failure expected) s e h = rw e h
  resumed-IsTold starting s e h = rw e h
  resumed-IsTold (returned r) s e h = rw e h
  resumed-IsTold (failed failure) s e h = rw e h
  resumed-IsTold rejected s e h = rw e h

  written-IsTold :
      (p : Phase) (sent : List Outgoing)
      → IsTold p sent
      → IsTold (after_write p (active false 0)) sent × IsTold (after_write p rejected) sent
  written-IsTold starting sent h = (h, h)
  written-IsTold (active accepted expected) sent h = (h, h)
  written-IsTold (cancelling failure expected) sent h = (h, h)
  written-IsTold (acking failure expected) sent h = (h, h)
  written-IsTold (cleaning failure expected) sent h = (h, h)
  written-IsTold (returned r) sent h = (h, h)
  written-IsTold (failed failure) sent h = (h, h)
  written-IsTold rejected sent h = (h, h)

  step-IsTold :
      (s : Session J) (a : Action J)
      → IsTold s.phase s.sent
      → IsTold (step validate request s a).phase (step validate request s a).sent
  unfolding step
  step-IsTold s (arrive m) h = h
  step-IsTold s (pump_failed e) h = h
  step-IsTold s pump_ended h = h
  step-IsTold s abort_request h = h
  step-IsTold s (abort_lifecycle reason) h = h
  step-IsTold s written h = (written-IsTold s.phase s.sent h).0
  step-IsTold s write_failed h = (written-IsTold s.phase s.sent h).1
  step-IsTold s expire h = elim (Bool-cases (can_expire s.phase s)) [
    | inl runs_out ↦ rw runs_out h
    | inr kept ↦ rw kept h
  ]
  step-IsTold s resume h = resumed-IsTold s.phase s refl h

  run_inv :
      (s : Session J) (actions : List (Action J))
      → IsTold s.phase s.sent
      → IsTold (run validate request s actions).phase (run validate request s actions).sent
  unfolding run
  run_inv s [] h = h
  run_inv s (a ∷ actions) h = run_inv (step validate request s a) actions (step-IsTold s a h)

  -- Whatever the order of the steps is, the process is sent `start` and at most one `cancel`. A session
  -- that throws a cancellation, a disposal or a timeout, or that will, has sent the `cancel`; one that
  -- waits in its loop, has returned, or throws any other failure has not.
  pub run-IsTold :
      (actions : List (Action J))
      → IsTold
          (run validate request start_session actions).phase
          (run validate request start_session actions).sent
  run-IsTold actions = run_inv start_session actions refl

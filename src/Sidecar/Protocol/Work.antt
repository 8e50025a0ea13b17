-- ===== src/Sidecar/Protocol/Work.antt =====
-- What each look of a session leaves to do: how many messages and timers can still come.
use open_chords.Sidecar.Protocol.Looks.{Sees}
use open_chords.Prelude.{
  ℕ, ◌+◌, ◌≤◌, ◌<◌, inl, inr, Bool, true, false, Option, none, some, arith, length, Bool-cases,
}
use open_chords.Sidecar.{SidecarSessionError}
use open_chords.Sidecar.Messages.{
  SidecarMessage, SidecarSessionRequest, Round, continued, finished, broken, round,
}
use open_chords.Sidecar.Protocol.{
  Phase, starting, active, cancelling, acking, cleaning, Session, is_cooperative, give_up,
  ack_round, cleanup_round, terminal_failure, after_round, check_message, wanted, is_ack,
  is_cleanup, take_active, take_ack, take_cleanup,
}
use open_chords.Sidecar.Inbox.{Look, took, stopped, waits}

-- How often the timer may run out still.
abbrev pub waits_left : Phase → ℕ
waits_left starting = 3
waits_left (active accepted expected) = 3
waits_left (cancelling failure expected) = 2
waits_left (acking failure expected) = 2
waits_left (cleaning failure expected) = 1
waits_left _ = 0

abbrev pub work : {J : Type 0} → Session J → ℕ
work s = length s.messages + waits_left s.phase

module _ {J : Type 0} (validate : J → Option SidecarMessage) (request : SidecarSessionRequest) where
  give_up-le :
      (s : Session J) (failure : SidecarSessionError) (expected : ℕ)
      → work (give_up s failure expected) ≤ length s.messages + 2
  give_up-le s failure expected = elim (Bool-cases (is_cooperative failure.code)) [
    | inl asks ↦ rw asks (omega arith)
    | inr throws ↦ rw throws (omega arith)
  ]

  after_round-le : (s : Session J) (o : Round) → work (after_round s o) ≤ length s.messages + 3
  after_round-le s (continued accepted expected) = omega arith
  after_round-le s (finished r) = omega arith
  after_round-le s (broken failure expected) =
      omega (arith, give_up-le s (terminal_failure s failure) expected)

  ack_round-le :
      (s : Session J) (failure : SidecarSessionError) (expected : ℕ)
      (check : Option SidecarSessionError) (last : Bool)
      → work (ack_round s failure expected check last) ≤ length s.messages + 2
  ack_round-le s failure expected (some error) last = omega arith
  ack_round-le s failure expected none true = omega arith
  ack_round-le s failure expected none false = omega arith

  cleanup_round-le :
      (s : Session J) (failure : SidecarSessionError) (expected : ℕ)
      (check : Option SidecarSessionError) (last : Bool)
      → work (cleanup_round s failure expected check last) ≤ length s.messages + 1
  cleanup_round-le s failure expected (some error) last = omega arith
  cleanup_round-le s failure expected none true = omega arith
  cleanup_round-le s failure expected none false = omega arith

  pub take_active-lt :
      (s : Session J) (accepted : Bool) (expected : ℕ) (look : Look J)
      → Sees s.messages look
      → work (take_active validate request s accepted expected look) < length s.messages + 3
  take_active-lt s accepted expected waits h = absurd (ground arith)
  take_active-lt s accepted expected (stopped failure) h =
      omega (arith, give_up-le s (terminal_failure s failure) expected)
  take_active-lt s accepted expected (took m rest) h = rw h (
      omega (
        arith,
        after_round-le (record s { messages = rest })
            (round request accepted expected (validate m)),
      ))

  pub take_ack-lt :
      (s : Session J) (failure : SidecarSessionError) (expected : ℕ) (look : Look J)
      → Sees s.messages look
      → work (take_ack validate request s failure expected look) < length s.messages + 2
  take_ack-lt s failure expected waits h = absurd (ground arith)
  take_ack-lt s failure expected (stopped error) h = omega arith
  take_ack-lt s failure expected (took m rest) h = rw h (
      omega (
        arith,
        ack_round-le (record s { messages = rest }) failure expected
            (check_message request expected (validate m)) (wanted is_ack (validate m)),
      ))

  pub take_cleanup-lt :
      (s : Session J) (failure : SidecarSessionError) (expected : ℕ) (look : Look J)
      → Sees s.messages look
      → work (take_cleanup validate request s failure expected look) < length s.messages + 1
  take_cleanup-lt s failure expected waits h = absurd (ground arith)
  take_cleanup-lt s failure expected (stopped error) h = omega arith
  take_cleanup-lt s failure expected (took m rest) h = rw h (
      omega (
        arith,
        cleanup_round-le (record s { messages = rest }) failure expected
            (check_message request expected (validate m)) (wanted is_cleanup (validate m)),
      ))

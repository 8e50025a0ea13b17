-- ===== src/Sidecar/Protocol.antt =====
-- apps/desktop/src/main/sidecar-protocol.ts: `OutputInbox` and `runSidecarProtocol` as a machine that
-- the environment and the waiting function step in turn. `validate` is the schema of a message.
pub mod Conversation
pub mod Reading
pub mod Completion
mod Keeping
pub mod Cancellation
pub mod Told
mod Looks
mod Work
pub mod Deadlines
use open_chords.Sidecar.Inbox.{
  Lifecycle, live, aborted, normalized, timed_out, eof, Look, took, stopped, waits, look_ended,
  look_messages, look_request, look_signals, look_expired,
}
use open_chords.Prelude.{
  ℕ, zero, suc, ◌+◌, String, Bool, true, false, Option, none, some, List, [], ◌∷◌, ◌++◌,
  if◌then◌else◌,
}
use open_chords.Sidecar.{
  SidecarSessionErrorCode, SidecarSessionError, session_error, cancelled, disposed,
  handshake_timeout, heartbeat_timeout, process_failure, timeout, unexpected_eof,
}
use open_chords.Sidecar.Messages.{
  SidecarMessage, cancel_ack, cleanup_complete, SidecarSessionRequest, SidecarSessionResult, Round,
  continued, finished, broken, invalid_message, validate_session_message, round,
}

-- What the process is sent: `start`, and `cancel` with its sequence.
pub data Outgoing : Type 0 where
  start : Outgoing
  cancel : (sequence : ℕ) → Outgoing

-- Where the function is: it writes the start frame, waits in its loop, writes the cancel frame, waits
-- for the acknowledgement of the cancellation or for the cleanup, has returned, has thrown, or has
-- thrown what the write of the start frame threw. No timer runs while it writes.
pub data Phase : Type 0 where
  starting : Phase
  active : (accepted : Bool) (expected : ℕ) → Phase
  cancelling acking cleaning : (failure : SidecarSessionError) (expected : ℕ) → Phase
  returned : SidecarSessionResult → Phase
  failed : SidecarSessionError → Phase
  rejected : Phase

pub record Session (J : Type 0) : Type 0 where
  -- `OutputInbox`
  pub messages : List J
  pub failure : Option SidecarSessionError
  pub ended : Bool
  -- the signals, and whether the timer of the current wait has run out
  pub request_aborted : Bool
  pub lifecycle : Lifecycle
  pub expired : Bool
  pub phase : Phase
  pub sent : List Outgoing

-- A step of the environment, or of the function that waits.
pub data Action (J : Type 0) : Type 0 where
  arrive : J → Action J
  pump_failed : SidecarSessionError → Action J
  pump_ended written write_failed abort_request expire resume : Action J
  abort_lifecycle : Option SidecarSessionError → Action J

abbrev pub start_session : {J : Type 0} → Session J
start_session = record {
  messages = [];
  failure = none;
  ended = false;
  request_aborted = false;
  lifecycle = live;
  expired = false;
  phase = starting;
  sent = start ∷ [];
}

abbrev pub deadline_code : Bool → SidecarSessionErrorCode
deadline_code true = heartbeat_timeout
deadline_code false = handshake_timeout

-- `terminalFailure`, without that of the request
abbrev pub lifecycle_failure : Lifecycle → SidecarSessionError → SidecarSessionError
lifecycle_failure live failure = failure
lifecycle_failure (aborted (some reason)) failure = reason
lifecycle_failure (aborted none) failure = session_error timeout "Sidecar session timed out"

abbrev pub is_cooperative : SidecarSessionErrorCode → Bool
is_cooperative cancelled = true
is_cooperative disposed = true
is_cooperative handshake_timeout = true
is_cooperative heartbeat_timeout = true
is_cooperative timeout = true
is_cooperative _ = false

-- A message in the cancellation: `wanted` ends the loop.
abbrev pub is_ack : SidecarMessage → Bool
is_ack (cancel_ack base) = true
is_ack _ = false

abbrev pub is_cleanup : SidecarMessage → Bool
is_cleanup (cleanup_complete base) = true
is_cleanup _ = false

abbrev pub check_message :
    SidecarSessionRequest → ℕ → Option SidecarMessage → Option SidecarSessionError
check_message request expected none = some invalid_message
check_message request expected (some message) = validate_session_message request expected message

abbrev pub wanted : (SidecarMessage → Bool) → Option SidecarMessage → Bool
wanted test none = false
wanted test (some message) = test message

module _ {J : Type 0} where
  -- `next` without signals, in the cancellation.
  abbrev pub look_inbox : Session J → Look J
  look_inbox s = look_expired s.expired timeout (look_messages s.messages s.failure s.ended)

  -- `next` with the signals, in the loop.
  abbrev pub look_active : Bool → Session J → Look J
  look_active accepted s =
      look_expired s.expired (deadline_code accepted)
        (look_signals s.lifecycle s.request_aborted (look_messages s.messages s.failure s.ended))

  abbrev pub terminal_failure : Session J → SidecarSessionError → SidecarSessionError
  terminal_failure s failure =
      if s.request_aborted
      then session_error cancelled "Sidecar session was cancelled"
      else lifecycle_failure s.lifecycle failure

  -- The end of the `catch`: it asks the process to clean up, or throws.
  abbrev pub give_up : Session J → SidecarSessionError → ℕ → Session J
  give_up s failure expected =
      if is_cooperative failure.code
      then record s {
        expired = false;
        phase = cancelling failure expected;
        sent = s.sent ++ (cancel expected ∷ []);
      }
      else record s { expired = false; phase = failed failure }

  abbrev pub caught : Session J → SidecarSessionError → ℕ → Session J
  caught s failure expected = give_up s (terminal_failure s failure) expected

  abbrev pub after_round : Session J → Round → Session J
  after_round s (continued accepted expected) = record s { phase = active accepted expected }
  after_round s (finished r) = record s { phase = returned r }
  after_round s (broken failure expected) = caught s failure expected

  -- The loops of `requestCooperativeCancellation`: what the check of a message found, and whether the
  -- message ends the loop. Their errors are dropped; the function then throws its failure.
  abbrev pub ack_round :
      Session J → SidecarSessionError → ℕ → Option SidecarSessionError → Bool → Session J
  ack_round s failure expected (some error) last = record s { phase = failed failure }
  ack_round s failure expected none true = record s { phase = cleaning failure (expected + 1) }
  ack_round s failure expected none false = record s { phase = acking failure (expected + 1) }

  abbrev pub cleanup_round :
      Session J → SidecarSessionError → ℕ → Option SidecarSessionError → Bool → Session J
  cleanup_round s failure expected (some error) last = record s { phase = failed failure }
  cleanup_round s failure expected none true = record s { phase = failed failure }
  cleanup_round s failure expected none false = record s { phase = cleaning failure (expected + 1) }

  abbrev pub is_waiting : Look J → Bool
  is_waiting waits = true
  is_waiting _ = false

  -- A timer only runs while the function waits.
  abbrev pub can_expire : Phase → Session J → Bool
  can_expire (active accepted expected) s = is_waiting (look_active accepted s)
  can_expire (acking failure expected) s = is_waiting (look_inbox s)
  can_expire (cleaning failure expected) s = is_waiting (look_inbox s)
  can_expire _ s = false

-- The write of the cancel frame has ended; `sendCancel` drops its error.
abbrev pub cancel_sent : Phase → Phase
cancel_sent (cancelling failure expected) = acking failure expected
cancel_sent phase = phase

-- A write has ended: that of the start frame, as `next` says, or that of the cancel frame.
abbrev pub after_write : Phase → Phase → Phase
after_write starting next = next
after_write phase next = cancel_sent phase

module _ {J : Type 0} (validate : J → Option SidecarMessage) (request : SidecarSessionRequest) where
  abbrev pub take_active : Session J → Bool → ℕ → Look J → Session J
  take_active s accepted expected waits = s
  take_active s accepted expected (stopped failure) = caught s failure expected
  take_active s accepted expected (took m rest) =
      after_round (record s { messages = rest }) (round request accepted expected (validate m))

  abbrev pub after_ack : Session J → SidecarSessionError → ℕ → Option SidecarMessage → Session J
  after_ack s failure expected message =
      ack_round s failure expected (check_message request expected message) (wanted is_ack message)

  abbrev pub after_cleanup : Session J → SidecarSessionError → ℕ → Option SidecarMessage → Session J
  after_cleanup s failure expected message =
      cleanup_round s failure expected (check_message request expected message)
        (wanted is_cleanup message)

  abbrev pub take_ack : Session J → SidecarSessionError → ℕ → Look J → Session J
  take_ack s failure expected waits = s
  take_ack s failure expected (stopped error) = record s { phase = failed failure }
  take_ack s failure expected (took m rest) =
      after_ack (record s { messages = rest }) failure expected (validate m)

  abbrev pub take_cleanup : Session J → SidecarSessionError → ℕ → Look J → Session J
  take_cleanup s failure expected waits = s
  take_cleanup s failure expected (stopped error) = record s { phase = failed failure }
  take_cleanup s failure expected (took m rest) =
      after_cleanup (record s { messages = rest }) failure expected (validate m)

  -- The function goes on until it waits again.
  unfoldable pub resumed : Phase → Session J → Session J
  unfolding round validate_session_message
  resumed (active accepted expected) s = take_active s accepted expected (look_active accepted s)
  resumed (acking failure expected) s = take_ack s failure expected (look_inbox s)
  resumed (cleaning failure expected) s = take_cleanup s failure expected (look_inbox s)
  resumed _ s = s

  unfoldable pub step : Session J → Action J → Session J
  unfolding resumed
  step s (arrive m) = record s { messages = s.messages ++ (m ∷ []) }
  step s (pump_failed e) = record s { failure = some e; ended = true }
  step s pump_ended = record s { ended = true }
  step s abort_request = record s { request_aborted = true }
  step s (abort_lifecycle reason) = record s { lifecycle = aborted reason }
  step s written = record s { phase = after_write s.phase (active false 0) }
  step s write_failed = record s { phase = after_write s.phase rejected }
  step s expire = if can_expire s.phase s then record s { expired = true } else s
  step s resume = resumed s.phase s

  unfoldable pub run : Session J → List (Action J) → Session J
  unfolding step
  run s [] = s
  run s (a ∷ actions) = run (step s a) actions

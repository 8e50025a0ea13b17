-- ===== src/Sidecar/Protocol/Keeping.antt =====
-- The two loops of `requestCooperativeCancellation` keep the failure and send nothing.
use open_chords.Prelude.{ℕ, Bool, true, false, Option, none, some, List}
use open_chords.Sidecar.{SidecarSessionError}
use open_chords.Sidecar.Messages.{SidecarMessage, SidecarSessionRequest}
use open_chords.Sidecar.Protocol.{
  Outgoing, Phase, acking, cleaning, failed, Session, ack_round, cleanup_round, check_message,
  wanted, is_ack, is_cleanup, take_ack, take_cleanup,
}
use open_chords.Sidecar.Inbox.{Look, took, stopped, waits}

module _ {J : Type 0} (validate : J → Option SidecarMessage) (request : SidecarSessionRequest) where
  -- The loops of the cancellation keep the failure and send nothing.
  ack_round-keeps :
      (Keeps : Bool → Phase → List Outgoing → Type 0) (s : Session J)
      (failure : SidecarSessionError) (expected : ℕ) (check : Option SidecarSessionError)
      (last : Bool)
      → ((n : ℕ) → Keeps s.request_aborted (acking failure n) s.sent)
      → ((n : ℕ) → Keeps s.request_aborted (cleaning failure n) s.sent)
      → Keeps s.request_aborted (failed failure) s.sent
      → Keeps
          (ack_round s failure expected check last).request_aborted
          (ack_round s failure expected check last).phase
          (ack_round s failure expected check last).sent
  ack_round-keeps Keeps s failure expected (some error) last a c f = f
  ack_round-keeps Keeps s failure expected none true a c f = c _
  ack_round-keeps Keeps s failure expected none false a c f = a _

  cleanup_round-keeps :
      (Keeps : Bool → Phase → List Outgoing → Type 0) (s : Session J)
      (failure : SidecarSessionError) (expected : ℕ) (check : Option SidecarSessionError)
      (last : Bool)
      → ((n : ℕ) → Keeps s.request_aborted (cleaning failure n) s.sent)
      → Keeps s.request_aborted (failed failure) s.sent
      → Keeps
          (cleanup_round s failure expected check last).request_aborted
          (cleanup_round s failure expected check last).phase
          (cleanup_round s failure expected check last).sent
  cleanup_round-keeps Keeps s failure expected (some error) last c f = f
  cleanup_round-keeps Keeps s failure expected none true c f = f
  cleanup_round-keeps Keeps s failure expected none false c f = c _

  pub take_ack-keeps :
      (Keeps : Bool → Phase → List Outgoing → Type 0) (s : Session J)
      (failure : SidecarSessionError) (expected : ℕ) (look : Look J)
      → Keeps s.request_aborted s.phase s.sent
      → ((n : ℕ) → Keeps s.request_aborted (acking failure n) s.sent)
      → ((n : ℕ) → Keeps s.request_aborted (cleaning failure n) s.sent)
      → Keeps s.request_aborted (failed failure) s.sent
      → Keeps
          (take_ack validate request s failure expected look).request_aborted
          (take_ack validate request s failure expected look).phase
          (take_ack validate request s failure expected look).sent
  take_ack-keeps Keeps s failure expected waits k a c f = k
  take_ack-keeps Keeps s failure expected (stopped error) k a c f = f
  take_ack-keeps Keeps s failure expected (took m rest) k a c f =
      ack_round-keeps Keeps (record s { messages = rest }) failure expected
        (check_message request expected (validate m)) (wanted is_ack (validate m)) a c f

  pub take_cleanup-keeps :
      (Keeps : Bool → Phase → List Outgoing → Type 0) (s : Session J)
      (failure : SidecarSessionError) (expected : ℕ) (look : Look J)
      → Keeps s.request_aborted s.phase s.sent
      → ((n : ℕ) → Keeps s.request_aborted (cleaning failure n) s.sent)
      → Keeps s.request_aborted (failed failure) s.sent
      → Keeps
          (take_cleanup validate request s failure expected look).request_aborted
          (take_cleanup validate request s failure expected look).phase
          (take_cleanup validate request s failure expected look).sent
  take_cleanup-keeps Keeps s failure expected waits k c f = k
  take_cleanup-keeps Keeps s failure expected (stopped error) k c f = f
  take_cleanup-keeps Keeps s failure expected (took m rest) k c f =
      cleanup_round-keeps Keeps (record s { messages = rest }) failure expected
        (check_message request expected (validate m)) (wanted is_cleanup (validate m)) c f

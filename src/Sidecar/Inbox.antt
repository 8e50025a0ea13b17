-- ===== src/Sidecar/Inbox.antt =====
-- apps/desktop/src/main/sidecar-protocol.ts: what `next` of `OutputInbox` finds in the inbox.
use open_chords.Prelude.{Bool, true, false, Option, none, some, List, [], ◌∷◌}
use open_chords.Sidecar.{
  SidecarSessionErrorCode, SidecarSessionError, session_error, handshake_timeout, heartbeat_timeout,
  process_failure, timeout, unexpected_eof,
}

-- Whether the lifecycle signal is aborted, and its reason where that is a SidecarSessionError.
pub data Lifecycle : Type 0 where
  live : Lifecycle
  aborted : Option SidecarSessionError → Lifecycle

-- `normalizeSidecarError`, with `none` for an error of another class
abbrev pub normalized : Option SidecarSessionError → SidecarSessionError
normalized none = session_error process_failure "Sidecar session failed"
normalized (some failure) = failure

abbrev pub timed_out : SidecarSessionErrorCode → SidecarSessionError
timed_out handshake_timeout = session_error handshake_timeout "Sidecar handshake timeout"
timed_out heartbeat_timeout = session_error heartbeat_timeout "Sidecar heartbeat timeout"
timed_out code = session_error timeout "Sidecar timeout"

abbrev pub eof : SidecarSessionError
eof = session_error unexpected_eof "Sidecar exited before a result"

-- What one look of `next` at the inbox gives.
pub data Look (J : Type 0) : Type 0 where
  took : J → (rest : List J) → Look J
  stopped : SidecarSessionError → Look J
  waits : Look J

abbrev pub look_ended : {J : Type 0} → Option SidecarSessionError → Bool → Look J
look_ended (some failure) ended = stopped failure
look_ended none true = stopped eof
look_ended none false = waits

abbrev pub look_messages : {J : Type 0} → List J → Option SidecarSessionError → Bool → Look J
look_messages (m ∷ rest) failure ended = took m rest
look_messages [] failure ended = look_ended failure ended

abbrev pub look_request : {J : Type 0} → Bool → Look J → Look J
look_request true look = stopped (normalized none)
look_request false look = look

-- The lifecycle signal comes before that of the request.
abbrev pub look_signals : {J : Type 0} → Lifecycle → Bool → Look J → Look J
look_signals (aborted reason) request_aborted look = stopped (normalized reason)
look_signals live request_aborted look = look_request request_aborted look

abbrev pub look_expired : {J : Type 0} → Bool → SidecarSessionErrorCode → Look J → Look J
look_expired true code look = stopped (timed_out code)
look_expired false code look = look

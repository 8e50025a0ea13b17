-- ===== src/Sidecar.antt =====
-- apps/desktop/src/main/sidecar-protocol.ts: the errors of a session with the analysis process.
pub mod Client
pub mod Frames
pub mod Inbox
pub mod Messages
pub mod Protocol
use open_chords.Prelude.{ℕ, String, Bool, true, false, Option, none, some, List}

pub data SidecarSessionErrorCode : Type 0 where
  busy cancelled cleanup_failure disposed frame_too_large : SidecarSessionErrorCode
  handshake_timeout heartbeat_timeout invalid_request launch_failure : SidecarSessionErrorCode
  process_failure protocol_violation remote_failure timeout unexpected_eof : SidecarSessionErrorCode

pub record SidecarSessionError : Type 0 where
  pub code : SidecarSessionErrorCode
  pub message : String
  pub remote_code : Option String

abbrev pub session_error : SidecarSessionErrorCode → String → SidecarSessionError
session_error code message = record { code = code; message = message; remote_code = none }

-- What a call gives back or throws; `endless` is a loop that the fuel did not end.
pub data Attempt {l} (A : Type l) : Type l where
  thrown : SidecarSessionError → Attempt A
  given : A → Attempt A
  endless : Attempt A

-- ===== src/Sidecar/Messages.antt =====
-- apps/desktop/src/main/sidecar-protocol.ts: the messages of the analysis process, and the checks that
-- each must pass. The texts have been parsed: the lengths and patterns of the schemas are left out.
use open_chords.Prelude.{
  ℕ, ◌+◌, String, Bool, true, false, not, ◌&&◌, ◌||◌, Option, none, some, List, [], ◌∷◌, ◌==◌,
  ◌===◌, includes, template, if◌then◌else◌,
}
use open_chords.Sidecar.{SidecarSessionError, session_error, protocol_violation, remote_failure}

pub record Artifact : Type 0 where
  pub byte_size : ℕ
  pub path : String
  pub sha256 : String

pub record MessageBase : Type 0 where
  pub job_id : String
  pub nonce : String
  pub request_id : String
  pub sequence : ℕ

-- The handshake has the sequence 0 and the version 1, which its schema demands.
pub data SidecarMessage : Type 0 where
  handshake : (capabilities : List String) (manifest_hash nonce : String) → SidecarMessage
  heartbeat : (nonce : String) (sequence : ℕ) → SidecarMessage
  result : Artifact → MessageBase → SidecarMessage
  remote_error : (code message : String) → MessageBase → SidecarMessage
  cancel_ack cleanup_complete : MessageBase → SidecarMessage

pub record SidecarSessionRequest : Type 0 where
  pub job_id : String
  pub manifest_hash : String
  pub nonce : String
  pub request_id : String

pub record SidecarSessionResult : Type 0 where
  pub artifact : Artifact
  pub job_id : String
  pub request_id : String

abbrev pub violation : String → SidecarSessionError
violation message = session_error protocol_violation message

abbrev pub invalid_message : SidecarSessionError
invalid_message = violation "Sidecar message failed schema validation"

-- The order of the checks of `validateSessionMessage`, on the nonce, the sequence and the ids.
abbrev pub check_session : Bool → Bool → Bool → Option SidecarSessionError
check_session same_nonce in_order same_ids =
    if not same_nonce
    then some (violation "Sidecar session identity changed")
    else if not in_order
    then some (violation "Sidecar sequence was not monotonic")
    else if not same_ids
    then some (violation "Sidecar message identifiers did not match")
    else none

abbrev pub check_base : SidecarSessionRequest → ℕ → MessageBase → Option SidecarSessionError
check_base request expected base =
    check_session (base.nonce === request.nonce) (base.sequence == expected)
      (base.job_id === request.job_id && base.request_id === request.request_id)

unfoldable pub validate_session_message :
    SidecarSessionRequest → ℕ → SidecarMessage → Option SidecarSessionError
validate_session_message request expected (handshake capabilities manifest_hash nonce) =
    some (violation "Sidecar session identity changed")
validate_session_message request expected (heartbeat nonce sequence) =
    check_session (nonce === request.nonce) (sequence == expected) true
validate_session_message request expected (result artifact base) = check_base request expected base
validate_session_message request expected (remote_error code message base) =
    check_base request expected base
validate_session_message request expected (cancel_ack base) = check_base request expected base
validate_session_message request expected (cleanup_complete base) = check_base request expected base

-- What a message does to the loop of an active session: the loop goes on with a handshake accepted
-- or not and a sequence expected, it returns, or it throws, with the sequence that is expected then.
pub data Round : Type 0 where
  continued : (accepted : Bool) (expected : ℕ) → Round
  finished : SidecarSessionResult → Round
  broken : SidecarSessionError → (expected : ℕ) → Round

abbrev pub accept_handshake : SidecarSessionRequest → ℕ → SidecarMessage → Round
accept_handshake request expected (handshake capabilities manifest_hash nonce) =
    if not (nonce === request.nonce)
      || (not (manifest_hash === request.manifest_hash) || not (includes "analysis" capabilities))
    then broken (violation "Sidecar handshake did not match the session") expected
    else continued true 1
accept_handshake request expected _ =
    broken (violation "Handshake must be the first message") expected

abbrev pub control : SidecarSessionError
control = violation "Sidecar emitted cancellation control during an active session"

-- The message of a session, after its checks; the sequence has been counted.
abbrev pub session_message : ℕ → SidecarMessage → Round
session_message next (cancel_ack base) = broken control next
session_message next (cleanup_complete base) = broken control next
session_message next (remote_error code message base) =
    broken
      (record {
        code = remote_failure;
        message = template ("Sidecar " ∷ code ∷ ": " ∷ message ∷ []);
        remote_code = some code;
      })
      next
session_message next (result artifact base) =
    finished (record { artifact = artifact; job_id = base.job_id; request_id = base.request_id })
session_message next (heartbeat nonce sequence) = continued true next
session_message next (handshake capabilities manifest_hash nonce) = continued true next

abbrev pub checked_message : Option SidecarSessionError → ℕ → SidecarMessage → Round
checked_message (some failure) expected message = broken failure expected
checked_message none expected message = session_message (expected + 1) message

-- One message in the loop of `runSidecarProtocol`; `none` is one that fails its schema.
unfoldable pub round : SidecarSessionRequest → Bool → ℕ → Option SidecarMessage → Round
unfolding validate_session_message
round request accepted expected none = broken invalid_message expected
round request false expected (some message) = accept_handshake request expected message
round request true expected (some message) =
    checked_message (validate_session_message request expected message) expected message

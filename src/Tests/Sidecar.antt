-- ===== src/Tests/Sidecar.antt =====
-- The theorems on the session with the analysis process, at a process that sends a handshake, a
-- heartbeat and a result.
use open_chords.Prelude.{
  ◌⊎◌, inl, Bool, arith, false, ℕ, zero, suc, includes, ◌+◌, ◌≡◌, ◌≢◌, ◌<◌, refl, true, List, [],
  ◌∷◌, ◌++◌, Option, none, some, map, length,
}
use open_chords.Sidecar.{session_error, disposed}
use open_chords.Sidecar.Frames.{
  max_frame_bytes, closed, never, push, decode_sidecar_frames, encode_sidecar_frame, write_uint32,
  next_frame, read_uint32, drain,
}
use open_chords.Sidecar.Frames.RoundTrip.{decode-encode}
use open_chords.Sidecar.Frames.Bounds.{push-lt, decode_sidecar_frames_ends}
use open_chords.Sidecar.Client.{
  ClientEvent, run_session, launched, settled, stopped, dispose, thrown, new_client, run_client,
}
use open_chords.Sidecar.Client.Exclusive.{IsExclusive, run_client-IsExclusive}
use open_chords.Sidecar.Messages.{
  Artifact, MessageBase, SidecarMessage, handshake, heartbeat, result, SidecarSessionRequest,
  SidecarSessionResult,
}
use open_chords.Sidecar.Protocol.{
  active, returned, Session, Action, arrive, written, abort_lifecycle, expire, resume,
  start_session, run,
}
use open_chords.Sidecar.Protocol.Conversation.{Converses, greeted, alive, reported}
use open_chords.Sidecar.Protocol.Reading.{reads, run-Converses}
use open_chords.Sidecar.Protocol.Completion.{pump, looks, run-decode}
use open_chords.Sidecar.Protocol.Cancellation.{IsCancelling, IsWriting, run-IsCancelling}
use open_chords.Sidecar.Protocol.Told.{IsTold, run-IsTold}
use open_chords.Sidecar.Protocol.Deadlines.{IsOver, deadlines, run-IsOver}

abbrev request : SidecarSessionRequest
request = record { job_id = "job"; manifest_hash = "hash"; nonce = "nonce"; request_id = "request" }

abbrev artifact : Artifact
artifact = record { byte_size = 2; path = "result.json"; sha256 = "sum" }

abbrev outcome : SidecarSessionResult
outcome = record { artifact = artifact; job_id = "job"; request_id = "request" }

abbrev base : MessageBase
base = record { job_id = "job"; nonce = "nonce"; request_id = "request"; sequence = 2 }

-- A JSON text of one byte for each of the three messages; every text is a JSON text.
abbrev parse : List ℕ → Option (List ℕ)
parse text = some text

abbrev stringify : List ℕ → List ℕ
stringify text = text

abbrev validate : List ℕ → Option SidecarMessage
validate (zero ∷ []) = some (handshake ("analysis" ∷ []) "hash" "nonce")
validate (suc zero ∷ []) = some (heartbeat "nonce" 1)
validate (suc (suc zero) ∷ []) = some (result artifact base)
validate _ = none

abbrev texts : List (List ℕ)
texts = (0 ∷ []) ∷ (1 ∷ []) ∷ (2 ∷ []) ∷ []

abbrev conversation : List SidecarMessage
conversation =
    handshake ("analysis" ∷ []) "hash" "nonce" ∷ heartbeat "nonce" 1 ∷ result artifact base ∷ []

-- The frames, cut within a length and within a frame.
abbrev chunks : List (List ℕ)
chunks = (0 ∷ 0 ∷ []) ∷ (0 ∷ 1 ∷ 0 ∷ 0 ∷ 0 ∷ 0 ∷ 1 ∷ []) ∷ (1 ∷ 0 ∷ 0 ∷ 0 ∷ 1 ∷ 2 ∷ []) ∷ []

conversation-Converses : Converses request conversation outcome
unfolding includes
conversation-Converses =
    greeted (refl, refl, refl)
      (alive (refl, refl) (reported (refl, refl, refl, refl, refl, refl, refl)))

decode-encode_example :
    decode_sidecar_frames parse chunks ≡ record { messages = texts; ending = closed }
unfolding encode_sidecar_frame write_uint32
decode-encode_example = decode-encode stringify parse texts chunks (λ m. refl) refl

push-lt_example : length {A = ℕ} (0 ∷ 0 ∷ 0 ∷ []) < max_frame_bytes + 4
unfolding push drain next_frame read_uint32
push-lt_example =
    push-lt parse (0 ∷ 0 ∷ 0 ∷ []) (1 ∷ 7 ∷ 0 ∷ 0 ∷ 0 ∷ []) ((7 ∷ []) ∷ []) (0 ∷ 0 ∷ 0 ∷ []) refl

decode_sidecar_frames_ends_example : (decode_sidecar_frames parse chunks).ending ≢ never
decode_sidecar_frames_ends_example = decode_sidecar_frames_ends parse chunks

abbrev heard : List (Action (List ℕ))
heard =
    written
    ∷ arrive (0 ∷ [])
    ∷ arrive (1 ∷ [])
    ∷ resume
    ∷ expire
    ∷ resume
    ∷ arrive (2 ∷ [])
    ∷ resume
    ∷ []

run-Converses_example :
    (ms : List SidecarMessage) × (map validate (reads validate request start_session heard)
      ≡ map (λ m. some m) ms)
    × Converses request ms outcome
unfolding run includes
run-Converses_example = run-Converses validate request heard outcome refl

run-decode_example :
    (run validate request start_session
      (written ∷ (pump (decode_sidecar_frames parse chunks) ++ looks texts))).phase
    ≡ returned outcome
unfolding encode_sidecar_frame write_uint32
run-decode_example =
    run-decode validate request parse stringify chunks texts conversation outcome (λ j. refl) refl
      refl conversation-Converses

abbrev stopping : Session (List ℕ)
stopping = record start_session {
  phase = active true 1;
  request_aborted = true;
  messages = (1 ∷ []) ∷ (2 ∷ []) ∷ [];
}

abbrev late : List (Action (List ℕ))
late = resume ∷ abort_lifecycle none ∷ resume ∷ resume ∷ expire ∷ resume ∷ []

run-IsCancelling_example :
    IsCancelling (run validate request stopping late).phase
    ⊎ (IsWriting stopping.phase × IsWriting (run validate request stopping late).phase)
run-IsCancelling_example = run-IsCancelling validate request stopping late refl (inl refl)

run-IsTold_example :
    IsTold
      (run validate request start_session heard).phase
      (run validate request start_session heard).sent
run-IsTold_example = run-IsTold validate request heard

-- The cancel frame cannot be written.
abbrev endings : List Bool
endings = true ∷ false ∷ false ∷ true ∷ true ∷ []

run-IsOver_example : IsOver (run validate request stopping (deadlines endings)).phase
run-IsOver_example = run-IsOver validate request stopping endings (omega arith)

-- A call, a second one that is refused, and a disposal while the protocol runs.
abbrev disposal : List ClientEvent
disposal =
    run_session true false
    ∷ launched
    ∷ run_session true false
    ∷ dispose
    ∷ settled (thrown (session_error disposed "Sidecar client was disposed during a session"))
    ∷ stopped
    ∷ run_session true false
    ∷ []

run_client-IsExclusive_example : IsExclusive (run_client new_client disposal)
run_client-IsExclusive_example = run_client-IsExclusive disposal

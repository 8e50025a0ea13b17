-- ===== src/Sidecar/Frames.antt =====
-- apps/desktop/src/main/sidecar-protocol.ts: the frames on the pipe, four bytes of length before a
-- JSON text. A byte is a number below 256; `parse` and `stringify` are the JSON of the runtime over
-- UTF-8 bytes, with `none` for a text that is no JSON.
pub mod Drains
pub mod Chunks
pub mod RoundTrip
pub mod Bounds
use open_chords.Prelude.{
  ℕ, zero, suc, ◌+◌, ◌*◌, ◌/◌, ◌%◌, String, Bool, Option, none, some, List, [], ◌∷◌, ◌++◌, ltb,
  ◌==◌, length, take, drop, if◌then◌else◌,
}
use open_chords.Sidecar.{
  SidecarSessionError, session_error, frame_too_large, protocol_violation, Attempt, thrown, given,
  endless,
}

abbrev pub max_frame_bytes : ℕ
max_frame_bytes = 1048576

-- `readUInt32BE(0)`, of four bytes at least
unfoldable pub read_uint32 : List ℕ → ℕ
read_uint32 (a ∷ b ∷ c ∷ d ∷ rest) = a * 16777216 + (b * 65536 + (c * 256 + d))
read_uint32 _ = 0

-- `writeUInt32BE(n, 0)`
unfoldable pub write_uint32 : ℕ → List ℕ
write_uint32 n = n / 16777216 % 256 ∷ n / 65536 % 256 ∷ n / 256 % 256 ∷ n % 256 ∷ []

-- One round of the loop of `push`: a frame over the limit, a frame that is not whole yet, or a
-- payload and what follows it.
pub data Frame : Type 0 where
  too_large : Frame
  waiting : Frame
  whole : (payload rest : List ℕ) → Frame

unfoldable pub next_frame : List ℕ → Frame
unfolding read_uint32
next_frame buffer =
    if ltb (length buffer) 4
    then waiting
    else if ltb max_frame_bytes (read_uint32 buffer)
    then too_large
    else if ltb (length buffer) (read_uint32 buffer + 4)
    then waiting
    else whole (take (read_uint32 buffer) (drop 4 buffer)) (drop (read_uint32 buffer + 4) buffer)

abbrev pub oversized : SidecarSessionError
oversized = session_error frame_too_large "Sidecar frame exceeds one MiB"

abbrev pub invalid_json : SidecarSessionError
invalid_json = session_error protocol_violation "Sidecar emitted invalid JSON"

abbrev pub partial_frame : SidecarSessionError
partial_frame = session_error protocol_violation "Sidecar closed with a partial frame"

abbrev pub cons_message : {J : Type 0} → J → Attempt (List J × List ℕ) → Attempt (List J × List ℕ)
cons_message m (thrown e) = thrown e
cons_message m (given (messages, rest)) = given (m ∷ messages, rest)
cons_message m endless = endless

-- The generator ends, it throws, or a loop of it does not end.
pub data Ending : Type 0 where
  closed never : Ending
  failed : SidecarSessionError → Ending

-- What `decodeSidecarFrames` yields, and how it ends.
pub record Decoded (J : Type 0) : Type 0 where
  pub messages : List J
  pub ending : Ending

abbrev pub yielding : {J : Type 0} → List J → Decoded J → Decoded J
yielding messages d = record d { messages = messages ++ d.messages }

abbrev pub finish : {J : Type 0} → List ℕ → Decoded J
finish [] = record { messages = []; ending = closed }
finish (byte ∷ buffer) = record { messages = []; ending = failed partial_frame }

module _ {J : Type 0} (parse : List ℕ → Option J) where
  -- The loop of `push`, with the messages and the buffer that it leaves. A round takes four bytes at
  -- least, so that a round for each byte is enough.
  unfoldable pub drain : ℕ → List ℕ → Attempt (List J × List ℕ)
  unfolding next_frame
  drain zero buffer = endless
  drain (suc fuel) buffer = elim (next_frame buffer) [
    | too_large ↦ thrown oversized
    | waiting ↦ given ([], buffer)
    | whole payload rest ↦ elim (parse payload) [
      | none ↦ thrown invalid_json
      | some m ↦ cons_message m (drain fuel rest)
    ]
  ]

  -- `push`: the buffer and the chunk that was read.
  unfoldable pub push : List ℕ → List ℕ → Attempt (List J × List ℕ)
  unfolding drain
  push buffer chunk = drain (suc (length (buffer ++ chunk))) (buffer ++ chunk)

  -- The chunks in the order in which the process writes them. A chunk that throws yields none of its
  -- messages.
  unfoldable pub decode_chunks : List ℕ → List (List ℕ) → Decoded J
  unfolding push
  decode_chunks buffer [] = finish buffer
  decode_chunks buffer (chunk ∷ chunks) = elim (push buffer chunk) [
    | thrown e ↦ record { messages = []; ending = failed e }
    | given (messages, rest) ↦ yielding messages (decode_chunks rest chunks)
    | endless ↦ record { messages = []; ending = never }
  ]

  unfoldable pub decode_sidecar_frames : List (List ℕ) → Decoded J
  unfolding decode_chunks
  decode_sidecar_frames chunks = decode_chunks [] chunks

unfoldable pub encode_sidecar_frame : {J : Type 0} → (J → List ℕ) → J → Attempt (List ℕ)
unfolding write_uint32
encode_sidecar_frame stringify message =
    let payload = stringify message in
    if ltb max_frame_bytes (length payload)
    then thrown oversized
    else given (write_uint32 (length payload) ++ payload)

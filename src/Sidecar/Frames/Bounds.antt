-- ===== src/Sidecar/Frames/Bounds.antt =====
-- The decoder ends, and keeps less than one frame between two chunks.
use open_chords.Prelude.{
  ℕ, zero, suc, ◌+◌, ◌<◌, ◌≡◌, ◌≢◌, ◌⊎◌, refl, inl, inr, Option, List, [], ◌∷◌, ◌++◌, arith, length,
  ltb, Bool-cases, Option-cases,
}
use open_chords.Sidecar.{SidecarSessionError, Attempt, thrown, given, endless}
use open_chords.Sidecar.Frames.{
  waiting, read_uint32, next_frame, max_frame_bytes, cons_message, drain, push, never, finish,
  decode_chunks, decode_sidecar_frames,
}
use open_chords.Sidecar.Frames.Drains.{Frame-cases, Drains, rest, frame, drain_sound, whole_shorter}

waiting_lt : (buffer : List ℕ) → next_frame buffer ≡ waiting → length buffer < max_frame_bytes + 4
unfolding next_frame
waiting_lt buffer h = elim (Bool-cases (ltb (length buffer) 4)) [
  | inl short ↦ ground arith
  | inr long ↦ elim (Bool-cases (ltb max_frame_bytes (read_uint32 buffer))) [
    | inl large ↦ absurd (ground arith)
    | inr fits ↦ elim (Bool-cases (ltb (length buffer) (read_uint32 buffer + 4))) [
      | inl partial ↦ ground arith
      | inr there ↦ absurd (ground arith)
    ]
  ]
]

module _ {J : Type 0} (parse : List ℕ → Option J) where
  Drains-waiting :
      (buffer : List ℕ) (ms : List J) (final : List ℕ)
      → Drains parse buffer ms final
      → next_frame final ≡ waiting
  Drains-waiting buffer ms final (rest h) = h
  Drains-waiting buffer ms final (frame {left} {ms = later} h p d) =
      Drains-waiting left later final d

  -- What the decoder keeps after a chunk is less than the largest frame, however long the chunk was.
  pub push-lt :
      (buffer chunk : List ℕ) (ms : List J) (left : List ℕ)
      → push parse buffer chunk ≡ given (ms, left)
      → length left < max_frame_bytes + 4
  unfolding push
  push-lt buffer chunk ms left h = waiting_lt left (
      Drains-waiting (buffer ++ chunk) ms left
        (drain_sound parse (suc (length (buffer ++ chunk))) (buffer ++ chunk) ms left h))

  cons_ends : (m : J) (r : Attempt (List J × List ℕ)) → r ≢ endless → cons_message m r ≢ endless
  cons_ends m (thrown e) h k = cc
  cons_ends m (given x) h k = cc
  cons_ends m endless h k = h refl

  drain_ends :
      (fuel : ℕ) (buffer : List ℕ) → length buffer < fuel → drain parse fuel buffer ≢ endless
  unfolding drain
  drain_ends zero buffer l = absurd (omega arith)
  drain_ends (suc fuel) buffer l = elim (Frame-cases (next_frame buffer)) [
    | inl large ↦ rw (large, drain) (λ e. cc)
    | inr (inl waits) ↦ rw (waits, drain) (λ e. cc)
    | inr (inr (payload, left, taken)) ↦ elim (Option-cases (parse payload)) [
      | inl bad ↦ rw (taken, bad, drain) (λ e. cc)
      | inr (m, parsed) ↦
          rw (taken, parsed, drain)
            (cons_ends m (drain parse fuel left)
              (drain_ends fuel left (omega (arith, whole_shorter buffer payload left taken))))
    ]
  ]

  finish_ends : (buffer : List ℕ) → (finish {J = J} buffer).ending ≢ never
  finish_ends [] e = cc
  finish_ends (byte ∷ buffer) e = cc

  push_cases :
      (r : Attempt (List J × List ℕ))
      → r ≢ endless
      → ((e : SidecarSessionError) × (r ≡ thrown e))
        ⊎ ((ms : List J) × (left : List ℕ) × (r ≡ given (ms, left)))
  push_cases (thrown e) h = inl (e, refl)
  push_cases (given (ms, left)) h = inr (ms, left, refl)
  push_cases endless h = absurd (h refl)

  push_ends : (buffer chunk : List ℕ) → push parse buffer chunk ≢ endless
  unfolding push
  push_ends buffer chunk =
      drain_ends (suc (length (buffer ++ chunk))) (buffer ++ chunk) (omega arith)

  decode_chunks_ends :
      (buffer : List ℕ) (chunks : List (List ℕ))
      → (decode_chunks parse buffer chunks).ending ≢ never
  unfolding decode_chunks
  decode_chunks_ends buffer [] = finish_ends buffer
  decode_chunks_ends buffer (chunk ∷ chunks) =
      elim (push_cases (push parse buffer chunk) (push_ends buffer chunk)) [
        | inl (e, failure) ↦ rw (failure, decode_chunks) (λ e. cc)
        | inr (ms, left, pushed) ↦ rw (pushed, decode_chunks) (decode_chunks_ends left chunks)
      ]

  -- The decoder of a stream of chunks ends: it closes or throws, whatever the bytes are.
  pub decode_sidecar_frames_ends :
      (chunks : List (List ℕ)) → (decode_sidecar_frames parse chunks).ending ≢ never
  unfolding decode_sidecar_frames
  decode_sidecar_frames_ends chunks = decode_chunks_ends [] chunks

-- ===== src/Sidecar/Frames/Drains.antt =====
-- What the decoder has taken from a buffer, as a relation that names no fuel.
use open_chords.Prelude.{
  ℕ, zero, suc, ◌+◌, ◌≤◌, ◌<◌, ◌≡◌, ◌⊎◌, refl, ap, Option, some, List, [], ◌∷◌, arith, length, take,
  drop, ltb, Option-cases, Bool-cases, inl, inr,
}
use open_chords.Sidecar.{Attempt, thrown, given, endless}
use open_chords.Sidecar.Frames.{
  Frame, too_large, waiting, whole, read_uint32, next_frame, max_frame_bytes, cons_message, drain,
}

pub length-drop : (n : ℕ) (xs : List ℕ) → length (drop n xs) ≤ length xs
length-drop zero xs = omega arith
length-drop (suc n) [] = omega arith
length-drop (suc n) (x ∷ xs) = omega (arith, length-drop n xs)

pub length-drop_lt : (n : ℕ) (xs : List ℕ) → 0 < n → 0 < length xs → length (drop n xs) < length xs
length-drop_lt zero xs h l = absurd (omega arith)
length-drop_lt (suc n) [] h l = absurd (omega arith)
length-drop_lt (suc n) (x ∷ xs) h l = omega (arith, length-drop n xs)

-- What a whole frame tells of the buffer.
abbrev pub IsWhole : List ℕ → List ℕ → List ℕ → Type 0
IsWhole buffer payload left =
    (4 ≤ length buffer)
    × (read_uint32 buffer ≤ max_frame_bytes)
    × (read_uint32 buffer + 4 ≤ length buffer)
    × (payload ≡ take (read_uint32 buffer) (drop 4 buffer))
    × (left ≡ drop (read_uint32 buffer + 4) buffer)

pub whole_inv :
    (buffer payload left : List ℕ)
    → next_frame buffer ≡ whole payload left
    → IsWhole buffer payload left
unfolding next_frame
whole_inv buffer payload left h = elim (Bool-cases (ltb (length buffer) 4)) [
  | inl short ↦ absurd (ground arith)
  | inr long ↦ elim (Bool-cases (ltb max_frame_bytes (read_uint32 buffer))) [
    | inl large ↦ absurd (ground arith)
    | inr fits ↦ elim (Bool-cases (ltb (length buffer) (read_uint32 buffer + 4))) [
      | inl partial ↦ absurd (ground arith)
      | inr there ↦ (ground arith, ground arith, ground arith, ground arith, ground arith)
    ]
  ]
]

pub whole_shorter :
    (buffer payload left : List ℕ)
    → next_frame buffer ≡ whole payload left
    → length left < length buffer
whole_shorter buffer payload left h =
    let (long, _, _, _, e) = whole_inv buffer payload left h in
    omega (
      arith,
      ap (λ xs. length xs) e,
      length-drop_lt (read_uint32 buffer + 4) buffer (omega arith) (omega arith),
    )

pub Frame-cases :
    (f : Frame)
    → (f ≡ too_large)
      ⊎ ((f ≡ waiting) ⊎ ((payload : List ℕ) × (left : List ℕ) × (f ≡ whole payload left)))
Frame-cases too_large = inl refl
Frame-cases waiting = inr (inl refl)
Frame-cases (whole payload left) = inr (inr (payload, left, refl))

module _ {J : Type 0} (parse : List ℕ → Option J) where
  -- From a buffer the messages are read one after the other, and the rest waits for more bytes.
  pub data Drains : List ℕ → List J → List ℕ → Type 0 where
    rest : {buffer : List ℕ} → next_frame buffer ≡ waiting → Drains buffer [] buffer
    frame :
        {buffer payload left final : List ℕ} {m : J} {ms : List J}
        → next_frame buffer ≡ whole payload left
        → parse payload ≡ some m
        → Drains left ms final
        → Drains buffer (m ∷ ms) final

  -- With enough fuel the loop gives what the relation says.
  pub drain_complete :
      (fuel : ℕ) (buffer : List ℕ) (ms : List J) (final : List ℕ)
      → Drains buffer ms final
      → length buffer < fuel
      → drain parse fuel buffer ≡ given (ms, final)
  unfolding drain
  drain_complete zero buffer ms final d l = absurd (omega arith)
  drain_complete (suc fuel) buffer ms final (rest h) l = rw (h, drain) refl
  drain_complete (suc fuel) buffer ms final (frame {payload} {left} {m} {ms = later} h p d) l =
      rw (h, p, drain)
        (ap (cons_message m) (
          drain_complete fuel left later final d
            (omega (arith, whole_shorter buffer payload left h))))

  given_cons :
      (m : J) (r : Attempt (List J × List ℕ)) (ms : List J) (final : List ℕ)
      → cons_message m r ≡ given (ms, final)
      → (later : List J) × (ms ≡ m ∷ later) × (r ≡ given (later, final))
  given_cons m (thrown e) ms final h = cc
  given_cons m (given (later, left)) ms final h = (later, cc, cc)
  given_cons m endless ms final h = cc

  -- The other way: what the loop gives is what the relation says.
  pub drain_sound :
      (fuel : ℕ) (buffer : List ℕ) (ms : List J) (final : List ℕ)
      → drain parse fuel buffer ≡ given (ms, final)
      → Drains buffer ms final
  unfolding drain
  drain_sound zero buffer ms final h = cc
  drain_sound (suc fuel) buffer ms final h = elim (Frame-cases (next_frame buffer)) [
    | inl large ↦ absurd (ground (arith, large))
    | inr (inl waits) ↦
        let e : ms ≡ [] = ground (arith, waits) in
        let e' : final ≡ buffer = ground (arith, waits) in rw (e, e') (rest waits)
    | inr (inr (payload, left, taken)) ↦ elim (Option-cases (parse payload)) [
      | inl bad ↦ absurd (ground (arith, taken))
      | inr (m, parsed) ↦
          let more : cons_message m (drain parse fuel left) ≡ given (ms, final) =
            rw (taken, parsed, drain) at h in
          let (later, e, done) = given_cons m (drain parse fuel left) ms final more in
          rw e (frame taken parsed (drain_sound fuel left later final done))
    ]
  ]

-- ===== src/Sidecar/Frames/Chunks.antt =====
-- The chunks in which the bytes arrive do not matter.
use open_chords.Prelude.{
  ℕ, zero, suc, ◌+◌, ◌≤◌, ◌≡◌, refl, ap, sym, subst, ◌∙◌, inl, inr, Option, List, [], ◌∷◌, ◌++◌,
  arith, length, length-append, take, drop, ltb, Bool-cases,
}
use mathlib.Core.List.{append_assoc, append-nil}
use open_chords.Sidecar.{given}
use open_chords.Sidecar.Frames.{
  too_large, waiting, whole, read_uint32, next_frame, push, closed, decode_chunks,
  decode_sidecar_frames,
}
use open_chords.Sidecar.Frames.Drains.{Frame-cases, Drains, rest, frame, whole_inv, drain_complete}

abbrev pub concat : List (List ℕ) → List ℕ
concat [] = []
concat (chunk ∷ chunks) = chunk ++ concat chunks

read-append : (a b : List ℕ) → 4 ≤ length a → read_uint32 (a ++ b) ≡ read_uint32 a
unfolding read_uint32
read-append [] b h = absurd (omega arith)
read-append (_ ∷ []) b h = absurd (omega arith)
read-append (_ ∷ _ ∷ []) b h = absurd (omega arith)
read-append (_ ∷ _ ∷ _ ∷ []) b h = absurd (omega arith)
read-append (_ ∷ _ ∷ _ ∷ _ ∷ a) b h = refl

drop-append : (n : ℕ) (a b : List ℕ) → n ≤ length a → drop n (a ++ b) ≡ drop n a ++ b
drop-append zero a b h = refl
drop-append (suc n) [] b h = absurd (omega arith)
drop-append (suc n) (x ∷ a) b h = drop-append n a b (omega arith)

take-append : (n : ℕ) (a b : List ℕ) → n ≤ length a → take n (a ++ b) ≡ take n a
take-append zero a b h = refl
take-append (suc n) [] b h = absurd (omega arith)
take-append (suc n) (x ∷ a) b h = ap (λ xs. x ∷ xs) (take-append n a b (omega arith))

length-drop_eq : (n : ℕ) (a : List ℕ) → n ≤ length a → n + length (drop n a) ≡ length a
length-drop_eq zero a h = omega arith
length-drop_eq (suc n) [] h = absurd (omega arith)
length-drop_eq (suc n) (x ∷ a) h = omega (arith, length-drop_eq n a (omega arith))

-- More bytes behind a whole frame leave it as it is.
whole-append :
    (a b payload left : List ℕ)
    → next_frame a ≡ whole payload left
    → next_frame (a ++ b) ≡ whole payload (left ++ b)
unfolding next_frame
whole-append a b payload left h =
    let (long, fits, there, p, l) = whole_inv a payload left h in
    let size = read-append a b long in
    let more = length-append a b in
    let four = length-drop_eq 4 a long in
    ground (
      arith,
      size,
      more,
      take-append (read_uint32 a) (drop 4 a) b (omega arith),
      drop-append 4 a b long,
      drop-append (read_uint32 a + 4) a b there,
    )

too_large-append : (a b : List ℕ) → next_frame a ≡ too_large → next_frame (a ++ b) ≡ too_large
unfolding next_frame
too_large-append a b h =
    let more = length-append a b in
    elim (Bool-cases (ltb (length a) 4)) [
      | inl short ↦ absurd (ground arith)
      | inr long ↦ let size = read-append a b (ground arith) in ground (arith, size, more)
    ]

module _ {J : Type 0} (parse : List ℕ → Option J) where
  -- What was taken from `a`, before the bytes `b` that came behind it.
  record Split (a b : List ℕ) (ms : List J) (final : List ℕ) : Type 0 where
    first : List J
    second : List J
    left : List ℕ
    taken : Drains parse a first left
    waits : next_frame left ≡ waiting
    later : Drains parse (left ++ b) second final
    all : ms ≡ first ++ second

  nothing_yet :
      (w a b : List ℕ) (ms : List J) (final : List ℕ)
      → Drains parse w ms final
      → w ≡ a ++ b
      → next_frame a ≡ waiting
      → Split a b ms final
  nothing_yet w a b ms final d e waits = record {
    first = [];
    second = ms;
    left = a;
    taken = rest waits;
    waits = waits;
    later = subst (λ w. Drains parse w ms final) e d;
    all = refl;
  }

  split :
      (w a b : List ℕ) (ms : List J) (final : List ℕ)
      → Drains parse w ms final
      → w ≡ a ++ b
      → Split a b ms final
  split w a b ms final (rest h) e = elim (Frame-cases (next_frame a)) [
    | inl large ↦ absurd (ground (arith, h, ap next_frame e, too_large-append a b large))
    | inr (inl waits) ↦ nothing_yet w a b ms final (rest h) e waits
    | inr (inr (payload, left, taken)) ↦
        absurd (ground (arith, h, ap next_frame e, whole-append a b payload left taken))
  ]
  split w a b ms final (frame {payload} {left} {m} {ms = later} h p d) e =
      elim (Frame-cases (next_frame a)) [
        | inl large ↦ absurd (ground (arith, h, ap next_frame e, too_large-append a b large))
        | inr (inl waits) ↦ nothing_yet w a b ms final (frame h p d) e waits
        | inr (inr (payload', left', taken)) ↦
            let same : whole payload left ≡ whole payload' (left' ++ b) =
              sym h ∙ ap next_frame e ∙ whole-append a b payload' left' taken in
            let same_payload : payload ≡ payload' = cc in
            let same_left : left ≡ left' ++ b = cc in
            let s = split left left' b later final d same_left in
            record {
              first = m ∷ s.first;
              second = s.second;
              left = s.left;
              taken = frame taken (ap parse (sym same_payload) ∙ p) s.taken;
              waits = s.waits;
              later = s.later;
              all = ap (λ xs. m ∷ xs) s.all;
            }
      ]

  push-Drains :
      (buffer chunk : List ℕ) (ms : List J) (left : List ℕ)
      → Drains parse (buffer ++ chunk) ms left
      → push parse buffer chunk ≡ given (ms, left)
  unfolding push
  push-Drains buffer chunk ms left d =
      drain_complete parse (suc (length (buffer ++ chunk))) (buffer ++ chunk) ms left d
        (omega arith)

  nothing_left :
      (buffer : List ℕ) (ms : List J) (final : List ℕ)
      → Drains parse buffer ms final
      → next_frame buffer ≡ waiting
      → (final ≡ buffer) × (ms ≡ [])
  nothing_left buffer ms final (rest h) waits = (refl, refl)
  nothing_left buffer ms final (frame h p d) waits = absurd (ground (arith, h, waits))

  decode_chunks-Drains :
      (buffer : List ℕ) (chunks : List (List ℕ)) (ms : List J)
      → next_frame buffer ≡ waiting
      → Drains parse (buffer ++ concat chunks) ms []
      → decode_chunks parse buffer chunks ≡ record { messages = ms; ending = closed }
  unfolding decode_chunks
  decode_chunks-Drains buffer [] ms waits d =
      let whole_buffer = append-nil buffer in
      let (empty, none_read) =
        nothing_left buffer ms [] (subst (λ w. Drains parse w ms []) whole_buffer d) waits in
      rw (sym empty, none_read) refl
  decode_chunks-Drains buffer (chunk ∷ chunks) ms waits d =
      let s =
        split _ (buffer ++ chunk) (concat chunks) ms [] d
          (sym (append_assoc buffer chunk (concat chunks))) in
      let pushed = push-Drains buffer chunk s.first s.left s.taken in
      let later = decode_chunks-Drains s.left chunks s.second s.waits s.later in
      rw (pushed, decode_chunks) (rw (later, s.all) refl)

  -- However the bytes of whole frames are cut into chunks, the decoder yields the messages of the
  -- frames in their order and then closes.
  pub decode_sidecar_frames-Drains :
      (chunks : List (List ℕ)) (ms : List J)
      → Drains parse (concat chunks) ms []
      → decode_sidecar_frames parse chunks ≡ record { messages = ms; ending = closed }
  unfolding decode_sidecar_frames next_frame
  decode_sidecar_frames-Drains chunks ms d = decode_chunks-Drains [] chunks ms refl d

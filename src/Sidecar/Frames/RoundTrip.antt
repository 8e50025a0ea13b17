-- ===== src/Sidecar/Frames/RoundTrip.antt =====
-- What one end encodes the other end decodes.
use open_chords.Prelude.{
  ℕ, suc, ◌+◌, ◌≤◌, ◌≡◌, refl, ap, sym, ◌∙◌, inl, inr, Option, some, List, [], ◌∷◌, ◌++◌, arith,
  length, length-append, take, drop, ltb, Bool-cases,
}
use open_chords.Sidecar.{Attempt, thrown, given, endless}
use open_chords.Sidecar.Frames.{
  whole, read_uint32, write_uint32, next_frame, max_frame_bytes, encode_sidecar_frame, closed,
  decode_sidecar_frames,
}
use open_chords.Sidecar.Frames.Drains.{Drains, rest, frame}
use open_chords.Sidecar.Frames.Chunks.{concat, decode_sidecar_frames-Drains}

read-write :
    (n : ℕ) (more : List ℕ) → n ≤ max_frame_bytes → read_uint32 (write_uint32 n ++ more) ≡ n
unfolding read_uint32 write_uint32
read-write n more h = omega arith

take_all : (xs ys : List ℕ) → take (length xs) (xs ++ ys) ≡ xs
take_all [] ys = refl
take_all (x ∷ xs) ys = ap (λ zs. x ∷ zs) (take_all xs ys)

drop_all : (xs ys : List ℕ) → drop (length xs) (xs ++ ys) ≡ ys
drop_all [] ys = refl
drop_all (x ∷ xs) ys = drop_all xs ys

drop_header : (n m : ℕ) (xs : List ℕ) → drop (m + 4) (write_uint32 n ++ xs) ≡ drop m xs
unfolding write_uint32
drop_header n m xs = let e : m + 4 ≡ suc (suc (suc (suc m))) = omega arith in rw e refl

length_header : (n : ℕ) (xs : List ℕ) → length (write_uint32 n ++ xs) ≡ 4 + length xs
unfolding write_uint32
length_header n xs = omega arith

header_assoc :
    (n : ℕ) (xs ys : List ℕ) → (write_uint32 n ++ xs) ++ ys ≡ write_uint32 n ++ (xs ++ ys)
unfolding write_uint32
header_assoc n xs ys = refl

next_frame-encoded :
    (payload more : List ℕ)
    → length payload ≤ max_frame_bytes
    → next_frame ((write_uint32 (length payload) ++ payload) ++ more) ≡ whole payload more
unfolding next_frame
next_frame-encoded payload more fits = ground (
  arith,
  read-write (length payload) (payload ++ more) fits,
  length_header (length payload) (payload ++ more),
  length-append payload more,
  drop_header (length payload) 0 (payload ++ more),
  drop_header (length payload) (length payload) (payload ++ more),
  take_all payload more,
  drop_all payload more,
  header_assoc (length payload) payload more,
)

-- The bytes of the frames of some messages, one after the other.
abbrev pub joined_bytes : Attempt (List ℕ) → Attempt (List ℕ) → Attempt (List ℕ)
joined_bytes (given a) (given b) = given (a ++ b)
joined_bytes (given a) other = other
joined_bytes other b = other

module _ {J : Type 0} (stringify : J → List ℕ) where
  abbrev pub encode_all : List J → Attempt (List ℕ)
  encode_all [] = given []
  encode_all (m ∷ ms) = joined_bytes (encode_sidecar_frame stringify m) (encode_all ms)

  encoded :
      (m : J) (bytes : List ℕ)
      → encode_sidecar_frame stringify m ≡ given bytes
      → (length (stringify m) ≤ max_frame_bytes)
        × (bytes ≡ write_uint32 (length (stringify m)) ++ stringify m)
  unfolding encode_sidecar_frame
  encoded m bytes h = elim (Bool-cases (ltb max_frame_bytes (length (stringify m)))) [
    | inl large ↦ absurd (ground arith)
    | inr fits ↦ (ground arith, ground arith)
  ]

  joined_given :
      (a b : Attempt (List ℕ)) (bytes : List ℕ)
      → joined_bytes a b ≡ given bytes
      → (first : List ℕ) × (second : List ℕ) × (a ≡ given first)
        × (b ≡ given second)
        × (first ++ second ≡ bytes)
  joined_given (given first) (given second) bytes h = (first, second, refl, refl, cc)
  joined_given (given first) (thrown e) bytes h = cc
  joined_given (given first) endless bytes h = cc
  joined_given (thrown e) b bytes h = cc
  joined_given endless b bytes h = cc

  encode_all-Drains :
      (parse : List ℕ → Option J) (ms : List J) (bytes : List ℕ)
      → ((m : J) → parse (stringify m) ≡ some m)
      → encode_all ms ≡ given bytes
      → Drains parse bytes ms []
  unfolding next_frame
  encode_all-Drains parse [] bytes inverse h = let e : bytes ≡ [] = cc in rw e (rest refl)
  encode_all-Drains parse (m ∷ ms) bytes inverse h =
      let (first, second, a, b, joined) =
        joined_given (encode_sidecar_frame stringify m) (encode_all ms) bytes h in
      let (fits, e) = encoded m first a in
      let read =
        ap next_frame (sym joined ∙ ap (λ f. f ++ second) e)
        ∙ next_frame-encoded (stringify m) second fits in
      frame read (inverse m) (encode_all-Drains parse ms second inverse b)

  -- Messages that were all encoded, none of them over the limit, come out of the decoder as they are
  -- and in their order, however the bytes are cut into chunks, if `parse` reads what `stringify` writes.
  pub decode-encode :
      (parse : List ℕ → Option J) (ms : List J) (chunks : List (List ℕ))
      → ((m : J) → parse (stringify m) ≡ some m)
      → encode_all ms ≡ given (concat chunks)
      → decode_sidecar_frames parse chunks ≡ record { messages = ms; ending = closed }
  decode-encode parse ms chunks inverse h =
      decode_sidecar_frames-Drains parse chunks ms
        (encode_all-Drains parse ms (concat chunks) inverse h)

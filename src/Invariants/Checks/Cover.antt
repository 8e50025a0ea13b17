-- ===== src/Invariants/Checks/Cover.antt =====
-- What `validateCover` accepts: the half-open intervals that follow one another from 0 to the
-- duration.
use Prim.Native.Nat.{max}
use open_chords.Prelude.{
  ℕ, ◌+◌, ◌≤◌, ◌<◌, String, ◌≡◌, refl, ◌≢◌, ◌↔◌, Bool, ◌&&◌, List, [], ◌∷◌, arith, ltb, leb,
  if◌then◌else◌,
}
use open_chords.Invariants.Checks.{Interval, cover_from, validate_cover}

-- From `cursor`, each interval starts where the one before it ends, and the last ends at `limit`.
abbrev pub Tiles : ℕ → List Interval → ℕ → Type 0
Tiles cursor [] limit = cursor ≡ limit
Tiles cursor (i ∷ is) limit =
    (i.start_sample ≡ cursor) × (i.start_sample < i.end_sample) × Tiles i.end_sample is limit

abbrev pub IsCover : List Interval → ℕ → Type 0
IsCover track duration = (track ≢ []) × Tiles 0 track duration

-- Whether a sample lies in an interval, and how many intervals of a track it lies in.
abbrev pub holds : Interval → ℕ → Bool
holds i s = leb i.start_sample s && ltb s i.end_sample

abbrev pub times_held : List Interval → ℕ → ℕ
times_held [] s = 0
times_held (i ∷ is) s = (if holds i s then 1 else 0) + times_held is s

cover_from_sound :
    (cursor : ℕ) (track : List Interval) (duration : ℕ) (label : String)
    → cover_from cursor track duration label ≡ []
    → Tiles cursor track duration
unfolding cover_from
cover_from_sound cursor [] duration label h = ground arith
cover_from_sound cursor (i ∷ is) duration label h =
    let e : max cursor i.end_sample ≡ i.end_sample = ground arith in
    let later : cover_from (max cursor i.end_sample) is duration label ≡ [] = ground arith in
    (ground arith, ground arith, cover_from_sound _ is duration label (rw e at later))

cover_from_complete :
    (cursor : ℕ) (track : List Interval) (duration : ℕ) (label : String)
    → Tiles cursor track duration
    → cover_from cursor track duration label ≡ []
unfolding cover_from
cover_from_complete cursor [] duration label h = ground arith
cover_from_complete cursor (i ∷ is) duration label (starts, half_open, later) =
    let e : max cursor i.end_sample ≡ i.end_sample = omega arith in
    rw e (ground (arith, cover_from_complete i.end_sample is duration label later))

Tiles-le : {cursor limit : ℕ} (track : List Interval) → Tiles cursor track limit → cursor ≤ limit
Tiles-le [] h = omega arith
Tiles-le (i ∷ is) (e, l, t) = omega (arith, Tiles-le is t)

times_held_before :
    (cursor limit : ℕ) (track : List Interval) (s : ℕ)
    → Tiles cursor track limit
    → s < cursor
    → times_held track s ≡ 0
times_held_before cursor limit [] s h l = refl
times_held_before cursor limit (i ∷ is) s (e, o, t) l =
    ground (arith, times_held_before i.end_sample limit is s t)

times_held_inside :
    (cursor limit : ℕ) (track : List Interval) (s : ℕ)
    → Tiles cursor track limit
    → cursor ≤ s
    → s < limit
    → times_held track s ≡ 1
times_held_inside cursor limit [] s h l m = absurd (omega arith)
times_held_inside cursor limit (i ∷ is) s (e, o, t) l m = ground (
  arith,
  times_held_before i.end_sample limit is s t,
  times_held_inside i.end_sample limit is s t,
)

-- The check pushes no issue exactly when the track is not empty, its intervals are not empty, the
-- first starts at 0, each starts where the one before it ends, and the last ends at the duration.
pub validate_cover_iff :
    (track : List Interval) (duration : ℕ) (label : String)
    → (validate_cover track duration label ≡ []) ↔ IsCover track duration
unfolding validate_cover
validate_cover_iff [] duration label = (λ h. cc, λ c. absurd (c.0 refl))
validate_cover_iff (i ∷ is) duration label = (
  λ h. (cc, cover_from_sound 0 (i ∷ is) duration label h),
  λ c. cover_from_complete 0 (i ∷ is) duration label c.1,
)

pub IsCover-times_held :
    (track : List Interval) (duration : ℕ) (s : ℕ)
    → IsCover track duration
    → s < duration
    → times_held track s ≡ 1
IsCover-times_held track duration s c l = times_held_inside 0 duration track s c.1 (omega arith) l

-- ===== src/Draft/Update/Tiles.antt =====
-- How a draft keeps its events one after another.
use open_chords.Prelude.{
  ℕ, zero, suc, ◌+◌, ◌-◌, ◌≤◌, ◌≡◌, refl, ap, subst, ◌∙◌, inl, inr, String, Bool, true, some, List,
  [], ◌∷◌, ◌++◌, map, arith, take, drop, keep, find, splice, ◌===◌, Bool-cases, if◌then◌else◌,
}
use open_chords.Schema.{ChordValue, SequenceEvent}
use open_chords.Draft.Update.{reflow, resize, revalue}

-- The ids and lengths of events.
abbrev pub lengths : List SequenceEvent → List (String × ℕ)
lengths events = map (λ e. (e.id, e.end_sample - e.start_sample)) events

-- The lengths, with that of one event set.
abbrev pub with_length : String → ℕ → List (String × ℕ) → List (String × ℕ)
with_length id duration pairs =
    map (λ (pair : String × ℕ). if pair.0 === id then (pair.0, duration) else pair) pairs

-- No event ends before it starts.
abbrev pub Ordered : List SequenceEvent → Type 0
Ordered [] = true ≡ true
Ordered (e ∷ events) = (e.start_sample ≤ e.end_sample) × Ordered events

-- Each event starts where the one before it ends, the first at the cursor.
abbrev pub Follows : ℕ → List SequenceEvent → Type 0
Follows cursor [] = true ≡ true
Follows cursor (e ∷ events) =
    (e.start_sample ≡ cursor) × (e.start_sample ≤ e.end_sample) × Follows e.end_sample events

pub reflow-Follows :
    (start : ℕ) (events : List SequenceEvent) → Ordered events → Follows start (reflow start events)
unfolding reflow
reflow-Follows start [] h = refl
reflow-Follows start (e ∷ events) (h, hs) =
    (refl, omega arith, reflow-Follows (start + e.end_sample - e.start_sample) events hs)

pub lengths-reflow :
    (start : ℕ) (events : List SequenceEvent)
    → Ordered events
    → lengths (reflow start events) ≡ lengths events
unfolding reflow
lengths-reflow start [] h = refl
lengths-reflow start (e ∷ events) (h, hs) =
    let n : start + e.end_sample - e.start_sample - start ≡ e.end_sample - e.start_sample =
      omega arith in
    ap (λ n. (e.id, n) ∷ lengths (reflow (start + e.end_sample - e.start_sample) events)) n
    ∙ ap (λ rest. (e.id, e.end_sample - e.start_sample) ∷ rest)
        (lengths-reflow (start + e.end_sample - e.start_sample) events hs)

pub Follows-Ordered :
    (start : ℕ) (events : List SequenceEvent) → Follows start events → Ordered events
Follows-Ordered start [] h = refl
Follows-Ordered start (e ∷ events) (h, le, hs) = (le, Follows-Ordered _ events hs)

pub resize-Ordered :
    (id : String) (duration : ℕ) (events : List SequenceEvent)
    → Ordered events
    → Ordered (map (resize id duration) events)
resize-Ordered id duration [] h = refl
resize-Ordered id duration (e ∷ events) (h, hs) = elim (Bool-cases (e.id === id)) [
  | inl same ↦ rw same (omega arith, resize-Ordered id duration events hs)
  | inr other ↦ rw other (h, resize-Ordered id duration events hs)
]

pub lengths-resize :
    (id : String) (duration : ℕ) (events : List SequenceEvent)
    → lengths (map (resize id duration) events) ≡ with_length id duration (lengths events)
lengths-resize id duration [] = refl
lengths-resize id duration (e ∷ events) = elim (Bool-cases (e.id === id)) [
  | inl same ↦
      let n : e.start_sample + duration - e.start_sample ≡ duration = omega arith in
      rw (same, n, lengths-resize id duration events) refl
  | inr other ↦ rw (other, lengths-resize id duration events) refl
]

pub revalue-Ordered :
    (id : String) (value : ChordValue) (events : List SequenceEvent)
    → Ordered events
    → Ordered (map (revalue id value) events)
revalue-Ordered id value [] h = refl
revalue-Ordered id value (e ∷ events) (h, hs) = elim (Bool-cases (e.id === id)) [
  | inl same ↦ rw same (h, revalue-Ordered id value events hs)
  | inr other ↦ rw other (h, revalue-Ordered id value events hs)
]

append-Ordered : (xs ys : List SequenceEvent) → Ordered xs → Ordered ys → Ordered (xs ++ ys)
append-Ordered [] ys h k = k
append-Ordered (x ∷ xs) ys (h, hs) k = (h, append-Ordered xs ys hs k)

take-Ordered : (n : ℕ) (xs : List SequenceEvent) → Ordered xs → Ordered (take n xs)
take-Ordered zero xs h = refl
take-Ordered (suc n) [] h = refl
take-Ordered (suc n) (x ∷ xs) (h, hs) = (h, take-Ordered n xs hs)

drop-Ordered : (n : ℕ) (xs : List SequenceEvent) → Ordered xs → Ordered (drop n xs)
drop-Ordered zero xs h = h
drop-Ordered (suc n) [] h = refl
drop-Ordered (suc n) (x ∷ xs) (h, hs) = drop-Ordered n xs hs

pub keep-Ordered :
    (test : SequenceEvent → Bool) (xs : List SequenceEvent) → Ordered xs → Ordered (keep test xs)
unfolding keep
keep-Ordered test [] h = refl
keep-Ordered test (x ∷ xs) (h, hs) = elim (Bool-cases (test x)) [
  | inl kept ↦ rw kept (h, keep-Ordered test xs hs)
  | inr left ↦ rw left (keep-Ordered test xs hs)
]

pub find-Ordered :
    (test : SequenceEvent → Bool) (xs : List SequenceEvent) (x : SequenceEvent)
    → Ordered xs
    → find test xs ≡ some x
    → x.start_sample ≤ x.end_sample
unfolding find
find-Ordered test [] x h e = cc
find-Ordered test (y ∷ xs) x (h, hs) e = elim (Bool-cases (test y)) [
  | inl found ↦
      let same : y ≡ x = (let k = rw found at e in cc) in
      subst (λ (z : SequenceEvent). z.start_sample ≤ z.end_sample) same h
  | inr passed ↦ find-Ordered test xs x hs (rw passed at e)
]

pub splice-Ordered :
    (i : ℕ) (source : SequenceEvent) (xs : List SequenceEvent)
    → source.start_sample ≤ source.end_sample
    → Ordered xs
    → Ordered (splice i 0 (source ∷ []) xs)
splice-Ordered i source xs k h =
    append-Ordered (take i xs) (source ∷ drop (i + 0) xs) (take-Ordered i xs h)
      (k, drop-Ordered (i + 0) xs h)

-- ===== src/Practice/Navigation.antt =====
-- Navigation goes to the nearest start of a bar or a chord.
use open_chords.Prelude.{
  ℕ, ◌≤◌, ◌<◌, ◌≡◌, refl, ◌⊎◌, inl, inr, String, Bool, Bool-cases, ◌∙◌, true, false, none, some,
  List, [], ◌∷◌, map, ltb, ◌==◌, some_of, find, arith, Option-cases, All, ok, ap,
}
use open_chords.Schema.{Bar, ChordEvent, ProjectContract}
use open_chords.Invariants.Checks.Cover.{Tiles}
use open_chords.Invariants.Checks.Ids.{Starting, IsOrdered}
use open_chords.Invariants.Timeline.{bar_interval, chord_interval}
use open_chords.Projection.Materialize.{EffectiveTimeline, materialize_effective_timeline}
use open_chords.Projection.Materialize.Valid.{materialize-IsTimeline}
use open_chords.Practice.{
  Direction, StartKind, starts_of, find_last, nearest, practice_navigation, is_none,
}

-- The result for one direction: a start on that side of the position, or the end of the recording
-- on that side where there is none, with no start between it and the position.
abbrev pub IsNearest : List ℕ → ℕ → ℕ → Direction → ℕ → Type 0
IsNearest starts duration position Direction.forward n =
    ((some_of (λ s. s == n) starts ≡ true) × (position < n)
      ⊎ (n ≡ duration) × All (λ s. s ≤ position) starts)
    × All (λ s. (s ≤ position) ⊎ (n ≤ s)) starts
IsNearest starts duration position Direction.backward n =
    ((some_of (λ s. s == n) starts ≡ true) × (n < position)
      ⊎ (n ≡ 0) × All (λ s. position ≤ s) starts)
    × All (λ s. (position ≤ s) ⊎ (s ≤ n)) starts

abbrev Above : ℕ → List ℕ → Type 0
Above low [] = Unit
Above low (s ∷ starts) = (low < s) × Above s starts

abbrev pub IsRising : List ℕ → Type 0
IsRising [] = Unit
IsRising (s ∷ starts) = Above s starts

reaches :
    (low bound position : ℕ) (starts : List ℕ)
    → Above low starts
    → bound ≤ low
    → All (λ s. (s ≤ position) ⊎ (bound ≤ s)) starts
reaches low bound position [] h l = tt
reaches low bound position (s ∷ starts) (o, h) l =
    (inr (omega arith), reaches s bound position starts h (omega arith))

IsRising-tail : (s : ℕ) (starts : List ℕ) → IsRising (s ∷ starts) → IsRising starts
IsRising-tail s [] h = tt
IsRising-tail s (t ∷ starts) h = h.1

beyond_low :
    (s n : ℕ) (starts : List ℕ) → Above s starts → some_of (λ t. t == n) starts ≡ true → s < n
unfolding some_of
beyond_low s n [] h member = cc
beyond_low s n (t ∷ starts) (l, h) member = elim (Bool-cases (t == n)) [
  | inl here ↦ ground arith
  | inr there ↦ omega (arith, l, beyond_low t n starts h (ground arith))
]

found_after :
    (position n : ℕ) (starts : List ℕ)
    → IsRising starts
    → find (λ s. ltb position s) starts ≡ some n
    → (some_of (λ s. s == n) starts ≡ true)
      × (position < n)
      × All (λ s. (s ≤ position) ⊎ (n ≤ s)) starts
unfolding find some_of
found_after position n [] h found = cc
found_after position n (s ∷ starts) h found = elim (Bool-cases (ltb position s)) [
  | inl later ↦
      let e : s ≡ n = ground arith in
      (
        ground arith,
        ground arith,
        (inr (omega (arith, e)), reaches s n position starts h (omega (arith, e))),
      )
  | inr before ↦
      let rest : find (λ s. ltb position s) starts ≡ some n = ground arith in
      let (member, above, others) = found_after position n starts (IsRising-tail s starts h) rest in
      (ground arith, above, (inl (ground arith), others))
]

none_after :
    (position : ℕ) (starts : List ℕ)
    → find (λ s. ltb position s) starts ≡ none
    → All (λ s. s ≤ position) starts
unfolding find
none_after position [] none_found = tt
none_after position (s ∷ starts) none_found =
    (ground arith, none_after position starts (ground arith))

none_before :
    (position : ℕ) (starts : List ℕ)
    → find_last (λ s. ltb s position) starts ≡ none
    → All (λ s. position ≤ s) starts
unfolding find_last
none_before position [] none_found = tt
none_before position (s ∷ starts) none_found =
    (ground arith, none_before position starts (ground arith))

or_later :
    (position n : ℕ) (starts : List ℕ)
    → All (λ s. position ≤ s) starts
    → All (λ s. (position ≤ s) ⊎ (s ≤ n)) starts
or_later position n [] h = tt
or_later position n (s ∷ starts) (l, h) = (inl l, or_later position n starts h)

or_earlier :
    (position n : ℕ) (starts : List ℕ)
    → All (λ s. s ≤ position) starts
    → All (λ s. (s ≤ position) ⊎ (n ≤ s)) starts
or_earlier position n [] h = tt
or_earlier position n (s ∷ starts) (l, h) = (inl l, or_earlier position n starts h)

found_before :
    (position n : ℕ) (starts : List ℕ)
    → IsRising starts
    → find_last (λ s. ltb s position) starts ≡ some n
    → (some_of (λ s. s == n) starts ≡ true)
      × (n < position)
      × All (λ s. (position ≤ s) ⊎ (s ≤ n)) starts
unfolding find_last some_of
found_before position n [] h found = cc
found_before position n (s ∷ starts) h found =
    elim (Option-cases (find_last (λ s. ltb s position) starts)) [
      | inl nothing ↦
          let e : s ≡ n = ground arith in
          (
            ground arith,
            ground arith,
            (
              inr (omega (arith, e)),
              or_later position n starts (none_before position starts nothing),
            ),
          )
      | inr (m, later) ↦
          let e : m ≡ n = ground arith in
          let (member, below, others) =
            found_before position n starts (IsRising-tail s starts h) (later ∙ ap some e) in
          (ground arith, below, (inr (omega (arith, beyond_low s n starts h member)), others))
    ]

nearest-IsNearest :
    (starts : List ℕ) (duration position : ℕ) (direction : Direction)
    → IsRising starts
    → IsNearest starts duration position direction (nearest starts duration position direction)
unfolding nearest
nearest-IsNearest starts duration position Direction.forward h =
    elim (Option-cases (find (λ s. ltb position s) starts)) [
      | inl nothing ↦
          let below = none_after position starts nothing in
          rw nothing (inr (refl, below), or_earlier position duration starts below)
      | inr (n, found) ↦
          let (member, side, others) = found_after position n starts h found in
          rw found (inl (member, side), others)
    ]
nearest-IsNearest starts duration position Direction.backward h =
    elim (Option-cases (find_last (λ s. ltb s position) starts)) [
      | inl nothing ↦
          let above = none_before position starts nothing in
          rw nothing (inr (refl, above), or_later position 0 starts above)
      | inr (n, found) ↦
          let (member, side, others) = found_before position n starts h found in
          rw found (inl (member, side), others)
    ]

bars-Above :
    (b : Bar) (bars : List Bar)
    → Starting (bar_interval b) (map bar_interval bars)
    → Above b.start_sample (map (λ bar. bar.start_sample) bars)
bars-Above b [] h = tt
bars-Above b (c ∷ bars) (l, h) = (l, bars-Above c bars h)

bars-IsRising :
    (bars : List Bar)
    → IsOrdered (map bar_interval bars)
    → IsRising (map (λ bar. bar.start_sample) bars)
bars-IsRising [] h = tt
bars-IsRising (b ∷ bars) h = bars-Above b bars h

chords-Above :
    (low cursor duration : ℕ) (events : List ChordEvent)
    → low < cursor
    → Tiles cursor (map chord_interval events) duration
    → Above low (map (λ event. event.start_sample) events)
chords-Above low cursor duration [] l h = tt
chords-Above low cursor duration (e ∷ events) l (starts, o, h) =
    (omega (arith, starts), chords-Above e.start_sample e.end_sample duration events o h)

chords-IsRising :
    (cursor duration : ℕ) (events : List ChordEvent)
    → Tiles cursor (map chord_interval events) duration
    → IsRising (map (λ event. event.start_sample) events)
chords-IsRising cursor duration [] h = tt
chords-IsRising cursor duration (e ∷ events) (starts, o, h) =
    chords-Above e.start_sample e.end_sample duration events o h

module _ (collate : String → String → Bool) (project : ProjectContract)
    (e : EffectiveTimeline) where
  starts-IsRising :
      (kind : StartKind)
      → materialize_effective_timeline collate project ≡ ok e
      → IsRising (starts_of kind e.timeline)
  starts-IsRising StartKind.bar_starts h =
      bars-IsRising _ (materialize-IsTimeline collate project e h).bars_ordered
  starts-IsRising StartKind.chord_starts h =
      chords-IsRising 0 project.duration_samples _
        (materialize-IsTimeline collate project e h).chord_track.1

  pub materialize-is_viewed :
      materialize_effective_timeline collate project ≡ ok e → is_none project.active_view ≡ false
  unfolding materialize_effective_timeline
  materialize-is_viewed h = elim (Option-cases project.active_view) [
    | inl nothing ↦ ground arith
    | inr (view, found) ↦ rw found refl
  ]

  -- In a project that materializes, navigation goes forward or back to a start of a bar or chord, as
  -- asked, on that side of the position, and to the end or beginning of the recording where there is
  -- none on that side; no start of the kind lies between the position and where it goes.
  pub practice_navigation-IsNearest :
      (position : ℕ) (kind : StartKind) (direction : Direction)
      → materialize_effective_timeline collate project ≡ ok e
      → (n : ℕ) × (practice_navigation collate project position kind direction ≡ ok n)
        × IsNearest (starts_of kind e.timeline) project.duration_samples position direction n
  unfolding practice_navigation
  practice_navigation-IsNearest position kind direction h = (
    nearest (starts_of kind e.timeline) project.duration_samples position direction,
    rw (materialize-is_viewed h) (rw h refl),
    nearest-IsNearest _ _ position direction (starts-IsRising kind h),
  )

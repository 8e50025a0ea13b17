-- ===== src/Practice/Beats.antt =====
-- The count-in before practice.
use open_chords.Prelude.{
  ℕ, zero, suc, ◌-◌, ◌*◌, ◌/◌, ◌≤◌, ◌<◌, ◌≡◌, refl, sym, inl, inr, String, Bool, true, false, some,
  List, [], ◌∷◌, arith, ltb, leb, ◌==◌, length, get_elem?, find, keep, All, Bool-cases, ok, subst,
}
use open_chords.Schema.{Beat, Bar, ProjectContract}
use open_chords.Invariants.Timeline.{insert_by, to_sorted}
use open_chords.Invariants.Timeline.Exact.{IsBar, Follow, Beats}
use open_chords.Invariants.Project.Facts.{All-find}
use open_chords.Projection.Lookup.{get_elem?_of_lt}
use open_chords.Projection.Materialize.{EffectiveTimeline, materialize_effective_timeline}
use open_chords.Projection.Materialize.Valid.{materialize-IsTimeline}
use open_chords.Practice.Navigation.{materialize-is_viewed}
use open_chords.Practice.{get_practice_state}
use open_chords.Practice.Tempo.{
  CountIn, gaps, sorted_gaps, bar_count_in, bar_holds, practice_count_in,
}

abbrev IsGap : Bar → ℕ → Type 0
IsGap bar gap = (0 < gap) × (gap ≤ bar.end_sample - bar.start_sample)

gaps-IsGap :
    (bar : Bar) (b : Beat) (bs : List Beat)
    → bar.start_sample ≤ b.at_sample
    → b.at_sample < bar.end_sample
    → Follow bar b bs
    → All (IsGap bar) (gaps (b ∷ bs) bar.end_sample)
unfolding gaps
gaps-IsGap bar b [] l r h = ((omega arith, omega arith), tt)
gaps-IsGap bar b (c ∷ bs) l r ((l', r'), _, before, h) =
    ((omega arith, omega arith), gaps-IsGap bar c bs l' r' h)

All-keep : (P : ℕ → Type 0) (test : ℕ → Bool) (xs : List ℕ) → All P xs → All P (keep test xs)
unfolding keep
All-keep P test [] h = tt
All-keep P test (x ∷ xs) (p, h) = elim (Bool-cases (test x)) [
  | inl stays ↦ rw stays (p, All-keep P test xs h)
  | inr goes ↦ rw goes (All-keep P test xs h)
]

All-insert_by : (P : ℕ → Type 0) (x : ℕ) (xs : List ℕ) → P x → All P xs → All P (insert_by leb x xs)
unfolding insert_by
All-insert_by P x [] p h = (p, tt)
All-insert_by P x (y ∷ ys) p (q, h) = elim (Bool-cases (leb x y)) [
  | inl before ↦ rw before (p, (q, h))
  | inr after ↦ rw after (q, All-insert_by P x ys p h)
]

All-to_sorted : (P : ℕ → Type 0) (xs : List ℕ) → All P xs → All P (to_sorted leb xs)
unfolding to_sorted
All-to_sorted P [] h = tt
All-to_sorted P (x ∷ xs) (p, h) = All-insert_by P x _ p (All-to_sorted P xs h)

length-insert_by : (x : ℕ) (xs : List ℕ) → length (insert_by leb x xs) ≡ suc (length xs)
unfolding insert_by
length-insert_by x [] = refl
length-insert_by x (y ∷ ys) = elim (Bool-cases (leb x y)) [
  | inl before ↦ rw before refl
  | inr after ↦ rw after (omega (arith, length-insert_by x ys))
]

All-get_elem? : (P : ℕ → Type 0) (xs : List ℕ) (i x : ℕ) → All P xs → get_elem? xs i ≡ some x → P x
All-get_elem? P [] i x h e = cc
All-get_elem? P (y ∷ ys) zero x (p, h) e = let same : y ≡ x = cc in subst P same p
All-get_elem? P (y ∷ ys) (suc i) x (p, h) e = All-get_elem? P ys i x h e

a_gap : (bar : Bar) (b : Beat) (bs : List Beat) → 0 < length (gaps (b ∷ bs) bar.end_sample)
unfolding gaps
a_gap bar b [] = omega arith
a_gap bar b (c ∷ bs) = omega arith

nonempty_kept :
    (P : ℕ → Type 0) (xs : List ℕ)
    → ((x : ℕ) → P x → 0 < x)
    → All P xs
    → 0 < length xs
    → 0 < length (to_sorted leb (keep (λ gap. ltb 0 gap) xs))
unfolding keep to_sorted
nonempty_kept P [] positive h l = absurd (omega arith)
nonempty_kept P (x ∷ xs) positive (p, h) l =
    let there : ltb 0 x ≡ true = ground (arith, positive x p) in
    rw there (omega (arith, length-insert_by x (to_sorted leb (keep (λ gap. ltb 0 gap) xs))))

-- The median gap of a bar that has beats.
median :
    (bar : Bar) (b : Beat) (bs : List Beat)
    → Beats bar bar.beats
    → bar.beats ≡ b ∷ bs
    → (gap : ℕ) × (get_elem? (sorted_gaps bar) (length (sorted_gaps bar) / 2) ≡ some gap)
      × IsGap bar gap
unfolding sorted_gaps gaps
median bar b bs valid e =
    let ((l, r), _, _, follow) = subst (Beats bar) e valid in
    let found : All (IsGap bar) (gaps bar.beats bar.end_sample) =
      subst (λ beats. All (IsGap bar) (gaps beats bar.end_sample)) (sym e)
        (gaps-IsGap bar b bs l r follow) in
    let some_gap : 0 < length (gaps bar.beats bar.end_sample) =
      subst (λ beats. 0 < length (gaps beats bar.end_sample)) (sym e) (a_gap bar b bs) in
    let long : 0 < length (sorted_gaps bar) =
      nonempty_kept (IsGap bar) _ (λ x p. p.0) found some_gap in
    let (gap, there) =
      get_elem?_of_lt (sorted_gaps bar) (length (sorted_gaps bar) / 2) (omega (arith, long)) in
    (
      gap,
      there,
      All-get_elem? (IsGap bar) (sorted_gaps bar) _ gap
          (All-to_sorted (IsGap bar) _ (All-keep (IsGap bar) _ _ found)) there,
    )

-- The count-in of beats that last `gap` samples.
abbrev pub counted : ProjectContract → Bar → ℕ → CountIn
counted project bar gap =
    let practice = get_practice_state project in
    let beats = bar.meter.numerator * practice.count_in_bars in
    let samples = gap * practice.speed.denominator in
    let rate = project.sample_rate * practice.speed.numerator in
    record {
      beat_count = beats;
      beat_seconds = record { numerator = samples; denominator = rate };
      duration_seconds = record { numerator = beats * samples; denominator = rate };
    }

module _ (collate : String → String → Bool) (project : ProjectContract)
    (e : EffectiveTimeline) where
  -- In a project that materializes and whose practice has a count-in, a position in a bar that has beats
  -- gets a count-in: as many bars of the meter as are set, in beats that each last a positive number
  -- of samples, no more than the bar has, at the speed of practice.
  pub practice_count_in-counted :
      (position : ℕ) (bar : Bar) (b : Beat) (bs : List Beat)
      → materialize_effective_timeline collate project ≡ ok e
      → ((get_practice_state project).count_in_bars == 0) ≡ false
      → find (bar_holds position) e.timeline.bars ≡ some bar
      → bar.beats ≡ b ∷ bs
      → (gap : ℕ) × (practice_count_in collate project position
          ≡ ok (some (counted project bar gap)))
        × (0 < gap)
        × (gap ≤ bar.end_sample - bar.start_sample)
  unfolding practice_count_in bar_count_in
  practice_count_in-counted position bar b bs m set found beats =
      let valid : IsBar bar =
        All-find IsBar (bar_holds position) e.timeline.bars bar
          (materialize-IsTimeline collate project e m).bars found in
      let (gap, there, (positive, short)) = median bar b bs valid.beats beats in
      (
        gap,
        rw (set, materialize-is_viewed collate project e m) (rw m (rw (found, there) refl)),
        positive,
        short,
      )

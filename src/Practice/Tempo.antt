-- ===== src/Practice/Tempo.antt =====
-- packages/domain/src/practice.ts: `practiceCountIn`.
use open_chords.Prelude.{
  ℕ, ◌-◌, ◌*◌, ◌/◌, String, Bool, ◌&&◌, ◌||◌, Option, none, some, List, [], ◌∷◌, ltb, leb, ◌==◌,
  length, get_elem?, find, keep, Result, ok, ◌>>=◌, if◌then◌else◌,
}
use open_chords.Schema.{Beat, Bar, Fraction, PracticeState, ProjectContract}
use open_chords.Invariants.Timeline.{to_sorted}
use open_chords.Projection.Materialize.{materialize_effective_timeline}
use open_chords.Practice.{get_practice_state, is_none}

pub record CountIn : Type 0 where
  pub beat_count : ℕ
  pub beat_seconds : Fraction
  pub duration_seconds : Fraction

-- The gaps between the beats of a bar, and from the last one to its end.
unfoldable pub gaps : List Beat → ℕ → List ℕ
gaps [] bar_end = []
gaps (beat ∷ []) bar_end = (bar_end - beat.at_sample) ∷ []
gaps (beat ∷ next ∷ beats) bar_end = (next.at_sample - beat.at_sample) ∷ gaps (next ∷ beats) bar_end

-- `filter((gap) => gap > 0)`, in ascending order; a gap below 0 is 0 here, and goes as well
unfoldable pub sorted_gaps : Bar → List ℕ
unfolding gaps
sorted_gaps bar = to_sorted leb (keep (λ gap. ltb 0 gap) (gaps bar.beats bar.end_sample))

abbrev pub count_in_of : Option ℕ → Bar → ℕ → PracticeState → Option CountIn
count_in_of none bar rate practice = none
count_in_of (some beat_samples) bar rate practice =
    let count = bar.meter.numerator * practice.count_in_bars in
    let seconds = beat_samples * practice.speed.denominator in
    let whole = rate * practice.speed.numerator in
    some (record {
      beat_count = count;
      beat_seconds = record { numerator = seconds; denominator = whole };
      duration_seconds = record { numerator = count * seconds; denominator = whole };
    })

unfoldable pub bar_count_in : Option Bar → ℕ → PracticeState → Option CountIn
unfolding sorted_gaps
bar_count_in none rate practice = none
bar_count_in (some bar) rate practice =
    count_in_of (get_elem? (sorted_gaps bar) (length (sorted_gaps bar) / 2)) bar rate practice

abbrev pub bar_holds : ℕ → Bar → Bool
bar_holds position bar = leb bar.start_sample position && ltb position bar.end_sample

module _ (collate : String → String → Bool) where
  unfoldable pub practice_count_in : ProjectContract → ℕ → Result (Option CountIn)
  unfolding bar_count_in
  practice_count_in project position =
      let practice = get_practice_state project in
      if (practice.count_in_bars == 0) || is_none project.active_view
      then ok none
      else (materialize_effective_timeline collate project >>= λ e.
          ok
            (bar_count_in (find (bar_holds position) e.timeline.bars) project.sample_rate practice))

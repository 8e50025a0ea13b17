-- ===== src/Projection/Bars/Samples.antt =====
-- Splitting a bar and merging two neighbours leave every sample in as many bars as before.
use open_chords.Prelude.{
  ℕ, ◌≤◌, ◌≡◌, some, List, [], ◌∷◌, map, arith, ◌===◌, Bool-cases, Result-cases, inl, inr, find, ok,
}
use open_chords.Schema.{Bar, SplitBar}
use open_chords.Invariants.Checks.Cover.{times_held}
use open_chords.Invariants.Timeline.{bar_interval}
use open_chords.Projection.Bars.{split_first}

-- Splitting the first bar that has the id of the split, at a point that is neither before its start nor
-- after its end, changes for no sample how many of the bars hold it.
pub split_first-times_held :
    (bars bars' : List Bar) (split : SplitBar) (bar : Bar) (s : ℕ)
    → split_first bars split ≡ ok bars'
    → find (λ b. b.id === split.bar_id) bars ≡ some bar
    → bar.start_sample ≤ split.at_sample
    → split.at_sample ≤ bar.end_sample
    → times_held (map bar_interval bars') s ≡ times_held (map bar_interval bars) s
unfolding split_first find
split_first-times_held [] bars' split bar s h found lo hi = absurd (ground arith)
split_first-times_held (b ∷ bars) bars' split bar s h found lo hi =
    elim (Bool-cases (b.id === split.bar_id)) [
      | inl same ↦ ground arith
      | inr other ↦ elim (Result-cases (split_first bars split)) [
        | inr (e, failed) ↦ absurd (ground arith)
        | inl (rest, done) ↦
            ground (arith, split_first-times_held bars rest split bar s done (ground arith) lo hi)
      ]
    ]

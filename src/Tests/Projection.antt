-- ===== src/Tests/Projection.antt =====
-- The theorems on the effective timeline, at the sample project.
use open_chords.Prelude.{
  ◌<◌, ◌≡◌, refl, ◌↔◌, some, List, [], ◌∷◌, map, ok, find, find_index, arith, ◌===◌,
}
use open_chords.Schema.{ChordEvent, Bar, BeatRole, BarStatus, SplitBar, MergeBars, LyricsDocument}
use open_chords.Invariants.Checks.{validate_cover}
use open_chords.Invariants.Checks.Cover.{IsCover, times_held, validate_cover_iff}
use open_chords.Invariants.Checks.{validate_unique_ids}
use open_chords.Invariants.Checks.Ids.{AllDistinct, validate_unique_ids_iff}
use open_chords.Invariants.Timeline.{
  bar_interval, chord_interval, section_interval, key_interval, metered_track,
}
use open_chords.Invariants.Lyrics.{validate_lyrics_alignment}
use open_chords.Invariants.Lyrics.Exact.{IsAligned, validate_lyrics_alignment_iff}
use open_chords.Projection.Chords.{move_boundary}
use open_chords.Projection.Chords.Boundary.{move_boundary-IsCover_iff}
use open_chords.Projection.Bars.{split_first}
use open_chords.Projection.Bars.Samples.{split_first-times_held}
use open_chords.Projection.Apply.{ProjectionState, apply_transactions}
use open_chords.Projection.Apply.Frame.{SameRegions, apply_transactions-SameRegions}
use open_chords.Projection.Materialize.{EffectiveTimeline, materialize_effective_timeline}
use open_chords.Projection.Materialize.Valid.{materialize-times_held, materialize-IsAligned}
use open_chords.Projection.Committed.Total.{materialize_total}
use open_chords.Tests.Projects.{
  edited_timeline, edited_alignment, effective, materialized, edits, project_valid, committed_valid,
}
use open_chords.Tests.Sample.{
  collate, beat_at, two_four, bar_of, first_bar, second_bar, c_chord, g_chord, timeline, document,
  alignment, transactions, view, project,
}

materialize_total_example :
    (e : EffectiveTimeline) × (materialize_effective_timeline collate project ≡ ok e)
materialize_total_example =
    materialize_total collate project view project_valid committed_valid refl

materialize-times_held_example :
    (times_held (map chord_interval effective.timeline.chord_events) 45 ≡ 1)
    × (times_held (map section_interval effective.timeline.section_regions) 45 ≡ 1)
    × (times_held (map key_interval effective.timeline.key_regions) 45 ≡ 1)
    × (times_held (metered_track collate effective.timeline) 45 ≡ 1)
materialize-times_held_example =
    materialize-times_held collate project effective 45 materialized (omega arith)

materialize-IsAligned_example :
    (d : LyricsDocument) × (find (λ d. d.id === "lyrics_1") project.lyrics_documents ≡ some d)
    × IsAligned edited_alignment d 100
materialize-IsAligned_example =
    materialize-IsAligned collate project effective edited_alignment materialized refl

validate_cover_iff_example :
    (validate_cover (map chord_interval timeline.chord_events) 100 "chord track" ≡ [])
    ↔ IsCover (map chord_interval timeline.chord_events) 100
validate_cover_iff_example =
    validate_cover_iff (map chord_interval timeline.chord_events) 100 "chord track"

validate_unique_ids_iff_example :
    (validate_unique_ids ("bar_1" ∷ "bar_2" ∷ "bar_1" ∷ []) "bars" ≡ [])
    ↔ AllDistinct ("bar_1" ∷ "bar_2" ∷ "bar_1" ∷ [])
validate_unique_ids_iff_example = validate_unique_ids_iff ("bar_1" ∷ "bar_2" ∷ "bar_1" ∷ []) "bars"

validate_lyrics_alignment_iff_example :
    (validate_lyrics_alignment alignment document 100 ≡ ok tt) ↔ IsAligned alignment document 100
validate_lyrics_alignment_iff_example = validate_lyrics_alignment_iff alignment document 100

abbrev moved_chords : List ChordEvent
moved_chords = record c_chord { end_sample = 40 } ∷ record g_chord { start_sample = 40 } ∷ []

moved : move_boundary timeline.chord_events 40 "chord_1" "chord_2" ≡ ok moved_chords
unfolding edits
moved = refl

first_found : find_index (λ e. e.id === "chord_1") timeline.chord_events ≡ some 0
unfolding edits
first_found = refl

chords_covered : IsCover (map chord_interval timeline.chord_events) 100
chords_covered = (cc, (refl, omega arith, (refl, omega arith, refl)))

move_boundary-IsCover_iff_example :
    IsCover (map chord_interval moved_chords) 100 ↔ ((0 < 40) × (40 < 100))
move_boundary-IsCover_iff_example =
    move_boundary-IsCover_iff timeline.chord_events moved_chords 40 0 100 "chord_1" "chord_2"
      c_chord g_chord moved first_found refl refl chords_covered

abbrev before : ProjectionState
before = record { timeline = timeline; lyrics_alignment = some alignment }

abbrev after : ProjectionState
after = record { timeline = edited_timeline; lyrics_alignment = some edited_alignment }

applied : apply_transactions before transactions ≡ ok after
unfolding edits
applied = refl

apply_transactions-SameRegions_example : SameRegions timeline edited_timeline
apply_transactions-SameRegions_example =
    apply_transactions-SameRegions before after transactions applied

abbrev split : SplitBar
split = record {
  at_sample = 30;
  bar_id = "bar_1";
  left_status = BarStatus.truncated;
  new_bar_id = "bar_3";
  new_downbeat_id = "beat_5";
  right_meter = two_four;
  right_status = BarStatus.pickup;
}

abbrev split_bars : List Bar
split_bars =
    record first_bar { end_sample = 30; status = BarStatus.truncated }
    ∷ record (bar_of "bar_3" 30 50 (beat_at 30 "beat_5" BeatRole.downbeat ∷ [])) {
      status = BarStatus.pickup;
    }
    ∷ second_bar
    ∷ []

was_split : split_first timeline.bars split ≡ ok split_bars
unfolding edits
was_split = refl

bar_found : find (λ b. b.id === "bar_1") timeline.bars ≡ some first_bar
unfolding edits
bar_found = refl

split_first-times_held_example :
    times_held (map bar_interval split_bars) 35 ≡ times_held (map bar_interval timeline.bars) 35
split_first-times_held_example =
    split_first-times_held timeline.bars split_bars split first_bar 35 was_split bar_found
      (omega arith) (omega arith)

abbrev merge : MergeBars
merge = record {
  left_bar_id = "bar_1";
  meter = record { denominator = 4; numerator = 4 };
  right_bar_id = "bar_2";
  status = BarStatus.complete;
}

abbrev merged_bars : List Bar
merged_bars =
    record first_bar {
      end_sample = 100;
      meter = record { denominator = 4; numerator = 4 };
      beats =
          beat_at 0 "beat_1" BeatRole.downbeat
          ∷ beat_at 25 "beat_2" BeatRole.beat
          ∷ beat_at 50 "beat_3" BeatRole.beat
          ∷ beat_at 75 "beat_4" BeatRole.beat
          ∷ [];
    }
    ∷ []

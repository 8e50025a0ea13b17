-- ===== src/Invariants/Timeline/Exact.antt =====
-- What `validateTimelineInvariants` accepts.
use open_chords.Prelude.{
  ℕ, ◌≤◌, ◌<◌, String, ◌≡◌, refl, ◌↔◌, Bool, List, [], ◌∷◌, map, arith, length, All, ok,
}
use open_chords.Schema.{Beat, BeatRole, Bar, BarStatus, ChordEvent, ChordValue, MusicalTimeline}
use open_chords.Invariants.Checks.Cover.{IsCover, validate_cover_iff}
use open_chords.Invariants.Checks.Ids.{
  AllDistinct, validate_unique_ids_iff, IsOrdered, validate_ordered_iff, IsSorted,
  validate_sorted_unique_iff,
}
use open_chords.Invariants.Gather.{gather_iff, for_each_iff, throw_issues_iff}
use open_chords.Invariants.Timeline.{
  bar_interval, unmetered_interval, chord_interval, section_interval, key_interval, beat_ids,
  all_beats, metered_track, later_beats, beat_issues, count_issues, bar_issues, identity_issues,
  value_issues, event_issues, timeline_issues, validate_timeline_invariants,
}

abbrev Within : Bar → Beat → Type 0
Within bar b = (bar.start_sample ≤ b.at_sample) × (b.at_sample < bar.end_sample)

-- The beats after the first: inside the bar, plain beats, each after the one before it.
abbrev pub Follow : Bar → Beat → List Beat → Type 0
Follow bar previous [] = Unit
Follow bar previous (b ∷ rest) =
    Within bar b × (b.role ≡ BeatRole.beat) × (previous.at_sample < b.at_sample) × Follow bar b rest

abbrev pub Beats : Bar → List Beat → Type 0
Beats bar [] = Unit
Beats bar (b ∷ rest) =
    Within bar b
    × (b.role ≡ BeatRole.downbeat)
    × (b.at_sample ≡ bar.start_sample)
    × Follow bar b rest

pub record IsBar (bar : Bar) : Type 0 where
  pub distinct : AllDistinct (beat_ids bar.beats)
  pub beats : Beats bar bar.beats
  pub complete : bar.status ≡ BarStatus.complete → length bar.beats ≡ bar.meter.numerator
  pub bounded : length bar.beats ≤ bar.meter.numerator

abbrev pub IsValue : ChordValue → Type 0
IsValue (ChordValue.chord v) =
    IsSorted v.additions × IsSorted v.alterations × IsSorted v.extensions × IsSorted v.omissions
IsValue ChordValue.no_chord = Unit

pub record IsTimeline (collate : String → String → Bool) (t : MusicalTimeline) (duration : ℕ)
    : Type 0 where
  pub bar_ids : AllDistinct (map (λ r. r.id) t.bars)
  pub unmetered_ids : AllDistinct (map (λ r. r.id) t.unmetered_regions)
  pub chord_ids : AllDistinct (map (λ r. r.id) t.chord_events)
  pub section_ids : AllDistinct (map (λ r. r.id) t.section_regions)
  pub key_ids : AllDistinct (map (λ r. r.id) t.key_regions)
  pub all_beat_ids : AllDistinct (beat_ids (all_beats t.bars))
  pub bars_ordered : IsOrdered (map bar_interval t.bars)
  pub unmetered_ordered : IsOrdered (map unmetered_interval t.unmetered_regions)
  pub chord_track : IsCover (map chord_interval t.chord_events) duration
  pub section_track : IsCover (map section_interval t.section_regions) duration
  pub key_track : IsCover (map key_interval t.key_regions) duration
  pub metered : IsCover (metered_track collate t) duration
  pub bars : All IsBar t.bars
  pub values : All (λ e. IsValue e.value) t.chord_events

later_beats_iff :
    (bar : Bar) (previous : Beat) (rest : List Beat)
    → (later_beats bar previous rest ≡ []) ↔ Follow bar previous rest
unfolding later_beats
later_beats_iff bar previous [] = ground arith
later_beats_iff bar previous (b ∷ rest) = ground (arith, later_beats_iff bar b rest)

beat_issues_iff : (bar : Bar) (beats : List Beat) → (beat_issues bar beats ≡ []) ↔ Beats bar beats
unfolding beat_issues
beat_issues_iff bar [] = ground arith
beat_issues_iff bar (b ∷ rest) = ground (arith, later_beats_iff bar b rest)

count_issues_iff :
    (bar : Bar)
    → (count_issues bar ≡ []) ↔ (
        (bar.status ≡ BarStatus.complete → length bar.beats ≡ bar.meter.numerator)
        × (length bar.beats ≤ bar.meter.numerator))
unfolding count_issues
count_issues_iff bar = ground arith

bar_issues_iff : (bar : Bar) → (bar_issues bar ≡ []) ↔ IsBar bar
unfolding bar_issues
bar_issues_iff bar = (
  λ h.
      let p = (gather_iff _).0 h in
      let (complete, bounded) = (count_issues_iff bar).0 p.1.1.0 in
      record {
        distinct = (validate_unique_ids_iff _ _).0 p.0;
        beats = (beat_issues_iff bar bar.beats).0 p.1.0;
        complete = complete;
        bounded = bounded;
      },
  λ v. (gather_iff _).1 (
    (validate_unique_ids_iff _ _).1 v.distinct,
    (
      (beat_issues_iff bar bar.beats).1 v.beats,
      ((count_issues_iff bar).1 (v.complete, v.bounded), (tt)),
    ),
  ),
)

value_issues_iff : (id : String) (v : ChordValue) → (value_issues id v ≡ []) ↔ IsValue v
unfolding value_issues identity_issues
value_issues_iff id (ChordValue.chord v) = (
  λ h.
      let p = (gather_iff _).0 h in
      (
        (validate_sorted_unique_iff _ _).0 p.0,
        (validate_sorted_unique_iff _ _).0 p.1.0,
        (validate_sorted_unique_iff _ _).0 p.1.1.0,
        (validate_sorted_unique_iff _ _).0 p.1.1.1.0,
      ),
  λ (add, alter, extend, omit). (gather_iff _).1 (
    (validate_sorted_unique_iff _ _).1 add,
    (
      (validate_sorted_unique_iff _ _).1 alter,
      ((validate_sorted_unique_iff _ _).1 extend, ((validate_sorted_unique_iff _ _).1 omit, (tt))),
    ),
  ),
)
value_issues_iff id ChordValue.no_chord = ((λ _. tt), λ _. refl)

event_issues_iff : (event : ChordEvent) → (event_issues event ≡ []) ↔ IsValue event.value
unfolding event_issues
event_issues_iff event = value_issues_iff event.id event.value

module _ (collate : String → String → Bool) (t : MusicalTimeline) (duration : ℕ) where
  timeline_issues_sound : timeline_issues collate t duration ≡ [] → IsTimeline collate t duration
  unfolding timeline_issues
  timeline_issues_sound h =
      let p = (gather_iff _).0 h in
      record {
        bar_ids = (validate_unique_ids_iff _ _).0 p.0;
        unmetered_ids = (validate_unique_ids_iff _ _).0 p.1.0;
        chord_ids = (validate_unique_ids_iff _ _).0 p.1.1.0;
        section_ids = (validate_unique_ids_iff _ _).0 p.1.1.1.0;
        key_ids = (validate_unique_ids_iff _ _).0 p.1.1.1.1.0;
        all_beat_ids = (validate_unique_ids_iff _ _).0 p.1.1.1.1.1.0;
        bars_ordered = (validate_ordered_iff _ _).0 p.1.1.1.1.1.1.0;
        unmetered_ordered = (validate_ordered_iff _ _).0 p.1.1.1.1.1.1.1.0;
        chord_track = (validate_cover_iff _ _ _).0 p.1.1.1.1.1.1.1.1.0;
        section_track = (validate_cover_iff _ _ _).0 p.1.1.1.1.1.1.1.1.1.0;
        key_track = (validate_cover_iff _ _ _).0 p.1.1.1.1.1.1.1.1.1.1.0;
        metered = (validate_cover_iff _ _ _).0 p.1.1.1.1.1.1.1.1.1.1.1.0;
        bars = (for_each_iff IsBar bar_issues bar_issues_iff t.bars).0 p.1.1.1.1.1.1.1.1.1.1.1.1.0;
        values =
            (for_each_iff _ event_issues event_issues_iff t.chord_events).0
              p.1.1.1.1.1.1.1.1.1.1.1.1.1.0;
      }

  timeline_issues_complete : IsTimeline collate t duration → timeline_issues collate t duration ≡ []
  unfolding timeline_issues
  timeline_issues_complete v = (gather_iff _).1 (
    (validate_unique_ids_iff _ _).1 v.bar_ids,
    (
      (validate_unique_ids_iff _ _).1 v.unmetered_ids,
      (
        (validate_unique_ids_iff _ _).1 v.chord_ids,
        (
          (validate_unique_ids_iff _ _).1 v.section_ids,
          (
            (validate_unique_ids_iff _ _).1 v.key_ids,
            (
              (validate_unique_ids_iff _ _).1 v.all_beat_ids,
              (
                (validate_ordered_iff _ _).1 v.bars_ordered,
                (
                  (validate_ordered_iff _ _).1 v.unmetered_ordered,
                  (
                    (validate_cover_iff _ _ _).1 v.chord_track,
                    (
                      (validate_cover_iff _ _ _).1 v.section_track,
                      (
                        (validate_cover_iff _ _ _).1 v.key_track,
                        (
                          (validate_cover_iff _ _ _).1 v.metered,
                          (
                            (for_each_iff IsBar bar_issues bar_issues_iff t.bars).1 v.bars,
                            (
                              (for_each_iff _ event_issues event_issues_iff t.chord_events).1
                                  v.values,
                              (tt),
                            ),
                          ),
                        ),
                      ),
                    ),
                  ),
                ),
              ),
            ),
          ),
        ),
      ),
    ),
  )

  pub validate_timeline_invariants_iff :
      (validate_timeline_invariants collate t duration ≡ ok tt) ↔ IsTimeline collate t duration
  unfolding validate_timeline_invariants
  validate_timeline_invariants_iff = (
    λ h. timeline_issues_sound ((throw_issues_iff _).0 h),
    λ v. (throw_issues_iff _).1 (timeline_issues_complete v),
  )

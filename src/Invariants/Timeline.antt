-- ===== src/Invariants/Timeline.antt =====
-- packages/domain/src/invariants.ts: `validateTimelineInvariants`. `collate a b` stands for
-- `a.localeCompare(b) <= 0`, which the runtime's locale decides.
pub mod Exact
use open_chords.Prelude.{
  ℕ, String, Bool, not, List, [], ◌∷◌, ◌++◌, map, ltb, leb, ◌==◌, template, decimal, length, Result,
  if◌then◌else◌,
}
use open_chords.Schema.{
  Beat, BeatRole, Bar, BarStatus, UnmeteredRegion, ChordEvent, ChordIdentity, ChordValue,
  SectionRegion, KeyRegion, MusicalTimeline,
}
use open_chords.Invariants.Checks.{
  Interval, push_if, validate_unique_ids, validate_cover, validate_ordered, validate_sorted_unique,
}
use open_chords.Invariants.Gather.{gather, for_each, throw_issues}

abbrev pub bar_interval : Bar → Interval
bar_interval r = record { end_sample = r.end_sample; id = r.id; start_sample = r.start_sample }

abbrev pub unmetered_interval : UnmeteredRegion → Interval
unmetered_interval r = record {
  end_sample = r.end_sample;
  id = r.id;
  start_sample = r.start_sample;
}

abbrev pub chord_interval : ChordEvent → Interval
chord_interval r = record { end_sample = r.end_sample; id = r.id; start_sample = r.start_sample }

abbrev pub section_interval : SectionRegion → Interval
section_interval r = record { end_sample = r.end_sample; id = r.id; start_sample = r.start_sample }

abbrev pub key_interval : KeyRegion → Interval
key_interval r = record { end_sample = r.end_sample; id = r.id; start_sample = r.start_sample }

abbrev pub interval_ids : List Interval → List String
interval_ids track = map (λ i. i.id) track

abbrev pub beat_ids : List Beat → List String
beat_ids beats = map (λ b. b.id) beats

-- `bars.flatMap(({ beats }) => beats)`
unfoldable pub all_beats : List Bar → List Beat
all_beats [] = []
all_beats (bar ∷ bars) = bar.beats ++ all_beats bars

abbrev pub is_downbeat : BeatRole → Bool
is_downbeat BeatRole.downbeat = Bool.true
is_downbeat BeatRole.beat = Bool.false

abbrev pub is_complete : BarStatus → Bool
is_complete BarStatus.complete = Bool.true
is_complete _ = Bool.false

-- The comparator of the metered and unmetered track, as "comes first or is equal".
abbrev pub precedes : (String → String → Bool) → Interval → Interval → Bool
precedes collate left right =
    if left.start_sample == right.start_sample
    then collate left.id right.id
    else ltb left.start_sample right.start_sample

-- `toSorted` is stable: an item goes before those of the rest that it precedes or equals.
unfoldable pub insert_by {ℓ} : {A : Type ℓ} → (A → A → Bool) → A → List A → List A
insert_by first x [] = x ∷ []
insert_by first x (y ∷ ys) = if first x y then x ∷ y ∷ ys else y ∷ insert_by first x ys

unfoldable pub to_sorted {ℓ} : {A : Type ℓ} → (A → A → Bool) → List A → List A
unfolding insert_by
to_sorted first [] = []
to_sorted first (x ∷ xs) = insert_by first x (to_sorted first xs)

unfoldable pub metered_track : (String → String → Bool) → MusicalTimeline → List Interval
unfolding to_sorted
metered_track collate t =
    to_sorted (precedes collate)
      (map bar_interval t.bars ++ map unmetered_interval t.unmetered_regions)

abbrev outside : Bar → Beat → List String → List String
outside bar b rest =
    push_if (if ltb b.at_sample bar.start_sample then Bool.true else leb bar.end_sample b.at_sample)
      (template ("beat " ∷ b.id ∷ " lies outside " ∷ bar.id ∷ [])) rest

-- The body of `bar.beats.forEach` at an index above 0, with the beat before it.
pub later_beats : Bar → Beat → List Beat → List String
later_beats bar previous [] = []
later_beats bar previous (b ∷ rest) = outside bar b (
    push_if (is_downbeat b.role) (template (bar.id ∷ " has a non-initial downbeat" ∷ [])) (
      push_if (leb b.at_sample previous.at_sample)
        (template ("beats in " ∷ bar.id ∷ " are not strictly ordered" ∷ []))
        (later_beats bar b rest)))

pub beat_issues : Bar → List Beat → List String
unfolding later_beats
beat_issues bar [] = []
beat_issues bar (b ∷ rest) = outside bar b (
    push_if (not (is_downbeat b.role)) (template (bar.id ∷ " must start with a downbeat" ∷ [])) (
      push_if (not (b.at_sample == bar.start_sample))
        (template (bar.id ∷ " downbeat must equal the Bar start" ∷ [])) (later_beats bar b rest)))

pub count_issues : Bar → List String
count_issues bar =
    push_if
      (if is_complete bar.status then not (length bar.beats == bar.meter.numerator) else Bool.false)
      (template
        ("complete " ∷ bar.id ∷ " must contain " ∷ decimal bar.meter.numerator ∷ " beats" ∷ []))
      (push_if (ltb bar.meter.numerator (length bar.beats))
        (template (bar.id ∷ " cannot contain more beats than its meter numerator" ∷ [])) [])

unfoldable pub bar_issues : Bar → List String
unfolding beat_issues count_issues
bar_issues bar = gather (
    validate_unique_ids (beat_ids bar.beats) (template ("beats in " ∷ bar.id ∷ []))
    ∷ beat_issues bar bar.beats
    ∷ count_issues bar
    ∷ [])

pub identity_issues : String → ChordIdentity → List String
identity_issues id v = gather (
    validate_sorted_unique v.additions (template (id ∷ " additions" ∷ []))
    ∷ validate_sorted_unique v.alterations (template (id ∷ " alterations" ∷ []))
    ∷ validate_sorted_unique v.extensions (template (id ∷ " extensions" ∷ []))
    ∷ validate_sorted_unique v.omissions (template (id ∷ " omissions" ∷ []))
    ∷ [])

pub value_issues : String → ChordValue → List String
unfolding identity_issues
value_issues id (ChordValue.chord v) = identity_issues id v
value_issues id ChordValue.no_chord = []

unfoldable pub event_issues : ChordEvent → List String
unfolding value_issues
event_issues event = value_issues event.id event.value

module _ (collate : String → String → Bool) (t : MusicalTimeline) (duration : ℕ) where
  unfoldable pub timeline_issues : List String
  unfolding bar_issues event_issues
  timeline_issues = gather (
      validate_unique_ids (map (λ r. r.id) t.bars) "bars"
      ∷ validate_unique_ids (map (λ r. r.id) t.unmetered_regions) "unmetered regions"
      ∷ validate_unique_ids (map (λ r. r.id) t.chord_events) "chord events"
      ∷ validate_unique_ids (map (λ r. r.id) t.section_regions) "section regions"
      ∷ validate_unique_ids (map (λ r. r.id) t.key_regions) "key regions"
      ∷ validate_unique_ids (beat_ids (all_beats t.bars)) "beats in timeline"
      ∷ validate_ordered (map bar_interval t.bars) "bars"
      ∷ validate_ordered (map unmetered_interval t.unmetered_regions) "unmetered regions"
      ∷ validate_cover (map chord_interval t.chord_events) duration "chord track"
      ∷ validate_cover (map section_interval t.section_regions) duration "section track"
      ∷ validate_cover (map key_interval t.key_regions) duration "key track"
      ∷ validate_cover (metered_track collate t) duration "metered/unmetered track"
      ∷ for_each bar_issues t.bars
      ∷ for_each event_issues t.chord_events
      ∷ [])

  unfoldable pub validate_timeline_invariants : Result (Unit {0})
  unfolding timeline_issues
  validate_timeline_invariants = throw_issues timeline_issues

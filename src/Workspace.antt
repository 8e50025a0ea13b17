-- ===== src/Workspace.antt =====
-- apps/desktop/src/renderer/workspace-timeline.ts: what the workspace shows of a project.
pub mod Regions
pub mod Selection
use open_chords.Prelude.{
  ℕ, ◌<◌, String, Bool, true, false, not, ◌&&◌, ◌||◌, Option, none, some, List, [], ◌∷◌, ◌++◌, map,
  ltb, leb, ◌===◌, template, decimal, some_of, keep, Result, ok, ◌>>=◌, if◌then◌else◌,
}
use open_chords.Schema.{
  AssertionState, Assertion, ChordQuality, ChordIdentity, ChordValue, Beat, BarStatus, Bar,
  UnmeteredRegion, ChordEvent, SectionRegion, MusicalTimeline, PitchClass, Presentation, ActiveView,
  ProjectContract,
}
use open_chords.Invariants.Timeline.{all_beats, to_sorted}
use open_chords.Presentation.{note_name, present_chord}
use open_chords.Projection.Materialize.{EffectiveTimeline, materialize_effective_timeline}

pub data RegionKind : Type 0 where
  bar_region unmetered_region : RegionKind

pub record WorkspaceTimelineRegion : Type 0 where
  pub chord_labels : List String
  pub end_sample : ℕ
  pub id : String
  pub kind : RegionKind
  pub label : String
  pub start_sample : ℕ

-- A chord of the workspace.
pub record WorkspaceChord : Type 0 where
  pub id : String
  pub start_sample : ℕ
  pub end_sample : ℕ
  pub label : String
  pub state : AssertionState

pub record WorkspaceTimeline : Type 0 where
  pub duration_samples : ℕ
  pub regions : List WorkspaceTimelineRegion
  pub beats : List Beat
  pub chords : List WorkspaceChord
  pub sections : List SectionRegion

pub record WorkspaceRegionState : Type 0 where
  pub loop_region_id : Option String
  pub selected_region_id : Option String

abbrev pub is_id : Option String → String → Bool
is_id none id = false
is_id (some other) id = id === other

abbrev pub is_bar : RegionKind → Bool
is_bar RegionKind.bar_region = true
is_bar RegionKind.unmetered_region = false

abbrev pub first_id : List WorkspaceTimelineRegion → Option String
first_id [] = none
first_id (region ∷ regions) = some region.id

unfoldable pub reconcile_workspace_region_state :
    List WorkspaceTimelineRegion → WorkspaceRegionState → WorkspaceRegionState
reconcile_workspace_region_state regions state = record {
  loop_region_id =
      if some_of (λ r. is_id state.loop_region_id r.id && is_bar r.kind) regions
      then state.loop_region_id
      else none;
  selected_region_id =
      if some_of (λ r. is_id state.selected_region_id r.id) regions
      then state.selected_region_id
      else first_id regions;
}

abbrev pub should_restore_region_focus : Bool → Option String → Option String → Bool
should_restore_region_focus owned previous none = false
should_restore_region_focus owned previous (some next) = owned && not (is_id previous next)

abbrev pub quality_label : ChordQuality → String
quality_label ChordQuality.augmented = "aug"
quality_label ChordQuality.diminished = "dim"
quality_label ChordQuality.diminished7 = "dim7"
quality_label ChordQuality.half_diminished = "m7b5"
quality_label ChordQuality.major = ""
quality_label ChordQuality.major7 = "maj7"
quality_label ChordQuality.minor = "m"
quality_label ChordQuality.minor7 = "m7"
quality_label ChordQuality.sus2 = "sus2"
quality_label ChordQuality.sus4 = "sus4"

-- `details.join(", ")`
unfoldable pub joined : List String → String
joined [] = ""
joined (detail ∷ []) = detail
joined (detail ∷ next ∷ rest) = template (detail ∷ ", " ∷ joined (next ∷ rest) ∷ [])

abbrev pub in_brackets : List String → String
in_brackets [] = ""
in_brackets (detail ∷ details) = template ("(" ∷ joined (detail ∷ details) ∷ ")" ∷ [])

abbrev pub over_bass : Option PitchClass → String
over_bass none = ""
over_bass (some bass) = template ("/" ∷ note_name bass ∷ [])

unfoldable pub chord_label : ChordValue → String
unfolding joined note_name
chord_label ChordValue.no_chord = "N"
chord_label (ChordValue.chord v) = template (
    note_name v.root
    ∷ quality_label v.quality
    ∷ in_brackets (v.extensions ++ (v.additions ++ (v.alterations ++ v.omissions)))
    ∷ over_bass v.bass
    ∷ [])

abbrev pub is_abstained : AssertionState → Bool
is_abstained AssertionState.abstained = true
is_abstained _ = false

unfoldable pub event_label : Presentation → ChordEvent → String
unfolding chord_label present_chord
event_label presentation event =
    if is_abstained event.assertion.state
    then "Unknown chord"
    else chord_label (present_chord event.value presentation)

-- `capitalize(bar.status)`
abbrev pub status_label : BarStatus → String
status_label BarStatus.complete = "Complete"
status_label BarStatus.pickup = "Pickup"
status_label BarStatus.truncated = "Truncated"

unfoldable pub region_of_bar : Bar → WorkspaceTimelineRegion
unfolding decimal
region_of_bar bar = record {
  chord_labels = [];
  end_sample = bar.end_sample;
  id = bar.id;
  kind = RegionKind.bar_region;
  label = template (
      status_label bar.status
      ∷ ", "
      ∷ decimal bar.meter.numerator
      ∷ "/"
      ∷ decimal bar.meter.denominator
      ∷ []);
  start_sample = bar.start_sample;
}

unfoldable pub region_of_unmetered : UnmeteredRegion → WorkspaceTimelineRegion
region_of_unmetered region = record {
  chord_labels = [];
  end_sample = region.end_sample;
  id = region.id;
  kind = RegionKind.unmetered_region;
  label = "Unmetered region";
  start_sample = region.start_sample;
}

abbrev pub starts_first : WorkspaceTimelineRegion → WorkspaceTimelineRegion → Bool
starts_first left right = leb left.start_sample right.start_sample

abbrev pub overlaps : WorkspaceTimelineRegion → ChordEvent → Bool
overlaps region event =
    ltb event.start_sample region.end_sample && ltb region.start_sample event.end_sample

-- `{ ...region, chordLabels }`; the regions have no labels before.
unfoldable pub with_labels :
    Presentation → List ChordEvent → WorkspaceTimelineRegion → WorkspaceTimelineRegion
unfolding event_label
with_labels presentation events region = record region {
  chord_labels = map (event_label presentation) (keep (overlaps region) events);
}

unfoldable pub regions_of : Presentation → MusicalTimeline → List WorkspaceTimelineRegion
unfolding with_labels region_of_bar region_of_unmetered
regions_of presentation t = map (with_labels presentation t.chord_events) (
    to_sorted starts_first
      (map region_of_bar t.bars ++ map region_of_unmetered t.unmetered_regions))

abbrev pub workspace_chord : Presentation → ChordEvent → WorkspaceChord
workspace_chord presentation event = record {
  id = event.id;
  start_sample = event.start_sample;
  end_sample = event.end_sample;
  label = event_label presentation event;
  state = event.assertion.state;
}

unfoldable pub timeline_of : ℕ → Presentation → MusicalTimeline → WorkspaceTimeline
unfolding regions_of
timeline_of duration presentation t = record {
  duration_samples = duration;
  regions = regions_of presentation t;
  beats = all_beats t.bars;
  chords = map (workspace_chord presentation) t.chord_events;
  sections = t.section_regions;
}

unfoldable pub unanalyzed : ProjectContract → WorkspaceTimeline
unanalyzed project = record {
  duration_samples = project.duration_samples;
  regions =
      record {
        chord_labels = [];
        end_sample = project.duration_samples;
        id = template (project.id ∷ "_range" ∷ []);
        kind = RegionKind.unmetered_region;
        label = "Unanalyzed Project range";
        start_sample = 0;
      }
      ∷ [];
  beats = [];
  chords = [];
  sections = [];
}

unfoldable pub build_view :
    (String → String → Bool) → ProjectContract → Option ActiveView → Result WorkspaceTimeline
unfolding unanalyzed timeline_of
build_view collate project none = ok (unanalyzed project)
build_view collate project (some view) = materialize_effective_timeline collate project >>= λ e.
    ok (timeline_of project.duration_samples view.presentation e.timeline)

unfoldable pub build_workspace_timeline :
    (String → String → Bool) → ProjectContract → Result WorkspaceTimeline
unfolding build_view
build_workspace_timeline collate project = build_view collate project project.active_view

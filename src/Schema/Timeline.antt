-- ===== src/Schema/Timeline.antt =====
-- packages/domain/src/schema.ts: the musical timeline. A sample frame is a natural number; the
-- value of an Evidence, a number that no modelled function computes with, is its text.
use open_chords.Prelude.{ℕ, String, List, Option}

pub data PitchClass : Type 0 where
  a_natural a_sharp a_flat b_natural b_flat c_natural c_sharp : PitchClass
  d_natural d_sharp d_flat e_natural e_flat : PitchClass
  f_natural f_sharp g_natural g_sharp g_flat : PitchClass

pub record Evidence : Type 0 where
  pub name : String
  pub scale : String
  pub value : String

pub data AssertionState : Type 0 where
  asserted low_confidence abstained : AssertionState

pub record Assertion : Type 0 where
  pub evidence : List Evidence
  pub reason_codes : List String
  pub state : AssertionState

pub data ChordQuality : Type 0 where
  major minor diminished augmented sus2 sus4 : ChordQuality
  major7 minor7 diminished7 half_diminished : ChordQuality

pub record ChordIdentity : Type 0 where
  pub additions : List String
  pub alterations : List String
  pub bass : Option PitchClass
  pub extensions : List String
  pub omissions : List String
  pub quality : ChordQuality
  pub root : PitchClass

pub data ChordValue : Type 0 where
  chord : ChordIdentity → ChordValue
  no_chord : ChordValue

pub data BeatRole : Type 0 where
  downbeat beat : BeatRole

pub record Beat : Type 0 where
  pub at_sample : ℕ
  pub id : String
  pub role : BeatRole

pub record Meter : Type 0 where
  pub denominator : ℕ
  pub numerator : ℕ

pub data BarStatus : Type 0 where
  complete pickup truncated : BarStatus

pub record Bar : Type 0 where
  pub end_sample : ℕ
  pub start_sample : ℕ
  pub beats : List Beat
  pub id : String
  pub meter : Meter
  pub status : BarStatus

pub record UnmeteredRegion : Type 0 where
  pub end_sample : ℕ
  pub start_sample : ℕ
  pub id : String
  pub reason_code : String

pub record ChordEvent : Type 0 where
  pub end_sample : ℕ
  pub start_sample : ℕ
  pub assertion : Assertion
  pub id : String
  pub value : ChordValue

pub data SectionLabel : Type 0 where
  intro verse pre_chorus chorus bridge solo interlude outro neutral unknown : SectionLabel

pub record SectionRegion : Type 0 where
  pub end_sample : ℕ
  pub start_sample : ℕ
  pub assertion : Assertion
  pub id : String
  pub label : SectionLabel

pub data KeyMode : Type 0 where
  major minor dorian mixolydian other : KeyMode

pub data KeyValue : Type 0 where
  key : KeyMode → PitchClass → KeyValue
  unknown : KeyValue

pub record KeyRegion : Type 0 where
  pub end_sample : ℕ
  pub start_sample : ℕ
  pub assertion : Assertion
  pub id : String
  pub value : KeyValue

pub record MusicalTimeline : Type 0 where
  pub bars : List Bar
  pub chord_events : List ChordEvent
  pub key_regions : List KeyRegion
  pub section_regions : List SectionRegion
  pub unmetered_regions : List UnmeteredRegion

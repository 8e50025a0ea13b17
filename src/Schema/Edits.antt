-- ===== src/Schema/Edits.antt =====
-- packages/domain/src/schema.ts: the operations of an edit layer, and its transactions.
use open_chords.Prelude.{ℕ, String, List, Option}
use open_chords.Schema.Timeline.{ChordValue, Meter, BarStatus, SectionLabel}
use open_chords.Schema.Lyrics.{LyricsAnchor, UserLyricsTiming}

-- An event of `replace_chord_sequence`: a chord event without its assertion.
pub record SequenceEvent : Type 0 where
  pub end_sample : ℕ
  pub start_sample : ℕ
  pub id : String
  pub value : ChordValue

pub record SplitBar : Type 0 where
  pub at_sample : ℕ
  pub bar_id : String
  pub left_status : BarStatus
  pub new_bar_id : String
  pub new_downbeat_id : String
  pub right_meter : Meter
  pub right_status : BarStatus

pub record MergeBars : Type 0 where
  pub left_bar_id : String
  pub meter : Meter
  pub right_bar_id : String
  pub status : BarStatus

pub data EditOperation : Type 0 where
  set_lyrics_anchor : (anchor : LyricsAnchor) → EditOperation
  remove_lyrics_anchor : (anchor_id : String) → EditOperation
  replace_chord_sequence :
      (target_event_ids : List String) (events : List SequenceEvent) → EditOperation
  replace_chord_value : (event_id : String) (value : ChordValue) → EditOperation
  move_chord_boundary : (at_sample : ℕ) (left_event_id right_event_id : String) → EditOperation
  move_beat : (at_sample : ℕ) (beat_id : String) → EditOperation
  move_bar_boundary : (at_sample : ℕ) (left_bar_id right_bar_id : String) → EditOperation
  set_bar_meter : (bar_id : String) (meter : Meter) → EditOperation
  split_bar : SplitBar → EditOperation
  merge_bars : MergeBars → EditOperation
  set_lyrics_timing :
      (alignment_id : String) (timing : UserLyricsTiming) (token_id : String) → EditOperation
  set_lyrics_line_timing :
      (alignment_id line_id : String) (timing : UserLyricsTiming) → EditOperation
  replace_section_label : (label : SectionLabel) (region_id : String) → EditOperation

pub record EditTransaction : Type 0 where
  pub id : String
  pub operations : List EditOperation
  pub parent_transaction_id : Option String

pub record EditLayer : Type 0 where
  pub analysis_revision_id : String
  pub id : String
  pub transactions : List EditTransaction

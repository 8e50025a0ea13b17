-- ===== src/Schema/Contract.antt =====
-- packages/domain/src/schema.ts: the project and what it holds beside timelines and lyrics.
-- The extensions are kept as texts; the speed of practice is an exact fraction.
use open_chords.Prelude.{ℕ, String, List, Option, Bool}
use open_chords.Prelude.Int.{ℤ}
use open_chords.Schema.Timeline.{MusicalTimeline}
use open_chords.Schema.Lyrics.{LyricsDocument, LyricsAlignment}
use open_chords.Schema.Edits.{EditLayer}

pub record AnalysisRevision : Type 0 where
  pub created_at : String
  pub id : String
  pub manifest_hash : String
  pub project_id : String
  pub support_claim_ids : List String
  pub timeline : MusicalTimeline

pub data Capability : Type 0 where
  rhythm meter key chords sections lyrics_alignment : Capability

pub data EvidenceStatus : Type 0 where
  supported : (benchmark_run_hash : String) → EvidenceStatus
  insufficient_evidence : EvidenceStatus

pub record SupportClaim : Type 0 where
  pub benchmark_policy_hash : String
  pub capability : Capability
  pub id : String
  pub inputs : List String
  pub operating_conditions : List String
  pub platform_profiles : List String
  pub release_version : String
  pub slices : List String
  pub evidence_status : EvidenceStatus

pub data EnharmonicPreference : Type 0 where
  sharp flat contextual : EnharmonicPreference

pub record Presentation : Type 0 where
  pub beginner_view : Bool
  pub enharmonic_preference : EnharmonicPreference
  pub transpose_semitones : ℤ

pub record ActiveView : Type 0 where
  pub analysis_revision_id : String
  pub edit_history_position : ℕ
  pub edit_layer_id : String
  pub lyrics_alignment_id : Option String
  pub lyrics_document_id : Option String
  pub presentation : Presentation

pub record Fraction : Type 0 where
  pub numerator : ℕ
  pub denominator : ℕ

pub data Instrument : Type 0 where
  guitar ukulele piano : Instrument

pub data LoopStatus : Type 0 where
  ready needs_review : LoopStatus

pub record PracticeLoop : Type 0 where
  pub analysis_revision_id : String
  pub first_bar_id : String
  pub last_bar_id : String
  pub status : LoopStatus

pub record PracticeState : Type 0 where
  pub speed : Fraction
  pub count_in_bars : ℕ
  pub metronome : Bool
  pub autoscroll : Bool
  pub instrument : Instrument
  pub loop : Option PracticeLoop

pub record ImportOrigin : Type 0 where
  pub archive_manifest_hash : String
  pub project_id : String

pub record ProjectContract : Type 0 where
  pub active_view : Option ActiveView
  pub analysis_revisions : List AnalysisRevision
  pub duration_samples : ℕ
  pub edit_layers : List EditLayer
  pub extensions : List (String × String)
  pub id : String
  pub import_origins : Option (List ImportOrigin)
  pub lyrics_alignments : List LyricsAlignment
  pub lyrics_documents : List LyricsDocument
  pub practice : Option PracticeState
  pub sample_rate : ℕ
  pub schema_version : String
  pub support_claims : List SupportClaim

-- ===== src/Schema/Lyrics.antt =====
-- packages/domain/src/schema.ts and packages/domain/src/alignment.ts: lyrics documents, their
-- alignments and anchors. A text is the list of its UTF-16 code units, which offsets count.
use open_chords.Prelude.{ℕ, String, List, Option}
use open_chords.Schema.Timeline.{Assertion}

pub record LyricsLine : Type 0 where
  pub end_offset : ℕ
  pub id : String
  pub start_offset : ℕ

pub record LyricsToken : Type 0 where
  pub end_offset : ℕ
  pub id : String
  pub line_id : String
  pub start_offset : ℕ
  pub text : List ℕ

pub record LyricsProvenance : Type 0 where
  pub provider : String
  pub reference : String

pub record Tokenization : Type 0 where
  pub scheme : String
  pub version : String

pub data SuppliedTimingKind : Type 0 where
  untimed line word : SuppliedTimingKind

pub record LyricsDocument : Type 0 where
  pub attribution : List String
  pub id : String
  pub language : String
  pub lines : List LyricsLine
  pub notices : List String
  pub provenance : LyricsProvenance
  pub supplied_timing_kind : SuppliedTimingKind
  pub text : List ℕ
  pub tokenization : Tokenization
  pub tokens : List LyricsToken

pub data LyricsTiming : Type 0 where
  matched : (start_sample end_sample : ℕ) → Assertion → LyricsTiming
  unmatched : (reason_code : String) → LyricsTiming

-- The timing of an edit: what is asserted of it is always the user's word.
pub data UserLyricsTiming : Type 0 where
  matched : (start_sample end_sample : ℕ) → UserLyricsTiming
  unmatched : (reason_code : String) → UserLyricsTiming

pub record LineOccurrence : Type 0 where
  pub line_id : String
  pub timing : LyricsTiming

pub record TokenOccurrence : Type 0 where
  pub timing : LyricsTiming
  pub token_id : String

pub record LyricsAnchor : Type 0 where
  pub id : String
  pub lyrics_document_id : String
  pub analysis_revision_id : String
  pub first_token_id : String
  pub last_token_id : String
  pub start_sample : ℕ
  pub end_sample : ℕ

pub record AlignmentArtifact : Type 0 where
  pub id : String
  pub version : String
  pub sha256 : String

-- Without the fields of one literal (version, normalization, workerProfile).
pub record AlignmentRecipe : Type 0 where
  pub project_id : String
  pub lyrics_document_id : String
  pub document_hash : String
  pub analysis_revision_id : String
  pub revision_hash : String
  pub canonical_audio_fingerprint : String
  pub duration_samples : ℕ
  pub sample_rate : ℕ
  pub anchors : List LyricsAnchor
  pub pack_id : String
  pub runtime_id : String
  pub runtime_manifest_hash : String
  pub artifacts : List AlignmentArtifact

pub record AlignmentProvenance : Type 0 where
  pub recipe : AlignmentRecipe
  pub recipe_hash : String
  pub result_hash : String

pub record LyricsAlignment : Type 0 where
  pub provenance : Option AlignmentProvenance
  pub analysis_revision_id : String
  pub id : String
  pub line_occurrences : List LineOccurrence
  pub lyrics_document_id : String
  pub occurrences : List TokenOccurrence

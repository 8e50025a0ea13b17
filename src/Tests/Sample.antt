-- ===== src/Tests/Sample.antt =====
-- A project with two bars, two chords, one line of lyrics, and two saved edits.
use open_chords.Prelude.{ℕ, String, Bool, true, not, none, some, List, [], ◌∷◌, text_ltb}
use open_chords.Prelude.Int.{pos}
use open_chords.Schema.{
  PitchClass, Assertion, AssertionState, ChordQuality, ChordValue, BeatRole, Beat, BarStatus, Meter,
  Bar, ChordEvent, SectionLabel, KeyMode, KeyValue, MusicalTimeline, SuppliedTimingKind,
  LyricsDocument, LyricsTiming, UserLyricsTiming, LyricsAlignment, EditOperation, EditTransaction,
  EditLayer, AnalysisRevision, EnharmonicPreference, Presentation, ActiveView, ProjectContract,
}

abbrev pub collate : String → String → Bool
collate a b = not (text_ltb b a)

abbrev pub found : Assertion
found = record { evidence = []; reason_codes = []; state = AssertionState.low_confidence }

abbrev pub triad : PitchClass → ChordQuality → ChordValue
triad root quality = ChordValue.chord (record {
  additions = [];
  alterations = [];
  bass = none;
  extensions = [];
  omissions = [];
  quality = quality;
  root = root;
})

abbrev pub beat_at : ℕ → String → BeatRole → Beat
beat_at at_sample id role = record { at_sample = at_sample; id = id; role = role }

abbrev pub two_four : Meter
two_four = record { denominator = 4; numerator = 2 }

abbrev pub bar_of : String → ℕ → ℕ → List Beat → Bar
bar_of id start end beats = record {
  end_sample = end;
  start_sample = start;
  beats = beats;
  id = id;
  meter = two_four;
  status = BarStatus.complete;
}

abbrev pub chord_of : String → ℕ → ℕ → ChordValue → ChordEvent
chord_of id start end value = record {
  end_sample = end;
  start_sample = start;
  assertion = found;
  id = id;
  value = value;
}

abbrev pub first_bar : Bar
first_bar =
    bar_of "bar_1" 0 50
      (beat_at 0 "beat_1" BeatRole.downbeat ∷ beat_at 25 "beat_2" BeatRole.beat ∷ [])

abbrev pub second_bar : Bar
second_bar =
    bar_of "bar_2" 50 100
      (beat_at 50 "beat_3" BeatRole.downbeat ∷ beat_at 75 "beat_4" BeatRole.beat ∷ [])

abbrev pub c_chord : ChordEvent
c_chord = chord_of "chord_1" 0 50 (triad PitchClass.c_natural ChordQuality.major)

abbrev pub g_chord : ChordEvent
g_chord = chord_of "chord_2" 50 100 (triad PitchClass.g_natural ChordQuality.major)

abbrev pub timeline : MusicalTimeline
timeline = record {
  bars = first_bar ∷ second_bar ∷ [];
  chord_events = c_chord ∷ g_chord ∷ [];
  key_regions =
      record {
        end_sample = 100;
        start_sample = 0;
        assertion = found;
        id = "key_1";
        value = KeyValue.key KeyMode.major PitchClass.c_natural;
      }
      ∷ [];
  section_regions =
      record {
        end_sample = 100;
        start_sample = 0;
        assertion = found;
        id = "section_1";
        label = SectionLabel.verse;
      }
      ∷ [];
  unmetered_regions = [];
}

abbrev pub document : LyricsDocument
document = record {
  attribution = [];
  id = "lyrics_1";
  language = "en";
  lines = record { end_offset = 5; id = "lyrics_1_line_0"; start_offset = 0 } ∷ [];
  notices = [];
  provenance = record { provider = "user"; reference = "user_supplied" };
  supplied_timing_kind = SuppliedTimingKind.untimed;
  text = 104 ∷ 105 ∷ 32 ∷ 121 ∷ 111 ∷ [];
  tokenization = record { scheme = "unicode_letter_number_utf16"; version = "1.0" };
  tokens =
      record {
        end_offset = 2;
        id = "lyrics_1_token_0";
        line_id = "lyrics_1_line_0";
        start_offset = 0;
        text = 104 ∷ 105 ∷ [];
      }
      ∷ record {
        end_offset = 5;
        id = "lyrics_1_token_1";
        line_id = "lyrics_1_line_0";
        start_offset = 3;
        text = 121 ∷ 111 ∷ [];
      }
      ∷ [];
}

abbrev pub untimed : LyricsTiming
untimed = LyricsTiming.unmatched "untimed_reference"

abbrev pub alignment : LyricsAlignment
alignment = record {
  provenance = none;
  analysis_revision_id = "revision_1";
  id = "lyrics_1_alignment";
  line_occurrences = record { line_id = "lyrics_1_line_0"; timing = untimed } ∷ [];
  lyrics_document_id = "lyrics_1";
  occurrences =
      record { timing = untimed; token_id = "lyrics_1_token_0" }
      ∷ record { timing = untimed; token_id = "lyrics_1_token_1" }
      ∷ [];
}

abbrev pub revision : AnalysisRevision
revision = record {
  created_at = "2026-01-01T00:00:00Z";
  id = "revision_1";
  manifest_hash = "";
  project_id = "project_1";
  support_claim_ids = [];
  timeline = timeline;
}

abbrev pub transactions : List EditTransaction
transactions =
    record {
      id = "transaction_1";
      operations = EditOperation.move_chord_boundary 40 "chord_1" "chord_2" ∷ [];
      parent_transaction_id = none;
    }
    ∷ record {
      id = "transaction_2";
      operations =
          EditOperation.set_lyrics_timing "lyrics_1_alignment" (UserLyricsTiming.matched 10 20)
            "lyrics_1_token_0"
          ∷ EditOperation.replace_chord_value "chord_2"
              (triad PitchClass.a_natural ChordQuality.minor)
          ∷ [];
      parent_transaction_id = some "transaction_1";
    }
    ∷ []

abbrev pub layer : EditLayer
layer = record { analysis_revision_id = "revision_1"; id = "layer_1"; transactions = transactions }

abbrev pub plain : Presentation
plain = record {
  beginner_view = true;
  enharmonic_preference = EnharmonicPreference.sharp;
  transpose_semitones = pos 0;
}

abbrev pub view : ActiveView
view = record {
  analysis_revision_id = "revision_1";
  edit_history_position = 2;
  edit_layer_id = "layer_1";
  lyrics_alignment_id = some "lyrics_1_alignment";
  lyrics_document_id = some "lyrics_1";
  presentation = plain;
}

abbrev pub project : ProjectContract
project = record {
  active_view = some view;
  analysis_revisions = revision ∷ [];
  duration_samples = 100;
  edit_layers = layer ∷ [];
  extensions = [];
  id = "project_1";
  import_origins = none;
  lyrics_alignments = alignment ∷ [];
  lyrics_documents = document ∷ [];
  practice = none;
  sample_rate = 44100;
  schema_version = "1.0";
  support_claims = [];
}

-- ===== src/Tests/Lrc.antt =====
-- The theorem on LRC texts, at the sample document with one timed line.
use open_chords.Prelude.{
  ℕ, ◌≡◌, refl, String, some, List, [], ◌∷◌, ◌++◌, units, keep, some_of, map_get, includes, decimal,
}
use open_chords.Schema.{LyricsTiming, LyricsAlignment}
use open_chords.Lrc.{
  LrcSnapshot, insert_loss, receipt_losses, timestamp, lrc_lines, onsets_from, monotonic,
  emitted_from, losses_from, joined_lines, lrc_text, project_lrc,
}
use open_chords.Lrc.Sources.{IsSung}
use open_chords.Lrc.Reader.{lines_of, read_lines, read_lrc}
use open_chords.Lrc.Reader.Onsets.{IsRead, project_lrc-IsRead}
use open_chords.Tests.Sample.{found, document, alignment}

abbrev timed : LyricsAlignment
timed = record alignment {
  line_occurrences =
      record { line_id = "lyrics_1_line_0"; timing = LyricsTiming.matched 441000 500000 found }
      ∷ [];
}

abbrev snapshot : LrcSnapshot
snapshot = record {
  lyrics = some (record { document = document; effective_alignment = some timed });
  sample_rate = 44100;
}

abbrev printed : List ℕ
printed = units "[ti:Song]" ++ (10 ∷ units "[00:10.00]hi yo" ++ (10 ∷ []))

abbrev losses : List String
losses =
    "analysis_provenance_not_represented" ∷ "confidence_not_represented"
    ∷ "edit_history_not_represented" ∷ "line_end_timing_not_represented" ∷ "lrc_line_coverage:1/1"
    ∷ "lyrics_mismatch_not_represented" ∷ "sample_timing_not_represented"
    ∷ "stable_identity_not_represented" ∷ []

project_lrc-IsRead_example : IsRead (IsSung 44100 snapshot.lyrics) (read_lrc printed)
unfolding project_lrc lrc_text joined_lines losses_from emitted_from monotonic onsets_from lrc_lines
    timestamp receipt_losses insert_loss keep some_of map_get includes decimal
project_lrc-IsRead_example = project_lrc-IsRead snapshot (units "Song]") printed losses refl

-- The title is no row.
read_lrc-printed : read_lrc printed ≡ (1000, units "hi yo") ∷ []
unfolding read_lrc read_lines lines_of
read_lrc-printed = refl

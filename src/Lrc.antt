-- ===== src/Lrc.antt =====
-- packages/domain/src/lrc.ts, with packages/domain/src/export-text.ts and the losses of
-- packages/domain/src/export-losses.ts. A text that is printed is the list of its UTF-16 code units, a
-- loss is a text of the runtime.
pub mod Ascending
pub mod Reader
pub mod Sources
use open_chords.Prelude.{
  ℕ, zero, suc, ◌+◌, ◌*◌, ◌/◌, ◌%◌, String, Bool, true, false, not, ◌&&◌, ◌||◌, Option, none, some,
  List, [], ◌∷◌, ◌++◌, map, length, take, drop, keep, some_of, map_get, includes, ltb, leb, ◌==◌,
  text_ltb, template, units, decimal, Result, ok, err, error, ◌>>=◌, if◌then◌else◌,
}
use open_chords.Schema.{
  AssertionState, Assertion, LyricsLine, LyricsDocument, LyricsTiming, LineOccurrence,
  TokenOccurrence, LyricsAlignment,
}
use open_chords.Projection.Find.{or_throw}

-- `isControl`, `hasControlCharacter` and `replaceControlCharacters` with the empty text
abbrev pub is_control : ℕ → Bool
is_control unit = ltb unit 32 && not (unit == 9) || unit == 127

abbrev pub has_control_character : List ℕ → Bool
has_control_character text = some_of is_control text

abbrev pub without_control_characters : List ℕ → List ℕ
without_control_characters text = keep (λ unit. not (is_control unit)) text

-- What `trim` takes away.
abbrev pub is_space : ℕ → Bool
is_space unit =
    leb 9 unit && leb unit 13
    || some_of (λ space. space == unit)
        (32 ∷ 160 ∷ 5760 ∷ 8232 ∷ 8233 ∷ 8239 ∷ 8287 ∷ 12288 ∷ 65279 ∷ [])
    || leb 8192 unit && leb unit 8202

-- `text.trim() === ""`
abbrev pub is_blank : List ℕ → Bool
is_blank text = not (some_of (λ unit. not (is_space unit)) text)

abbrev pub opens_bracket : List ℕ → Bool
opens_bracket [] = false
opens_bracket (unit ∷ text) = unit == 91

abbrev pub export_loss : String → String → String
export_loss code subject = template (code ∷ ":" ∷ subject ∷ [])

-- `[...new Set(losses)].sort()`; a loss is an ASCII text.
unfoldable pub insert_loss : String → List String → List String
insert_loss loss [] = loss ∷ []
insert_loss loss (first ∷ losses) =
    let rest = insert_loss loss losses in
    if text_ltb first loss then first ∷ rest else loss ∷ first ∷ losses

unfoldable pub receipt_losses : List String → List String
unfolding insert_loss
receipt_losses [] = []
receipt_losses (loss ∷ losses) =
    let rest = receipt_losses losses in if includes loss losses then rest else insert_loss loss rest

abbrev pub max_centiseconds : ℕ
max_centiseconds = 600000

-- `String(part).padStart(2, "0")`
abbrev pub padded : ℕ → List ℕ
padded part = if ltb part 10 then 48 ∷ units (decimal part) else units (decimal part)

unfoldable pub timestamp : ℕ → List ℕ
timestamp centiseconds =
    91 ∷ padded (centiseconds / 6000)
    ++ (58 ∷ padded (centiseconds / 100 % 60) ++ (46 ∷ padded (centiseconds % 100) ++ (93 ∷ [])))

pub record LrcLyrics : Type 0 where
  pub document : LyricsDocument
  pub effective_alignment : Option LyricsAlignment

pub record LrcSnapshot : Type 0 where
  pub lyrics : Option LrcLyrics
  pub sample_rate : ℕ

pub data LrcProjection : Type 0 where
  lrc : (text : List ℕ) (losses : List String) → LrcProjection
  unavailable : (reason : String) → LrcProjection

pub record LrcLine : Type 0 where
  pub id : String
  pub text : List ℕ
  pub timing : LyricsTiming
  pub onset : Option ℕ

abbrev pub is_matched : LyricsTiming → Bool
is_matched (LyricsTiming.matched start end assertion) = true
is_matched (LyricsTiming.unmatched reason_code) = false

abbrev pub onset_of : ℕ → LyricsTiming → Option ℕ
onset_of sample_rate (LyricsTiming.matched start end assertion) = some (start * 100 / sample_rate)
onset_of sample_rate (LyricsTiming.unmatched reason_code) = none

abbrev pub slice : List ℕ → ℕ → ℕ → List ℕ
slice text start end = drop start (take end text)

unfoldable pub lrc_lines :
    ℕ → List ℕ → List (String × LyricsTiming) → List LyricsLine → Result (List LrcLine)
lrc_lines sample_rate text timings [] = ok []
lrc_lines sample_rate text timings (line ∷ lines) = do
  timing ←
      or_throw (map_get line.id timings) "Cannot read properties of undefined (reading 'state')"
  rest ← lrc_lines sample_rate text timings lines
  ok (
      record {
        id = line.id;
        text = slice text line.start_offset line.end_offset;
        timing = timing;
        onset = onset_of sample_rate timing;
      }
      ∷ rest)

-- An onset, with the index of its line.
abbrev pub indexed : Option ℕ → ℕ → List (ℕ × ℕ)
indexed none index = []
indexed (some onset) index = (onset, index) ∷ []

unfoldable pub onsets_from : ℕ → List LrcLine → List (ℕ × ℕ)
onsets_from index [] = []
onsets_from index (line ∷ lines) = indexed line.onset index ++ onsets_from (suc index) lines

-- The other onset is that of the line itself, or lies on the same side of it as its line.
abbrev pub in_order : ℕ → ℕ → ℕ × ℕ → Bool
in_order onset index (other, other_index) =
    other_index == index || (if ltb other_index index then ltb other onset else ltb onset other)

unfoldable pub monotonic : ℕ → ℕ → List (ℕ × ℕ) → Bool
monotonic onset index [] = true
monotonic onset index (other ∷ others) = in_order onset index other && monotonic onset index others

-- The order of the tests of a line with an onset.
abbrev pub first_reason : Bool → Bool → Bool → Bool → Option String
first_reason blank unsafe late ordered =
    if blank
    then some "empty"
    else if unsafe
    then some "unsafe_text"
    else if late
    then some "out_of_range"
    else if ordered
    then none
    else some "non_monotonic"

abbrev pub timed_reason : List (ℕ × ℕ) → ℕ → List ℕ → ℕ → Option String
timed_reason onsets index text onset =
    first_reason (is_blank text) (has_control_character text || opens_bracket text)
      (leb max_centiseconds onset) (monotonic onset index onsets)

abbrev pub omission_reason : List (ℕ × ℕ) → ℕ → List ℕ → Option ℕ → Option String
omission_reason onsets index text none = some "unmatched"
omission_reason onsets index text (some onset) = timed_reason onsets index text onset

-- A line that is emitted, with its onset and index.
pub record LrcRow : Type 0 where
  pub onset : ℕ
  pub index : ℕ
  pub text : List ℕ

abbrev pub row_of : ℕ → List ℕ → Option ℕ → Option String → List LrcRow
row_of index text (some onset) none = record { onset = onset; index = index; text = text } ∷ []
row_of index text onset omitted = []

-- The loop over the lines: what it emits, and the losses that it adds.
unfoldable pub emitted_from : List (ℕ × ℕ) → ℕ → List LrcLine → List LrcRow
unfolding monotonic
emitted_from onsets index [] = []
emitted_from onsets index (line ∷ lines) =
    row_of index line.text line.onset (omission_reason onsets index line.text line.onset)
    ++ emitted_from onsets (suc index) lines

abbrev pub low_confidence_loss : AssertionState → List String
low_confidence_loss AssertionState.low_confidence = "confidence_not_represented" ∷ []
low_confidence_loss _ = []

abbrev pub confidence_loss : LyricsTiming → List String
confidence_loss (LyricsTiming.matched start end assertion) = low_confidence_loss assertion.state
confidence_loss (LyricsTiming.unmatched reason_code) = []

abbrev pub line_loss : LrcLine → Option String → List String
line_loss line none = confidence_loss line.timing
line_loss line (some omitted) =
    export_loss "lrc_line_omitted" (template (omitted ∷ ":" ∷ line.id ∷ [])) ∷ []

unfoldable pub losses_from : List (ℕ × ℕ) → ℕ → List LrcLine → List String
unfolding monotonic
losses_from onsets index [] = []
losses_from onsets index (line ∷ lines) =
    line_loss line (omission_reason onsets index line.text line.onset)
    ++ losses_from onsets (suc index) lines

abbrev pub first_losses : List String
first_losses =
    "analysis_provenance_not_represented" ∷ "edit_history_not_represented"
    ∷ "lyrics_mismatch_not_represented" ∷ "sample_timing_not_represented"
    ∷ "stable_identity_not_represented" ∷ "line_end_timing_not_represented" ∷ []

abbrev pub last_losses : LyricsDocument → LyricsAlignment → ℕ → ℕ → List String
last_losses document alignment emitted lines =
    export_loss "lrc_line_coverage" (template (decimal emitted ∷ "/" ∷ decimal lines ∷ []))
      ∷ (if some_of (λ o. is_matched o.timing) alignment.occurrences
          then "word_timing_not_represented" ∷ []
          else [])
    ++ (if ltb 0 (length document.attribution) || ltb 0 (length document.notices)
        then "lyrics_notices_not_represented" ∷ []
        else [])

abbrev pub row_text : LrcRow → List ℕ
row_text row = timestamp row.onset ++ row.text

-- The title without control characters and closing brackets.
abbrev pub title_of : List ℕ → List ℕ
title_of title = keep (λ unit. not (unit == 93)) (without_control_characters title)

abbrev pub title_lines : List ℕ → List (List ℕ)
title_lines [] = []
title_lines (unit ∷ title) = (units "[ti:" ++ (unit ∷ title ++ (93 ∷ []))) ∷ []

-- `lines.join("\n")` and a last line feed, for one line at least
unfoldable pub joined_lines : List (List ℕ) → List ℕ
joined_lines [] = []
joined_lines (line ∷ lines) = line ++ (10 ∷ joined_lines lines)

unfoldable pub lrc_text : List ℕ → List LrcRow → List ℕ
unfolding joined_lines timestamp
lrc_text title rows = joined_lines (title_lines (title_of title) ++ map row_text rows)

abbrev pub lrc_of :
    LyricsDocument → LyricsAlignment → List ℕ → List LrcLine → List LrcRow → LrcProjection
lrc_of document alignment title lines [] = unavailable "no_emittable_lines"
lrc_of document alignment title lines (row ∷ rows) = lrc (lrc_text title (row ∷ rows)) (
    receipt_losses (
      first_losses
      ++ (losses_from (onsets_from 0 lines) 0 lines
          ++ last_losses document alignment (length (row ∷ rows)) (length lines))))

abbrev pub aligned_lrc : ℕ → LyricsDocument → List ℕ → Option LyricsAlignment → Result LrcProjection
aligned_lrc sample_rate document title none = ok (unavailable "no_line_timing")
aligned_lrc sample_rate document title (some alignment) =
    if some_of (λ o. is_matched o.timing) alignment.line_occurrences
    then (lrc_lines sample_rate document.text
          (map (λ o. (o.line_id, o.timing)) alignment.line_occurrences) document.lines
        >>= λ lines.
            ok (lrc_of document alignment title lines (emitted_from (onsets_from 0 lines) 0 lines)))
    else ok (unavailable "no_line_timing")

abbrev pub lyrics_lrc : ℕ → List ℕ → Option LrcLyrics → Result LrcProjection
lyrics_lrc sample_rate title none = ok (unavailable "no_lyrics")
lyrics_lrc sample_rate title (some lyrics) =
    aligned_lrc sample_rate lyrics.document title lyrics.effective_alignment

unfoldable pub project_lrc : LrcSnapshot → List ℕ → Result LrcProjection
project_lrc snapshot title = lyrics_lrc snapshot.sample_rate title snapshot.lyrics

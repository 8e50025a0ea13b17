-- ===== src/Projection/Apply.antt =====
-- packages/domain/src/projection.ts: `applyOperation`, over the timeline and the alignment that it
-- changes. An edit of the timing of another alignment, and an edit of an anchor, change nothing.
pub mod Frame
use open_chords.Prelude.{
  String, Option, none, some, List, [], ◌∷◌, ◌===◌, template, modify_first, Result, ok, ◌>>=◌,
  if◌then◌else◌,
}
use open_chords.Schema.{
  Bar, ChordEvent, SectionLabel, SectionRegion, MusicalTimeline, LyricsAlignment, LyricsTiming,
  UserLyricsTiming, EditOperation, EditTransaction,
}
use open_chords.Projection.Find.{or_throw}
use open_chords.Projection.Chords.{user_authored, replace_sequence, replace_value, move_boundary}
use open_chords.Projection.Bars

pub record ProjectionState : Type 0 where
  pub timeline : MusicalTimeline
  pub lyrics_alignment : Option LyricsAlignment

abbrev pub as_timing : UserLyricsTiming → LyricsTiming
as_timing (UserLyricsTiming.matched start end) = LyricsTiming.matched start end user_authored
as_timing (UserLyricsTiming.unmatched reason) = LyricsTiming.unmatched reason

unfoldable pub replace_label :
    List SectionRegion → SectionLabel → String → Result (List SectionRegion)
replace_label regions label id =
    or_throw
      (modify_first (λ r. r.id === id) (λ r. record r { label = label; assertion = user_authored })
        regions)
      (template ("Edit references unknown Section Region " ∷ id ∷ []))

unfoldable pub set_token_timing : LyricsAlignment → LyricsTiming → String → Result LyricsAlignment
set_token_timing alignment timing token_id = do
  occurrences ←
      or_throw
        (modify_first (λ o. o.token_id === token_id) (λ o. record o { timing = timing })
          alignment.occurrences)
        (template ("Edit references unknown Lyrics Token Occurrence " ∷ token_id ∷ []))
  ok (record alignment { occurrences = occurrences })

unfoldable pub set_line_timing : LyricsAlignment → LyricsTiming → String → Result LyricsAlignment
set_line_timing alignment timing line_id = do
  occurrences ←
      or_throw
        (modify_first (λ o. o.line_id === line_id) (λ o. record o { timing = timing })
          alignment.line_occurrences)
        (template ("Edit references unknown Lyrics Line Occurrence " ∷ line_id ∷ []))
  ok (record alignment { line_occurrences = occurrences })

-- `if (lyricsAlignment?.id !== alignmentId) return;`, and else the edit of the alignment.
unfoldable pub edit_alignment :
    Option LyricsAlignment
    → String
    → (LyricsAlignment → Result LyricsAlignment)
    → Result (Option LyricsAlignment)
edit_alignment none id edit = ok none
edit_alignment (some alignment) id edit =
    if alignment.id === id
    then (edit alignment >>= λ edited. ok (some edited))
    else ok (some alignment)

abbrev with_chords : ProjectionState → List ChordEvent → ProjectionState
with_chords s events = record s { timeline = record s.timeline { chord_events = events } }

abbrev with_bars : ProjectionState → List Bar → ProjectionState
with_bars s bars = record s { timeline = record s.timeline { bars = bars } }

unfoldable pub apply_operation : ProjectionState → EditOperation → Result ProjectionState
apply_operation s (EditOperation.replace_chord_sequence targets events) = do
  changed ← replace_sequence s.timeline.chord_events targets events
  ok (with_chords s changed)
apply_operation s (EditOperation.replace_chord_value id value) = do
  changed ← replace_value s.timeline.chord_events id value
  ok (with_chords s changed)
apply_operation s (EditOperation.replace_section_label label id) = do
  regions ← replace_label s.timeline.section_regions label id
  ok (record s { timeline = record s.timeline { section_regions = regions } })
apply_operation s (EditOperation.move_chord_boundary at_sample left right) = do
  changed ← move_boundary s.timeline.chord_events at_sample left right
  ok (with_chords s changed)
apply_operation s (EditOperation.move_beat at_sample id) = do
  bars ← Bars.move_beat s.timeline.bars at_sample id
  ok (with_bars s bars)
apply_operation s (EditOperation.move_bar_boundary at_sample left right) = do
  bars ← Bars.move_bars_boundary s.timeline.bars at_sample left right
  ok (with_bars s bars)
apply_operation s (EditOperation.set_bar_meter id meter) = do
  bars ← Bars.set_meter s.timeline.bars id meter
  ok (with_bars s bars)
apply_operation s (EditOperation.split_bar split) = do
  bars ← Bars.split_first s.timeline.bars split
  ok (with_bars s bars)
apply_operation s (EditOperation.merge_bars merge) = do
  bars ← Bars.merge_neighbours s.timeline.bars merge
  ok (with_bars s bars)
apply_operation s (EditOperation.set_lyrics_timing alignment_id timing token_id) = do
  edited ←
      edit_alignment s.lyrics_alignment alignment_id
        (λ a. set_token_timing a (as_timing timing) token_id)
  ok (record s { lyrics_alignment = edited })
apply_operation s (EditOperation.set_lyrics_line_timing alignment_id line_id timing) = do
  edited ←
      edit_alignment s.lyrics_alignment alignment_id
        (λ a. set_line_timing a (as_timing timing) line_id)
  ok (record s { lyrics_alignment = edited })
apply_operation s (EditOperation.set_lyrics_anchor anchor) = ok s
apply_operation s (EditOperation.remove_lyrics_anchor id) = ok s

unfoldable pub apply_operations : ProjectionState → List EditOperation → Result ProjectionState
apply_operations s [] = ok s
apply_operations s (operation ∷ rest) =
    apply_operation s operation >>= λ s'. apply_operations s' rest

-- The operations of the transactions, in order.
unfoldable pub apply_transactions : ProjectionState → List EditTransaction → Result ProjectionState
apply_transactions s [] = ok s
apply_transactions s (t ∷ ts) = apply_operations s t.operations >>= λ s'. apply_transactions s' ts

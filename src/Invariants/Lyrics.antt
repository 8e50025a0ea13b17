-- ===== src/Invariants/Lyrics.antt =====
-- packages/domain/src/invariants.ts: `validateLyricsAlignmentInvariants`.
pub mod Exact
use open_chords.Prelude.{
  ℕ, String, Bool, true, false, not, ◌||◌, List, [], ◌∷◌, map, ltb, leb, ◌==◌, ◌===◌, template,
  length, Result, if◌then◌else◌,
}
use open_chords.Schema.{LyricsTiming, LyricsDocument, LyricsAlignment}
use open_chords.Invariants.Checks.{push_if}
use open_chords.Invariants.Gather.{gather, throw_issues}

-- The loop of `validateLyricsTimingSequence`, over the timings of the occurrences.
pub timing_issues : ℕ → List LyricsTiming → ℕ → String → List String
timing_issues cursor [] duration label = []
timing_issues cursor (LyricsTiming.unmatched reason ∷ rest) duration label =
    timing_issues cursor rest duration label
timing_issues cursor (LyricsTiming.matched start end assertion ∷ rest) duration label =
    push_if (ltb start cursor) (template (label ∷ " timings are not monotonic" ∷ [])) (
      push_if (leb end start) (template (label ∷ " has an empty timing" ∷ [])) (
        push_if (ltb duration end) (template (label ∷ " timing exceeds the Project Range" ∷ []))
          (timing_issues end rest duration label)))

-- `expected.some((id, index) => actual[index] !== id)`
pub mismatched : List String → List String → Bool
mismatched [] actual = false
mismatched (id ∷ expected) [] = true
mismatched (id ∷ expected) (other ∷ actual) = not (other === id) || mismatched expected actual

pub misaligned : List String → List String → Bool
unfolding mismatched
misaligned expected actual = not (length expected == length actual) || mismatched expected actual

module _ (alignment : LyricsAlignment) (document : LyricsDocument) (duration : ℕ) where
  unfoldable pub alignment_issues : List String
  unfolding misaligned timing_issues
  alignment_issues = gather (
      push_if
        (misaligned (map (λ t. t.id) document.tokens) (map (λ o. o.token_id) alignment.occurrences))
        (template
          (alignment.id ∷ " must align every Lyrics Token Occurrence exactly once in order" ∷ []))
        []
      ∷ push_if
          (misaligned (map (λ l. l.id) document.lines)
            (map (λ o. o.line_id) alignment.line_occurrences))
          (template
            (alignment.id ∷ " must align every Lyrics Line Occurrence exactly once in order" ∷ []))
          []
      ∷ timing_issues 0 (map (λ o. o.timing) alignment.occurrences) duration
          (template (alignment.id ∷ " token" ∷ []))
      ∷ timing_issues 0 (map (λ o. o.timing) alignment.line_occurrences) duration
          (template (alignment.id ∷ " line" ∷ []))
      ∷ [])

  unfoldable pub validate_lyrics_alignment : Result (Unit {0})
  unfolding alignment_issues
  validate_lyrics_alignment = throw_issues alignment_issues

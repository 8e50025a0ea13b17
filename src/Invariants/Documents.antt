-- ===== src/Invariants/Documents.antt =====
-- packages/domain/src/invariants.ts: the checks of lyrics documents in `validateProjectInvariants`.
use open_chords.Prelude.{
  ℕ, ◌-◌, String, Bool, true, false, not, ◌&&◌, ◌||◌, List, [], ◌∷◌, map, ltb, leb, ◌==◌, template,
  length, take, drop, includes,
}
use open_chords.Schema.{LyricsLine, LyricsToken, LyricsDocument}
use open_chords.Invariants.Checks.{push_if, validate_unique_ids}
use open_chords.Invariants.Gather.{gather}

-- `===` on texts of code units
unfoldable pub same_text : List ℕ → List ℕ → Bool
same_text [] [] = true
same_text [] (d ∷ ds) = false
same_text (c ∷ cs) [] = false
same_text (c ∷ cs) (d ∷ ds) = c == d && same_text cs ds

-- `text.slice(start, end)` of offsets that are not negative
abbrev pub slice : List ℕ → ℕ → ℕ → List ℕ
slice text start end = take (end - start) (drop start text)

abbrev pub bad_span : ℕ → ℕ → ℕ → ℕ → Bool
bad_span offset start end limit = ltb start offset || (leb end start || ltb limit end)

unfoldable pub line_issues : LyricsDocument → ℕ → List LyricsLine → List String
line_issues document offset [] = []
line_issues document offset (line ∷ rest) =
    push_if (bad_span offset line.start_offset line.end_offset (length document.text))
      (template ("lines in " ∷ document.id ∷ " are invalid or unstably ordered" ∷ []))
      (line_issues document line.end_offset rest)

unfoldable pub token_issues : LyricsDocument → ℕ → List LyricsToken → List String
unfolding same_text
token_issues document offset [] = []
token_issues document offset (token ∷ rest) =
    push_if (not (includes token.line_id (map (λ l. l.id) document.lines)))
      (template (token.id ∷ " references unknown lyric line" ∷ []))
      (push_if (bad_span offset token.start_offset token.end_offset (length document.text))
        (template ("tokens in " ∷ document.id ∷ " are invalid or unstably ordered" ∷ []))
        (push_if
          (not (same_text (slice document.text token.start_offset token.end_offset) token.text))
          (template (token.id ∷ " does not map back to immutable Lyrics Document text" ∷ []))
          (token_issues document token.end_offset rest)))

unfoldable pub document_issues : LyricsDocument → List String
unfolding line_issues token_issues
document_issues document = gather (
    validate_unique_ids (map (λ l. l.id) document.lines) (template ("lines in " ∷ document.id ∷ []))
    ∷ validate_unique_ids (map (λ t. t.id) document.tokens)
        (template ("tokens in " ∷ document.id ∷ []))
    ∷ line_issues document 0 document.lines
    ∷ token_issues document 0 document.tokens
    ∷ [])

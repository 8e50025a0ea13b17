-- ===== src/Invariants/Lyrics/Exact.antt =====
-- What `validateLyricsAlignmentInvariants` accepts.
use open_chords.Prelude.{
  ℕ, ◌≤◌, ◌<◌, String, ◌≡◌, refl, ◌↔◌, false, List, [], ◌∷◌, map, arith, eq_iff, template, ok,
}
use open_chords.Schema.{LyricsTiming, LyricsDocument, LyricsAlignment}
use open_chords.Invariants.Gather.{gather_iff, throw_issues_iff}
use open_chords.Invariants.Lyrics.{
  timing_issues, misaligned, alignment_issues, validate_lyrics_alignment,
}

-- The matched timings follow one another without overlap, are not empty, and end by the duration.
abbrev pub InSequence : ℕ → List LyricsTiming → ℕ → Type 0
InSequence cursor [] duration = Unit
InSequence cursor (LyricsTiming.unmatched reason ∷ rest) duration = InSequence cursor rest duration
InSequence cursor (LyricsTiming.matched start end assertion ∷ rest) duration =
    (cursor ≤ start) × (start < end) × (end ≤ duration) × InSequence end rest duration

pub record IsAligned (alignment : LyricsAlignment) (document : LyricsDocument) (duration : ℕ)
    : Type 0 where
  pub tokens : map (λ o. o.token_id) alignment.occurrences ≡ map (λ t. t.id) document.tokens
  pub lines : map (λ o. o.line_id) alignment.line_occurrences ≡ map (λ l. l.id) document.lines
  pub token_timings : InSequence 0 (map (λ o. o.timing) alignment.occurrences) duration
  pub line_timings : InSequence 0 (map (λ o. o.timing) alignment.line_occurrences) duration

timing_issues_iff :
    (cursor : ℕ) (timings : List LyricsTiming) (duration : ℕ) (label : String)
    → (timing_issues cursor timings duration label ≡ []) ↔ InSequence cursor timings duration
unfolding timing_issues
timing_issues_iff cursor [] duration label = ground arith
timing_issues_iff cursor (LyricsTiming.unmatched reason ∷ rest) duration label =
    timing_issues_iff cursor rest duration label
timing_issues_iff cursor (LyricsTiming.matched start end assertion ∷ rest) duration label =
    ground (arith, timing_issues_iff end rest duration label)

misaligned_iff :
    (expected actual : List String) → (misaligned expected actual ≡ false) ↔ (actual ≡ expected)
unfolding misaligned
misaligned_iff [] [] = ground arith
misaligned_iff [] (x ∷ actual) = ground arith
misaligned_iff (id ∷ expected) [] = ground arith
misaligned_iff (id ∷ expected) (x ∷ actual) =
    ground (arith, misaligned_iff expected actual, eq_iff x id)

module _ (alignment : LyricsAlignment) (document : LyricsDocument) (duration : ℕ) where
  alignment_issues_iff :
      (alignment_issues alignment document duration ≡ []) ↔ IsAligned alignment document duration
  unfolding alignment_issues
  alignment_issues_iff = (
    λ h.
        let p = (gather_iff _).0 h in
        record {
          tokens = (misaligned_iff _ _).0 (ground (arith, p.0));
          lines = (misaligned_iff _ _).0 (ground (arith, p.1.0));
          token_timings =
              (timing_issues_iff 0 (map (λ o. o.timing) alignment.occurrences) duration
                  (template (alignment.id ∷ " token" ∷ []))).0
                p.1.1.0;
          line_timings =
              (timing_issues_iff 0 (map (λ o. o.timing) alignment.line_occurrences) duration
                  (template (alignment.id ∷ " line" ∷ []))).0
                p.1.1.1.0;
        },
    λ v. (gather_iff _).1 (
      rw ((misaligned_iff _ _).1 v.tokens) refl,
      (
        rw ((misaligned_iff _ _).1 v.lines) refl,
        (
          (timing_issues_iff 0 (map (λ o. o.timing) alignment.occurrences) duration
                (template (alignment.id ∷ " token" ∷ []))).1
              v.token_timings,
          (
            (timing_issues_iff 0 (map (λ o. o.timing) alignment.line_occurrences) duration
                  (template (alignment.id ∷ " line" ∷ []))).1
                v.line_timings,
            tt,
          ),
        ),
      ),
    ),
  )

  -- The check of an alignment throws nothing exactly when its occurrences name the tokens and the
  -- lines of the document once each and in order, and the matched timings of the tokens, and those
  -- of the lines, are not empty, do not overlap, stand in order and end by the duration.
  pub validate_lyrics_alignment_iff :
      (validate_lyrics_alignment alignment document duration ≡ ok tt)
      ↔ IsAligned alignment document duration
  unfolding validate_lyrics_alignment
  validate_lyrics_alignment_iff = (
    λ h. alignment_issues_iff.0 ((throw_issues_iff _).0 h),
    λ v. (throw_issues_iff _).1 (alignment_issues_iff.1 v),
  )

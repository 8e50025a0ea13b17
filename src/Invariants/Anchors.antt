-- ===== src/Invariants/Anchors.antt =====
-- packages/domain/src/invariants.ts: `validateLyricsAnchors`. A position of a token is its index and
-- one more, with 0 for the -1 of a token that is not there.
use open_chords.Prelude.{
  ℕ, suc, String, Bool, true, not, ◌||◌, Option, none, some, List, [], ◌∷◌, map, ltb, leb, ◌===◌,
  template, length, find, keep, find_index, map_get, includes, if◌then◌else◌,
}
use open_chords.Schema.{LyricsAnchor, LyricsToken, LyricsDocument, ProjectContract}
use open_chords.Invariants.Checks.{push_if}
use open_chords.Invariants.Gather.{gather, for_each}
use open_chords.Invariants.Timeline.{to_sorted}

abbrev pub tokens_of : Option LyricsDocument → List LyricsToken
tokens_of none = []
tokens_of (some document) = document.tokens

-- `first < 0 || last < first`
abbrev pub backwards : Option ℕ → Option ℕ → Bool
backwards none last = true
backwards (some first) none = true
backwards (some first) (some last) = ltb last first

unfoldable pub positions : ℕ → List LyricsToken → List (String × ℕ)
positions next [] = []
positions next (token ∷ tokens) = (token.id, next) ∷ positions (suc next) tokens

abbrev pub or_zero : Option ℕ → ℕ
or_zero none = 0
or_zero (some n) = n

abbrev pub position : LyricsDocument → String → ℕ
position document id = or_zero (map_get id (positions 1 document.tokens))

unfoldable pub conflicts : LyricsDocument → List LyricsAnchor → List String
conflicts document [] = []
conflicts document (previous ∷ []) = []
conflicts document (previous ∷ current ∷ rest) =
    push_if
      (leb (position document current.first_token_id) (position document previous.last_token_id)
        || ltb current.start_sample previous.end_sample)
      "Lyrics Anchors conflict in token order or Project Time" (conflicts document (current ∷ rest))

unfoldable pub document_conflicts : List LyricsAnchor → LyricsDocument → List String
unfolding conflicts
document_conflicts anchors document =
    if includes document.id (map (λ a. a.lyrics_document_id) anchors)
    then conflicts document (
        to_sorted
          (λ left right.
            leb (position document left.first_token_id) (position document right.first_token_id))
          (keep (λ a. a.lyrics_document_id === document.id) anchors))
    else []

unfoldable pub scope_issues : ProjectContract → String → LyricsAnchor → List String
scope_issues project revision_id anchor =
    let tokens =
      tokens_of (find (λ d. d.id === anchor.lyrics_document_id) project.lyrics_documents) in
    push_if
      (not (anchor.analysis_revision_id === revision_id)
        || (backwards (find_index (λ t. t.id === anchor.first_token_id) tokens)
              (find_index (λ t. t.id === anchor.last_token_id) tokens)
            || (leb anchor.end_sample anchor.start_sample
                || ltb project.duration_samples anchor.end_sample)))
      (template (anchor.id ∷ " Lyrics Anchor scope or interval is invalid" ∷ [])) []

unfoldable pub anchor_issues : List LyricsAnchor → ProjectContract → String → List String
unfolding scope_issues document_conflicts
anchor_issues [] project revision_id = []
anchor_issues (anchor ∷ rest) project revision_id =
    let anchors = anchor ∷ rest in
    gather (
      push_if (ltb 1000 (length anchors)) "Lyrics Anchor limit exceeded" []
      ∷ for_each (scope_issues project revision_id) anchors
      ∷ for_each (document_conflicts anchors) project.lyrics_documents
      ∷ [])

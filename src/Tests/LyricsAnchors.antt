-- ===== src/Tests/LyricsAnchors.antt =====
-- The theorem on lyrics anchors, at the sample project.
use open_chords.Prelude.{◌≡◌, refl, true, List, All, ok}
use open_chords.Schema.{LyricsAnchor}
use open_chords.LyricsAnchors.{is_of, resolve_lyrics_anchors}
use open_chords.LyricsAnchors.Resolved.{DistinctIds, resolve_lyrics_anchors_total}
use open_chords.Tests.Projects.{project_valid, committed_valid}
use open_chords.Tests.Sample.{collate, view, project}

resolve_lyrics_anchors_total_example :
    (anchors : List LyricsAnchor) × (resolve_lyrics_anchors project ≡ ok anchors)
    × All (λ a. is_of view a ≡ true) anchors
    × DistinctIds anchors
resolve_lyrics_anchors_total_example =
    resolve_lyrics_anchors_total collate project view project_valid committed_valid refl

-- ===== src/LyricsAnchors.antt =====
-- packages/domain/src/alignment.ts: `resolveLyricsAnchors`, the anchors of the active view.
pub mod Resolved
use open_chords.Prelude.{
  String, Bool, false, ◌&&◌, Option, none, some, List, [], ◌∷◌, ◌===◌, find, keep, map_set,
  map_delete, map_values, Result, ok, ◌>>=◌,
}
use open_chords.Schema.{
  LyricsAnchor, EditOperation, EditTransaction, EditLayer, ActiveView, ProjectContract,
}
use open_chords.Projection.Chain.{history}

abbrev pub set_or_delete :
    EditOperation → List (String × LyricsAnchor) → List (String × LyricsAnchor)
set_or_delete (EditOperation.set_lyrics_anchor anchor) anchors = map_set anchor.id anchor anchors
set_or_delete (EditOperation.remove_lyrics_anchor id) anchors = map_delete id anchors
set_or_delete _ anchors = anchors

unfoldable pub after_operations :
    List EditOperation → List (String × LyricsAnchor) → List (String × LyricsAnchor)
after_operations [] anchors = anchors
after_operations (operation ∷ rest) anchors =
    after_operations rest (set_or_delete operation anchors)

unfoldable pub after_chain :
    List EditTransaction → List (String × LyricsAnchor) → List (String × LyricsAnchor)
unfolding after_operations
after_chain [] anchors = anchors
after_chain (t ∷ ts) anchors = after_chain ts (after_operations t.operations anchors)

-- `anchor.lyricsDocumentId === active.lyricsDocumentId`, where the view may have no document
abbrev pub is_document : Option String → String → Bool
is_document none id = false
is_document (some document_id) id = id === document_id

abbrev pub is_of : ActiveView → LyricsAnchor → Bool
is_of view anchor =
    is_document view.lyrics_document_id anchor.lyrics_document_id
    && anchor.analysis_revision_id === view.analysis_revision_id

unfoldable pub resolve_in : ActiveView → Option EditLayer → Result (List LyricsAnchor)
unfolding after_chain
resolve_in view none = ok []
resolve_in view (some layer) = history layer.transactions view.edit_history_position >>= λ chain.
    ok (keep (is_of view) (map_values (after_chain chain [])))

abbrev pub resolve_view : ProjectContract → Option ActiveView → Result (List LyricsAnchor)
resolve_view project none = ok []
resolve_view project (some view) =
    resolve_in view (find (λ layer. layer.id === view.edit_layer_id) project.edit_layers)

unfoldable pub resolve_lyrics_anchors : ProjectContract → Result (List LyricsAnchor)
unfolding resolve_in
resolve_lyrics_anchors project = resolve_view project project.active_view

-- ===== src/Projection/Chords/Boundary.antt =====
-- Moving the boundary of two neighbouring chords keeps the track covered exactly when neither of them
-- becomes empty.
use mathlib.Core.Path.{subst}
use open_chords.Prelude.{
  ℕ, zero, suc, ◌<◌, String, ◌≡◌, ◌≢◌, ◌↔◌, some, List, [], ◌∷◌, map, arith, ◌===◌, get_elem?,
  find_index, modify_at, ok,
}
use open_chords.Schema.{ChordEvent}
use open_chords.Invariants.Checks.Cover.{Tiles, IsCover}
use open_chords.Invariants.Timeline.{chord_interval}
use open_chords.Projection.Chords.{move_boundary}

abbrev moved : ℕ → ℕ → List ChordEvent → List ChordEvent
moved at_sample i events =
    modify_at (suc i) (λ e. record e { start_sample = at_sample })
      (modify_at i (λ e. record e { end_sample = at_sample }) events)

moved-Tiles :
    (at_sample i cursor limit : ℕ) (events : List ChordEvent) (x y : ChordEvent)
    → get_elem? events i ≡ some x
    → get_elem? events (suc i) ≡ some y
    → Tiles cursor (map chord_interval events) limit
    → Tiles cursor (map chord_interval (moved at_sample i events)) limit
      ↔ ((x.start_sample < at_sample) × (at_sample < y.end_sample))
unfolding modify_at
moved-Tiles at_sample i cursor limit [] x y ex ey t = absurd (ground arith)
moved-Tiles at_sample zero cursor limit (e ∷ []) x y ex ey t = absurd (ground arith)
moved-Tiles at_sample zero cursor limit (e ∷ f ∷ events) x y ex ey t = ground arith
moved-Tiles at_sample (suc i) cursor limit (e ∷ events) x y ex ey t =
    let ih = moved-Tiles at_sample i e.end_sample limit events x y ex ey t.2 in
    (λ h. ih.0 h.2, λ h. (t.0, t.1, ih.1 h))

moved-ne-nil :
    (at_sample i : ℕ) (events : List ChordEvent) (x : ChordEvent)
    → get_elem? events i ≡ some x
    → map chord_interval (moved at_sample i events) ≢ []
unfolding modify_at
moved-ne-nil at_sample i [] x e = absurd (ground arith)
moved-ne-nil at_sample zero (y ∷ events) x e = cc
moved-ne-nil at_sample (suc i) (y ∷ events) x e = cc

covered :
    (at_sample i duration : ℕ) (events : List ChordEvent) (x y : ChordEvent)
    → get_elem? events i ≡ some x
    → get_elem? events (suc i) ≡ some y
    → IsCover (map chord_interval events) duration
    → IsCover (map chord_interval (moved at_sample i events)) duration
      ↔ ((x.start_sample < at_sample) × (at_sample < y.end_sample))
covered at_sample i duration events x y ex ey c =
    let tiles = moved-Tiles at_sample i 0 duration events x y ex ey c.1 in
    (λ h. tiles.0 h.1, λ h. (moved-ne-nil at_sample i events x ex, tiles.1 h))

-- If an edit of a boundary names the chord of index `i` of a covered track and the one behind it, the
-- track that it gives is covered exactly when the boundary lies behind the start of the left chord
-- and before the end of the right one.
pub move_boundary-IsCover_iff :
    (events events' : List ChordEvent) (at_sample i duration : ℕ) (left right : String)
    (x y : ChordEvent)
    → move_boundary events at_sample left right ≡ ok events'
    → find_index (λ e. e.id === left) events ≡ some i
    → get_elem? events i ≡ some x
    → get_elem? events (suc i) ≡ some y
    → IsCover (map chord_interval events) duration
    → IsCover (map chord_interval events') duration
      ↔ ((x.start_sample < at_sample) × (at_sample < y.end_sample))
unfolding move_boundary
move_boundary-IsCover_iff events events' at_sample i duration left right x y h found ex ey c =
    let result : moved at_sample i events ≡ events' = ground arith in
    subst
      (λ l.
        IsCover (map chord_interval l) duration
        ↔ ((x.start_sample < at_sample) × (at_sample < y.end_sample)))
      result (covered at_sample i duration events x y ex ey c)

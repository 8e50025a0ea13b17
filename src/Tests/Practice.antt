-- ===== src/Tests/Practice.antt =====
-- The theorems on practice, at the sample project.
use open_chords.Prelude.{◌<◌, ◌≤◌, ◌≡◌, refl, ℕ, some, ok, arith, some_of, true, [], ◌∷◌}
use open_chords.Schema.{BeatRole, LoopStatus, PracticeLoop, ProjectContract}
use open_chords.Projection.Materialize.{materialize_effective_timeline}
use open_chords.Practice.{
  default_practice, Direction, StartKind, PracticeAction, nearest, find_last, practice_navigation,
  contiguous, loop_span, same_ids, anchor_changed, resolve_loop, resolve_practice_loop, with_loop,
  apply_set_loop, apply_practice_action, reconcile_active, reconcile_loop, reconcile_practice_state,
  get_practice_state,
}
use open_chords.Practice.Tempo.{practice_count_in, bar_holds}
use open_chords.Practice.Beats.{counted, practice_count_in-counted}
use open_chords.Practice.Navigation.{IsNearest, practice_navigation-IsNearest}
use open_chords.Practice.Loop.{resolve_practice_loop-holds}
use open_chords.Practice.Actions.{
  apply_practice_action-materialize, set_loop-resolves, reconcile_practice_state-resolves,
}
use open_chords.Tests.Projects.{edits, effective, materialized}
use open_chords.Tests.Sample.{collate, beat_at, second_bar, project}

practices : Unit {0}
unfolding edits nearest find_last practice_navigation contiguous loop_span same_ids anchor_changed
    resolve_loop resolve_practice_loop apply_set_loop apply_practice_action reconcile_active
    reconcile_loop reconcile_practice_state
practices = tt

abbrev whole : PracticeLoop
whole = record {
  analysis_revision_id = "revision_1";
  first_bar_id = "bar_1";
  last_bar_id = "bar_2";
  status = LoopStatus.ready;
}

abbrev looped : ProjectContract
looped = with_loop project (some whole)

practice_navigation-IsNearest_example :
    (n : ℕ) × (practice_navigation collate project 45 StartKind.chord_starts Direction.backward
      ≡ ok n)
    × IsNearest (0 ∷ 40 ∷ []) 100 45 Direction.backward n
practice_navigation-IsNearest_example =
    practice_navigation-IsNearest collate project effective 45 StartKind.chord_starts
      Direction.backward materialized

resolve_practice_loop-holds_example : some_of (bar_holds 60) effective.timeline.bars ≡ true
unfolding practices
resolve_practice_loop-holds_example =
    resolve_practice_loop-holds collate looped effective 0 100 60 refl refl (omega arith)
      (omega arith)

apply_practice_action-materialize_example :
    materialize_effective_timeline collate looped ≡ materialize_effective_timeline collate project
unfolding practices
apply_practice_action-materialize_example =
    apply_practice_action-materialize collate project looped
      (PracticeAction.set_loop "bar_1" "bar_2") refl

set_loop-resolves_example :
    (loop : PracticeLoop) × ((get_practice_state looped).loop ≡ some loop)
    × (loop.first_bar_id ≡ "bar_1")
    × (loop.last_bar_id ≡ "bar_2")
    × (span : ℕ × ℕ) × (resolve_practice_loop collate looped ≡ ok (some span))
unfolding practices
set_loop-resolves_example = set_loop-resolves collate project looped "bar_1" "bar_2" refl

reconcile_practice_state-resolves_example :
    (span : ℕ × ℕ) × (resolve_practice_loop collate looped ≡ ok (some span))
unfolding practices
reconcile_practice_state-resolves_example =
    reconcile_practice_state-resolves collate project looped looped whole refl refl refl

abbrev counting : ProjectContract
counting = record project { practice = some (record default_practice { count_in_bars = 2 }) }

practice_count_in-counted_example :
    (gap : ℕ) × (practice_count_in collate counting 60
      ≡ ok (some (counted counting second_bar gap)))
    × (0 < gap)
    × (gap ≤ 50)
unfolding practices
practice_count_in-counted_example =
    practice_count_in-counted collate counting effective 60 second_bar
      (beat_at 50 "beat_3" BeatRole.downbeat) (beat_at 75 "beat_4" BeatRole.beat ∷ []) refl refl
      refl refl

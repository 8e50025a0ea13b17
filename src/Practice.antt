-- ===== src/Practice.antt =====
-- packages/domain/src/practice.ts: the loop, the settings and the navigation of practice. A change
-- of a cloned project is the changed project.
pub mod Tempo
pub mod Navigation
pub mod Loop
pub mod Actions
pub mod Beats
use open_chords.Prelude.{
  ℕ, zero, suc, ◌+◌, ◌-◌, ◌*◌, ◌/◌, String, Bool, true, false, not, ◌&&◌, ◌||◌, Option, none, some,
  List, [], ◌∷◌, map, ltb, leb, ◌==◌, ◌===◌, length, get_elem?, drop, find, find_index, keep,
  Result, ok, err, error, ◌>>=◌, if◌then◌else◌,
}
use open_chords.Prelude.Int.{ℤ}
use open_chords.Schema.{
  Beat, Bar, ChordEvent, MusicalTimeline, Fraction, Instrument, LoopStatus, PracticeLoop,
  PracticeState, EnharmonicPreference, Presentation, ActiveView, ProjectContract,
}
use open_chords.Invariants.Timeline.{to_sorted}
use open_chords.Projection.Materialize.{EffectiveTimeline, materialize_effective_timeline}

-- The action `settings`: each setting may be left out.
pub record Settings : Type 0 where
  pub speed : Option Fraction
  pub count_in_bars : Option ℕ
  pub metronome : Option Bool
  pub autoscroll : Option Bool
  pub instrument : Option Instrument
  pub beginner_view : Option Bool
  pub enharmonic_preference : Option EnharmonicPreference
  pub transpose_semitones : Option ℤ

pub data PracticeAction : Type 0 where
  set_loop : (first_bar_id last_bar_id : String) → PracticeAction
  clear_loop : PracticeAction
  settings : Settings → PracticeAction

abbrev pub or_else {ℓ} : {A : Type ℓ} → Option A → A → A
or_else none a = a
or_else (some a) b = a

abbrev pub default_practice : PracticeState
default_practice = record {
  loop = none;
  speed = record { numerator = 1; denominator = 1 };
  count_in_bars = 0;
  metronome = false;
  autoscroll = true;
  instrument = Instrument.guitar;
}

abbrev pub get_practice_state : ProjectContract → PracticeState
get_practice_state project = or_else project.practice default_practice

abbrev pub is_ready : LoopStatus → Bool
is_ready LoopStatus.ready = true
is_ready LoopStatus.needs_review = false

-- `project.activeView?.analysisRevisionId === id`
abbrev pub views : Option ActiveView → String → Bool
views none id = false
views (some view) id = view.analysis_revision_id === id

-- The rounds of the loop from the bar in front: each bar ends where the next one starts.
unfoldable pub contiguous : ℕ → List Bar → Bool
contiguous zero bars = true
contiguous (suc n) [] = true
contiguous (suc n) (bar ∷ []) = true
contiguous (suc n) (bar ∷ next ∷ bars) =
    (bar.end_sample == next.start_sample) && contiguous n (next ∷ bars)

abbrev pub span_between : Option Bar → Option Bar → Option (ℕ × ℕ)
span_between (some first) (some last) = some (first.start_sample, last.end_sample)
span_between _ _ = none

abbrev pub span_at : List Bar → Option ℕ → Option ℕ → Option (ℕ × ℕ)
span_at bars (some first) (some last) =
    if ltb last first || not (contiguous (last - first) (drop first bars))
    then none
    else span_between (get_elem? bars first) (get_elem? bars last)
span_at bars _ _ = none

unfoldable pub loop_span : List Bar → PracticeLoop → Option (ℕ × ℕ)
loop_span bars loop =
    span_at bars (find_index (λ bar. bar.id === loop.first_bar_id) bars)
      (find_index (λ bar. bar.id === loop.last_bar_id) bars)

abbrev pub is_active : ProjectContract → PracticeLoop → Bool
is_active project loop = is_ready loop.status && views project.active_view loop.analysis_revision_id

abbrev pub set_presentation : Settings → Presentation → Presentation
set_presentation s p = record {
  beginner_view = or_else s.beginner_view p.beginner_view;
  enharmonic_preference = or_else s.enharmonic_preference p.enharmonic_preference;
  transpose_semitones = or_else s.transpose_semitones p.transpose_semitones;
}

abbrev pub set_view : Settings → Option ActiveView → Option ActiveView
set_view s none = none
set_view s (some view) = some (record view { presentation = set_presentation s view.presentation })

-- `Object.assign(practice, settings)`
abbrev pub assign : PracticeState → Settings → PracticeState
assign practice s = record {
  loop = practice.loop;
  speed = or_else s.speed practice.speed;
  count_in_bars = or_else s.count_in_bars practice.count_in_bars;
  metronome = or_else s.metronome practice.metronome;
  autoscroll = or_else s.autoscroll practice.autoscroll;
  instrument = or_else s.instrument practice.instrument;
}

abbrev pub with_loop : ProjectContract → Option PracticeLoop → ProjectContract
with_loop project loop = record project {
  practice = some (record (get_practice_state project) { loop = loop });
}

abbrev pub ready_loop : ActiveView → String → String → PracticeLoop
ready_loop view first last = record {
  analysis_revision_id = view.analysis_revision_id;
  first_bar_id = first;
  last_bar_id = last;
  status = LoopStatus.ready;
}

abbrev pub needing_review : PracticeLoop → PracticeLoop
needing_review loop = record loop { status = LoopStatus.needs_review }

-- The ids in order; the code joins them with `|`, which no id contains.
unfoldable pub same_ids : List Bar → List Bar → Bool
same_ids [] [] = true
same_ids [] (b ∷ bs) = false
same_ids (a ∷ as') [] = false
same_ids (a ∷ as') (b ∷ bs) = a.id === b.id && same_ids as' bs

abbrev pub moved : Option Bar → Option Bar → Bool
moved (some old) (some next) =
    not (old.start_sample == next.start_sample) || not (old.end_sample == next.end_sample)
moved _ _ = true

unfoldable pub anchor_changed : List Bar → List Bar → String → Bool
anchor_changed old_bars new_bars id =
    moved (find (λ bar. bar.id === id) old_bars) (find (λ bar. bar.id === id) new_bars)

abbrev pub loop_changed : List Bar → List Bar → PracticeLoop → Bool
loop_changed old_bars new_bars loop =
    not (same_ids old_bars new_bars)
    && (anchor_changed old_bars new_bars loop.first_bar_id
        || anchor_changed old_bars new_bars loop.last_bar_id)

abbrev pub is_none {ℓ} : {A : Type ℓ} → Option A → Bool
is_none none = true
is_none (some a) = false

pub data Direction : Type 0 where
  backward forward : Direction

pub data StartKind : Type 0 where
  chord_starts bar_starts : StartKind

abbrev pub starts_of : StartKind → MusicalTimeline → List ℕ
starts_of StartKind.bar_starts t = map (λ bar. bar.start_sample) t.bars
starts_of StartKind.chord_starts t = map (λ event. event.start_sample) t.chord_events

-- `samples.findLast(test)`
unfoldable pub find_last : (ℕ → Bool) → List ℕ → Option ℕ
find_last test [] = none
find_last test (x ∷ xs) = elim (find_last test xs) [
  | some later ↦ some later
  | none ↦ if test x then some x else none
]

unfoldable pub nearest : List ℕ → ℕ → ℕ → Direction → ℕ
unfolding find_last
nearest starts duration position Direction.backward =
    or_else (find_last (λ s. ltb s position) starts) 0
nearest starts duration position Direction.forward =
    or_else (find (λ s. ltb position s) starts) duration

module _ (collate : String → String → Bool) where
  unfoldable pub resolve_loop : ProjectContract → Option PracticeLoop → Result (Option (ℕ × ℕ))
  resolve_loop project none = ok none
  resolve_loop project (some loop) =
      if is_active project loop
      then (materialize_effective_timeline collate project >>= λ e.
          ok (loop_span e.timeline.bars loop))
      else ok none

  unfoldable pub resolve_practice_loop : ProjectContract → Result (Option (ℕ × ℕ))
  unfolding resolve_loop
  resolve_practice_loop project = resolve_loop project (get_practice_state project).loop

  unfoldable pub apply_set_loop :
      ProjectContract → String → String → Option ActiveView → Result ProjectContract
  apply_set_loop project first last none = err (error "An active Analysis Revision is required")
  apply_set_loop project first last (some view) =
      let changed = with_loop project (some (ready_loop view first last)) in
      resolve_practice_loop changed >>= λ span.
      if is_none span then err (error "Loop must cover contiguous active Bars") else ok changed

  unfoldable pub apply_practice_action : ProjectContract → PracticeAction → Result ProjectContract
  unfolding apply_set_loop
  apply_practice_action project PracticeAction.clear_loop = ok (with_loop project none)
  apply_practice_action project (PracticeAction.settings s) = ok (record project {
    active_view = set_view s project.active_view;
    practice = some (assign (get_practice_state project) s);
  })
  apply_practice_action project (PracticeAction.set_loop first last) =
      apply_set_loop project first last project.active_view

  -- A loop that is ready and of the active revision, in a project that had an active view before.
  unfoldable pub reconcile_active :
      ProjectContract → ProjectContract → PracticeLoop → Result ProjectContract
  reconcile_active before project loop = materialize_effective_timeline collate before >>= λ old.
      materialize_effective_timeline collate project >>= λ new.
      if loop_changed old.timeline.bars new.timeline.bars loop
      then ok (with_loop project (some (needing_review loop)))
      else (resolve_practice_loop project >>= λ span.
          ok (if is_none span then with_loop project (some (needing_review loop)) else project))

  unfoldable pub reconcile_loop :
      ProjectContract → ProjectContract → Option PracticeLoop → Result ProjectContract
  unfolding reconcile_active
  reconcile_loop before project none = ok project
  reconcile_loop before project (some loop) =
      if not (is_ready loop.status)
      then ok project
      else if not (views project.active_view loop.analysis_revision_id)
          || is_none before.active_view
      then ok (with_loop project (some (needing_review loop)))
      else reconcile_active before project loop

  unfoldable pub reconcile_practice_state :
      ProjectContract → ProjectContract → Result ProjectContract
  unfolding reconcile_loop
  reconcile_practice_state before project =
      reconcile_loop before project (get_practice_state project).loop

  unfoldable pub practice_navigation : ProjectContract → ℕ → StartKind → Direction → Result ℕ
  unfolding nearest
  practice_navigation project position kind direction =
      if is_none project.active_view
      then ok (nearest [] project.duration_samples position direction)
      else (materialize_effective_timeline collate project >>= λ e.
          ok (nearest (starts_of kind e.timeline) project.duration_samples position direction))

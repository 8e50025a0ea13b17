-- ===== src/Practice/Loop.antt =====
-- A loop that resolves is a run of bars without a gap.
use open_chords.Prelude.{
  ℕ, zero, suc, ◌+◌, ◌-◌, ◌≤◌, ◌<◌, ◌≡◌, refl, inl, inr, String, Bool, true, not, ◌||◌, Option,
  none, some, List, [], ◌∷◌, ltb, ◌===◌, get_elem?, drop, some_of, find_index, arith, Bool-cases,
  ok, ap, ◌∙◌,
}
use open_chords.Schema.{Bar, PracticeLoop, ProjectContract}
use open_chords.Projection.Materialize.{EffectiveTimeline, materialize_effective_timeline}
use open_chords.Practice.{
  get_practice_state, is_active, contiguous, span_between, span_at, loop_span, resolve_loop,
  resolve_practice_loop,
}
use open_chords.Practice.Tempo.{bar_holds}

-- A run of bars, each of which ends where the next starts, holds every sample from the start of the
-- first to the end of the last.
run_holds :
    (n : ℕ) (bars : List Bar) (first last : Bar) (s : ℕ)
    → contiguous n bars ≡ true
    → get_elem? bars 0 ≡ some first
    → get_elem? bars n ≡ some last
    → first.start_sample ≤ s
    → s < last.end_sample
    → some_of (bar_holds s) bars ≡ true
unfolding contiguous some_of
run_holds zero [] first last s c a b l r = cc
run_holds zero (bar ∷ bars) first last s c a b l r =
    let e : bar ≡ first = cc in
    let e' : bar ≡ last = cc in
    let starts : bar.start_sample ≡ first.start_sample = ap (λ b. b.start_sample) e in
    let ends : bar.end_sample ≡ last.end_sample = ap (λ b. b.end_sample) e' in ground arith
run_holds (suc n) [] first last s c a b l r = cc
run_holds (suc n) (bar ∷ []) first last s c a b l r = cc
run_holds (suc n) (bar ∷ next ∷ bars) first last s c a b l r =
    let e : bar ≡ first = cc in
    let starts : bar.start_sample ≡ first.start_sample = ap (λ b. b.start_sample) e in
    let c' : contiguous n (next ∷ bars) ≡ true = ground arith in
    elim (Bool-cases (ltb s bar.end_sample)) [
      | inl here ↦ ground arith
      | inr there ↦
          let later = run_holds n (next ∷ bars) next last s c' refl b (ground arith) r in
          ground arith
    ]

some_of-drop :
    (test : Bar → Bool) (n : ℕ) (bars : List Bar)
    → some_of test (drop n bars) ≡ true
    → some_of test bars ≡ true
unfolding some_of
some_of-drop test zero bars h = h
some_of-drop test (suc n) [] h = h
some_of-drop test (suc n) (bar ∷ bars) h = ground (arith, some_of-drop test n bars h)

get_elem?-drop :
    (n k m : ℕ) (bars : List Bar) → n + k ≡ m → get_elem? (drop n bars) k ≡ get_elem? bars m
get_elem?-drop zero k m bars h = ap (get_elem? bars) (omega (arith, h))
get_elem?-drop (suc n) k zero bars h = absurd (omega (arith, h))
get_elem?-drop (suc n) k (suc m) [] h = refl
get_elem?-drop (suc n) k (suc m) (bar ∷ bars) h = get_elem?-drop n k m bars (omega (arith, h))

between_holds :
    (bars : List Bar) (i j : ℕ) (first last : Option Bar) (start_sample end_sample s : ℕ)
    → get_elem? bars i ≡ first
    → get_elem? bars j ≡ last
    → i ≤ j
    → contiguous (j - i) (drop i bars) ≡ true
    → span_between first last ≡ some (start_sample, end_sample)
    → start_sample ≤ s
    → s < end_sample
    → some_of (bar_holds s) bars ≡ true
between_holds bars i j none last start_sample end_sample s a b o c h l r = cc
between_holds bars i j (some first) none start_sample end_sample s a b o c h l r = cc
between_holds bars i j (some first) (some last) start_sample end_sample s a b o c h l r =
    let starts : first.start_sample ≡ start_sample = cc in
    let ends : last.end_sample ≡ end_sample = cc in
    some_of-drop (bar_holds s) i bars (
      run_holds (j - i) (drop i bars) first last s c (get_elem?-drop i 0 i bars (omega arith) ∙ a)
        (get_elem?-drop i (j - i) j bars (omega arith) ∙ b) (omega (arith, starts))
        (omega (arith, ends)))

span_holds :
    (bars : List Bar) (first last : Option ℕ) (start_sample end_sample s : ℕ)
    → span_at bars first last ≡ some (start_sample, end_sample)
    → start_sample ≤ s
    → s < end_sample
    → some_of (bar_holds s) bars ≡ true
span_holds bars none last start_sample end_sample s h l r = cc
span_holds bars (some i) none start_sample end_sample s h l r = cc
span_holds bars (some i) (some j) start_sample end_sample s h l r =
    elim (Bool-cases (ltb j i || not (contiguous (j - i) (drop i bars)))) [
      | inl refused ↦ absurd (ground arith)
      | inr taken ↦
          let order : i ≤ j = ground arith in
          let run : contiguous (j - i) (drop i bars) ≡ true = ground arith in
          let found : span_between (get_elem? bars i) (get_elem? bars j)
              ≡ some (start_sample, end_sample) =
            rw taken at h in
          between_holds bars i j _ _ start_sample end_sample s refl refl order run found l r
    ]

module _ (collate : String → String → Bool) (project : ProjectContract)
    (e : EffectiveTimeline) where
  resolve_loop-holds :
      (loop : Option PracticeLoop) (start_sample end_sample s : ℕ)
      → materialize_effective_timeline collate project ≡ ok e
      → resolve_loop collate project loop ≡ ok (some (start_sample, end_sample))
      → start_sample ≤ s
      → s < end_sample
      → some_of (bar_holds s) e.timeline.bars ≡ true
  unfolding resolve_loop loop_span
  resolve_loop-holds none start_sample end_sample s m h l r = cc
  resolve_loop-holds (some loop) start_sample end_sample s m h l r =
      elim (Bool-cases (is_active project loop)) [
        | inl active ↦
            let spanned : ok (loop_span e.timeline.bars loop)
                ≡ ok (some (start_sample, end_sample)) =
              rw m at (rw active at h) in
            let found : loop_span e.timeline.bars loop ≡ some (start_sample, end_sample) = cc in
            span_holds e.timeline.bars
              (find_index (λ bar. bar.id === loop.first_bar_id) e.timeline.bars)
              (find_index (λ bar. bar.id === loop.last_bar_id) e.timeline.bars) start_sample
              end_sample s found l r
        | inr passive ↦ absurd (ground arith)
      ]

  -- In a project that materializes, the bars of the effective timeline leave no gap in a practice loop
  -- that resolves: every sample from its start up to its end lies in a bar.
  pub resolve_practice_loop-holds :
      (start_sample end_sample s : ℕ)
      → materialize_effective_timeline collate project ≡ ok e
      → resolve_practice_loop collate project ≡ ok (some (start_sample, end_sample))
      → start_sample ≤ s
      → s < end_sample
      → some_of (bar_holds s) e.timeline.bars ≡ true
  unfolding resolve_practice_loop
  resolve_practice_loop-holds = resolve_loop-holds (get_practice_state project).loop

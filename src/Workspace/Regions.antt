-- ===== src/Workspace/Regions.antt =====
-- The regions of the workspace divide the range of the project.
use open_chords.Prelude.{
  ℕ, ◌+◌, ◌<◌, ◌≡◌, refl, ap, sym, ◌∙◌, inl, inr, String, Bool, ◌&&◌, Option, none, some, List, [],
  ◌∷◌, ◌++◌, map, arith, ltb, leb, Bool-cases, ok, >>=-eq-ok, if◌then◌else◌,
}
use open_chords.Schema.{MusicalTimeline, Presentation, ActiveView, ProjectContract}
use open_chords.Invariants.Checks.{Interval}
use open_chords.Invariants.Checks.Cover.{holds, times_held, IsCover-times_held}
use open_chords.Invariants.Timeline.{
  bar_interval, unmetered_interval, precedes, insert_by, to_sorted, metered_track,
}
use open_chords.Projection.Materialize.{materialize_effective_timeline}
use open_chords.Projection.Materialize.Valid.{materialize-IsTimeline}
use open_chords.Workspace.{
  WorkspaceTimelineRegion, WorkspaceTimeline, region_of_bar, region_of_unmetered, starts_first,
  with_labels, regions_of, timeline_of, unanalyzed, build_view, build_workspace_timeline,
}

-- How many items of a list pass a test.
unfoldable pub count : {A : Type 0} → (A → Bool) → List A → ℕ
count test [] = 0
count test (x ∷ xs) = (if test x then 1 else 0) + count test xs

count-append :
    {A : Type 0} (test : A → Bool) (xs ys : List A)
    → count test (xs ++ ys) ≡ count test xs + count test ys
unfolding count
count-append test [] ys = omega arith
count-append test (x ∷ xs) ys = omega (arith, count-append test xs ys)

count-map :
    {A B : Type 0} (test : B → Bool) (f : A → B) (xs : List A)
    → count test (map f xs) ≡ count (λ x. test (f x)) xs
unfolding count
count-map test f [] = refl
count-map test f (x ∷ xs) = ap (λ n. (if test (f x) then 1 else 0) + n) (count-map test f xs)

count-insert_by :
    {A : Type 0} (test : A → Bool) (first : A → A → Bool) (x : A) (xs : List A)
    → count test (insert_by first x xs) ≡ count test (x ∷ xs)
unfolding count insert_by
count-insert_by test first x [] = refl
count-insert_by test first x (y ∷ ys) = elim (Bool-cases (first x y)) [
  | inl before ↦ rw before refl
  | inr after ↦ rw after (omega (arith, count-insert_by test first x ys))
]

count-to_sorted :
    {A : Type 0} (test : A → Bool) (first : A → A → Bool) (xs : List A)
    → count test (to_sorted first xs) ≡ count test xs
unfolding count to_sorted
count-to_sorted test first [] = refl
count-to_sorted test first (x ∷ xs) =
    count-insert_by test first x (to_sorted first xs)
    ∙ ap (λ n. (if test x then 1 else 0) + n) (count-to_sorted test first xs)

times_held-count :
    (track : List Interval) (s : ℕ) → times_held track s ≡ count (λ i. holds i s) track
unfolding count
times_held-count [] s = refl
times_held-count (i ∷ track) s =
    ap (λ n. (if holds i s then 1 else 0) + n) (times_held-count track s)

abbrev pub region_holds : ℕ → WorkspaceTimelineRegion → Bool
region_holds s region = leb region.start_sample s && ltb s region.end_sample

count-regions_of :
    (collate : String → String → Bool) (p : Presentation) (t : MusicalTimeline) (s : ℕ)
    → count (region_holds s) (regions_of p t) ≡ times_held (metered_track collate t) s
unfolding regions_of metered_track with_labels region_of_bar region_of_unmetered
count-regions_of collate p t s =
    let bars : ℕ = count (λ b. holds (bar_interval b) s) t.bars in
    let rest : ℕ = count (λ u. holds (unmetered_interval u) s) t.unmetered_regions in
    let shown : count (region_holds s) (regions_of p t) ≡ bars + rest =
      count-map (region_holds s) (with_labels p t.chord_events) _
      ∙ count-to_sorted (region_holds s) starts_first
          (map region_of_bar t.bars ++ map region_of_unmetered t.unmetered_regions)
      ∙ count-append (region_holds s) (map region_of_bar t.bars)
          (map region_of_unmetered t.unmetered_regions)
      ∙ ap (λ n. n + count (region_holds s) (map region_of_unmetered t.unmetered_regions))
          (count-map (region_holds s) region_of_bar t.bars)
      ∙ ap (λ n. bars + n) (count-map (region_holds s) region_of_unmetered t.unmetered_regions) in
    let track : times_held (metered_track collate t) s ≡ bars + rest =
      times_held-count _ s
      ∙ count-to_sorted (λ i. holds i s) (precedes collate)
          (map bar_interval t.bars ++ map unmetered_interval t.unmetered_regions)
      ∙ count-append (λ i. holds i s) (map bar_interval t.bars)
          (map unmetered_interval t.unmetered_regions)
      ∙ ap (λ n. n + count (λ i. holds i s) (map unmetered_interval t.unmetered_regions))
          (count-map (λ i. holds i s) bar_interval t.bars)
      ∙ ap (λ n. bars + n) (count-map (λ i. holds i s) unmetered_interval t.unmetered_regions) in
    shown ∙ sym track

module _ (collate : String → String → Bool) (project : ProjectContract)
    (w : WorkspaceTimeline) where
  view_regions :
      (view : Option ActiveView) (s : ℕ)
      → build_view collate project view ≡ ok w
      → s < project.duration_samples
      → count (region_holds s) w.regions ≡ 1
  unfolding build_view unanalyzed timeline_of count
  view_regions none s h l =
      let e : unanalyzed project ≡ w = cc in
      ap (λ w. count (region_holds s) w.regions) (sym e) ∙ ground arith
  view_regions (some view) s h l =
      let (e, m, built) = >>=-eq-ok (materialize_effective_timeline collate project) _ h in
      let same : timeline_of project.duration_samples view.presentation e.timeline ≡ w = cc in
      ap (λ w. count (region_holds s) w.regions) (sym same)
      ∙ count-regions_of collate view.presentation e.timeline s
      ∙ IsCover-times_held _ project.duration_samples s
          (materialize-IsTimeline collate project e m).metered l

  -- Where the timeline of the workspace is built, with or without an active view, every sample before
  -- the end of the project lies in exactly one of its regions.
  pub build_workspace_timeline-regions :
      (s : ℕ)
      → build_workspace_timeline collate project ≡ ok w
      → s < project.duration_samples
      → count (region_holds s) w.regions ≡ 1
  unfolding build_workspace_timeline
  build_workspace_timeline-regions = view_regions project.active_view

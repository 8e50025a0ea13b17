-- ===== src/Parsing.antt =====
-- packages/domain/src/index.ts: `parseProjectContract`, of a project that zod has parsed. The schema
-- demands a version of digits, a dot and digits.
use open_chords.Prelude.{
  both_ok, ℕ, ◌+◌, ◌-◌, ◌*◌, String, ◌≡◌, ◌↔◌, ◌⊎◌, inl, inr, refl, Bool, true, false, not, Option,
  none, some, List, [], ◌∷◌, units, ◌==◌, arith, Result, err, ok, ◌>>=◌, ◌>>◌, throw_if,
  if◌then◌else◌, template, decimal, Bool-cases,
}
use open_chords.Schema.{ActiveView, PracticeLoop, PracticeState, ProjectContract}
use open_chords.Invariants.Project.{validate_project_invariants}
use open_chords.Projection.Materialize.{materialize_effective_timeline}
use open_chords.Projection.Committed.{validate_committed_edit_layer_projections}
use open_chords.Projection.Committed.Total.{materialize_total}
use open_chords.Practice.{is_none, is_ready, resolve_practice_loop}

-- `Number` of the digits before the dot
unfoldable pub major_version : ℕ → List ℕ → ℕ
major_version value [] = value
major_version value (unit ∷ rest) =
    let next = major_version (value * 10 + (unit - 48)) rest in if unit == 46 then value else next

-- `project.practice?.loop?.status === "ready"`
abbrev pub loop_is_ready : Option PracticeLoop → Bool
loop_is_ready none = false
loop_is_ready (some loop) = is_ready loop.status

abbrev pub practice_is_ready : Option PracticeState → Bool
practice_is_ready none = false
practice_is_ready (some practice) = loop_is_ready practice.loop

module _ (collate : String → String → Bool) (project : ProjectContract) where
  abbrev pub check_view : Option ActiveView → Result (Unit {0})
  check_view none = ok tt
  check_view (some view) = materialize_effective_timeline collate project >>= λ e. ok tt

  abbrev pub check_loop : Bool → Result (Unit {0})
  check_loop false = ok tt
  check_loop true = resolve_practice_loop collate project >>= λ span.
      throw_if (is_none span) "Ready practice loop must reference contiguous active Bars"

  unfoldable pub parse_project_contract : Result (Unit {0})
  unfolding major_version
  parse_project_contract = do
    throw_if (not (major_version 0 (units project.schema_version) == 1)) (
        template (
          "Unsupported Project contract major version "
          ∷ decimal (major_version 0 (units project.schema_version))
          ∷ []))
    validate_project_invariants project collate
    validate_committed_edit_layer_projections collate project
    check_view project.active_view
    check_loop (practice_is_ready project.practice)

version_ok : (n : ℕ) (message : String) → throw_if (not (n == 1)) message ≡ ok tt → n ≡ 1
version_ok n message h = elim (Bool-cases (n == 1)) [
  | inl same ↦ ground arith
  | inr other ↦ let k = rw other at h in cc
]

span_iff :
    (message : String) (found : Result (Option (ℕ × ℕ)))
    → ((found >>= λ span. throw_if (is_none span) message) ≡ ok tt)
      ↔ ((span : ℕ × ℕ) × (found ≡ ok (some span)))
span_iff message (err thrown) = (λ h. cc, λ (span, h). cc)
span_iff message (ok none) = (λ h. cc, λ (span, h). cc)
span_iff message (ok (some span)) = (λ h. (span, refl), λ h. refl)

module _ (collate : String → String → Bool) (project : ProjectContract) where
  check_view_total :
      (view : Option ActiveView)
      → project.active_view ≡ view
      → validate_project_invariants project collate ≡ ok tt
      → validate_committed_edit_layer_projections collate project ≡ ok tt
      → check_view collate project view ≡ ok tt
  check_view_total none e checked committed = refl
  check_view_total (some view) e checked committed =
      let (effective, done) = materialize_total collate project view checked committed e in
      rw done refl

  check_loop_iff :
      (ready : Bool)
      → (check_loop collate project ready ≡ ok tt) ↔ (
          (ready ≡ false)
          ⊎ ((span : ℕ × ℕ) × (resolve_practice_loop collate project ≡ ok (some span))))
  check_loop_iff false = (λ h. inl refl, λ h. refl)
  check_loop_iff true =
      let spans = span_iff _ (resolve_practice_loop collate project) in
      (
        λ h. inr (spans.0 h),
        λ h. elim h [ inl waits ↦ absurd (ground arith) | inr found ↦ spans.1 found ],
      )

  -- `parseProjectContract` accepts a project just where its version is 1, its invariants hold, its
  -- edit layers commit, and its practice loop, where it is marked as ready, resolves to a span. The
  -- call that materializes the active view never throws after the two checks before it.
  pub parse_project_contract_iff : (parse_project_contract collate project ≡ ok tt) ↔ (
      (major_version 0 (units project.schema_version) ≡ 1)
      × (validate_project_invariants project collate ≡ ok tt)
      × (validate_committed_edit_layer_projections collate project ≡ ok tt)
      × ((practice_is_ready project.practice ≡ false)
          ⊎ ((span : ℕ × ℕ) × (resolve_practice_loop collate project ≡ ok (some span)))))
  unfolding parse_project_contract
  parse_project_contract_iff = (
    λ h.
        let (version, h) = both_ok _ _ h in
        let (checked, h) = both_ok _ _ h in
        let (committed, h) = both_ok _ _ h in
        let (viewed, looped) = both_ok _ _ h in
        (
          version_ok _ _ version,
          checked,
          committed,
          (check_loop_iff (practice_is_ready project.practice)).0 looped,
        ),
    λ (version, checked, committed, loop).
        rw
          (version, checked, committed, check_view_total project.active_view refl checked committed)
          ((check_loop_iff (practice_is_ready project.practice)).1 loop),
  )

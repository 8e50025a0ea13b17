-- ===== src/Invariants/Gather.antt =====
-- packages/domain/src/invariants.ts: issues that several checks push one after another, and the
-- error that they end in.
use open_chords.Prelude.{
  String, ◌≡◌, refl, ◌↔◌, List, [], ◌∷◌, ◌++◌, arith, Result, ok, err, invariants, All,
}

unfoldable pub gather : List (List String) → List String
gather [] = []
gather (issues ∷ rest) = issues ++ gather rest

-- `for (const item of items) …`, with the issues that the body pushes.
unfoldable pub for_each {ℓ} : {A : Type ℓ} → (A → List String) → List A → List String
for_each check [] = []
for_each check (x ∷ xs) = check x ++ for_each check xs

-- `if (issues.length > 0) throw new DomainInvariantError(issues)`
abbrev pub throw_issues : List String → Result (Unit {0})
throw_issues [] = ok tt
throw_issues (issue ∷ issues) = err (invariants (issue ∷ issues))

pub append-nil_iff : (xs ys : List String) → (xs ++ ys ≡ []) ↔ ((xs ≡ []) × (ys ≡ []))
append-nil_iff [] ys = (λ h. (refl, h), λ h. h.1)
append-nil_iff (x ∷ xs) ys = (λ h. cc, λ h. cc (h.0))

pub gather_iff : (ls : List (List String)) → (gather ls ≡ []) ↔ All (λ l. l ≡ []) ls
unfolding gather
gather_iff [] = (λ _. tt, λ _. refl)
gather_iff (l ∷ ls) = (
  λ h. let (a, b) = (append-nil_iff l (gather ls)).0 h in (a, (gather_iff ls).0 b),
  λ h. (append-nil_iff l (gather ls)).1 (h.0, (gather_iff ls).1 h.1),
)

module _ {ℓ κ} {A : Type ℓ} (P : A → Type κ) (check : A → List String) where
  pub for_each_iff :
      ((x : A) → (check x ≡ []) ↔ P x) → (xs : List A) → (for_each check xs ≡ []) ↔ All P xs
  unfolding for_each
  for_each_iff exact [] = (λ _. tt, λ _. refl)
  for_each_iff exact (x ∷ xs) = (
    λ h.
        let (a, b) = (append-nil_iff (check x) (for_each check xs)).0 h in
        ((exact x).0 a, (for_each_iff exact xs).0 b),
    λ h.
        (append-nil_iff (check x) (for_each check xs)).1
          ((exact x).1 h.0, (for_each_iff exact xs).1 h.1),
  )

pub throw_issues_iff : (issues : List String) → (throw_issues issues ≡ ok tt) ↔ (issues ≡ [])
throw_issues_iff [] = ground arith
throw_issues_iff (issue ∷ issues) = ground arith

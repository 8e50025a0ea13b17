-- ===== src/Projection/Committed/Reached.antt =====
-- A committed history has a projection for each of its transactions: the operations of the route to
-- it, applied to what the layer starts from.
use mathlib.Core.Path.{subst}
use native.Mathlib.Nat.{le_trans}
use open_chords.Prelude.{
  ℕ, zero, suc, ◌+◌, ◌≤◌, String, ◌≡◌, refl, ap, ◌∙◌, Bool, Option, some, List, [], ◌∷◌, ◌++◌, map,
  arith, eq_iff, ◌===◌, Bool-cases, Option-cases, Result-cases, inl, inr, length, length-append,
  get_elem?, lookup, map_get, ok, >>=-eq-ok,
}
use open_chords.Schema.{EditTransaction, ProjectContract}
use open_chords.Invariants.Timeline.{validate_timeline_invariants}
use open_chords.Projection.Apply.{ProjectionState, apply_operations, apply_transactions}
use open_chords.Projection.Chain.{by_id}
use open_chords.Projection.Chain.Route.{Route, root, step}
use open_chords.Invariants.Checks.Ids.{AllDistinct}
use open_chords.Projection.Lookup.{map_get_of_get_elem?}
use open_chords.Projection.Committed.{
  CommittedState, commit_operations, parent_state, validate_alignments, commit_transaction,
  commit_transactions,
}
use open_chords.Projection.Committed.Agree.{seen, commit_operations-seen}

apply_transactions-nil : (s : ProjectionState) → apply_transactions s [] ≡ ok s
unfolding apply_transactions
apply_transactions-nil s = refl

apply_transactions-concat :
    (s m n : ProjectionState) (chain : List EditTransaction) (t : EditTransaction)
    → apply_transactions s chain ≡ ok m
    → apply_operations m t.operations ≡ ok n
    → apply_transactions s (chain ++ (t ∷ [])) ≡ ok n
unfolding apply_transactions
apply_transactions-concat s m n [] t h k = ground arith
apply_transactions-concat s m n (u ∷ chain) t h k =
    let (mid, first, later) = >>=-eq-ok (apply_operations s u.operations) _ h in
    rw first (apply_transactions-concat mid m n chain t later k)

module _ (collate : String → String → Bool) (project : ProjectContract) (a : Option String)
    (initial : CommittedState) (all : List EditTransaction) where
  -- The projection `c` of the transaction `t`, with a route of at most `n` transactions.
  pub record Reached (n : ℕ) (t : EditTransaction) (c : CommittedState) : Type 0 where
    pub chain : List EditTransaction
    pub route : Route all t chain
    pub short : length chain ≤ n
    pub applied : apply_transactions (seen a initial) chain ≡ ok (seen a c)
    pub timeline_valid :
        validate_timeline_invariants collate c.timeline project.duration_samples ≡ ok tt
    pub alignments_valid : validate_alignments collate project c.lyrics_alignments ≡ ok tt

  -- Every projection of the map is that of the transaction with its id.
  Kept : ℕ → List (String × CommittedState) → Type 0
  Kept n projections =
      (id : String) (c : CommittedState)
      → lookup id projections ≡ some c
      → (t : EditTransaction) × (map_get id (by_id all) ≡ some t) × Reached n t c

  -- What a commit of one transaction has done.
  record Committed (projections : List (String × CommittedState)) (t : EditTransaction)
      (c : CommittedState) : Type 0 where
    parent : CommittedState
    started : parent_state initial projections t.parent_transaction_id ≡ ok parent
    operated : commit_operations parent t.operations ≡ ok c
    timeline_valid :
        validate_timeline_invariants collate c.timeline project.duration_samples ≡ ok tt
    alignments_valid : validate_alignments collate project c.lyrics_alignments ≡ ok tt

  commit_transaction-Committed :
      (projections : List (String × CommittedState)) (t : EditTransaction) (c : CommittedState)
      → commit_transaction collate project initial projections t ≡ ok c
      → Committed projections t c
  unfolding commit_transaction
  commit_transaction-Committed projections t c h =
      elim (Result-cases (parent_state initial projections t.parent_transaction_id)) [
        | inr (e, failed) ↦ absurd (ground arith)
        | inl (parent, started) ↦ elim (Result-cases (commit_operations parent t.operations)) [
          | inr (e, failed) ↦ absurd (ground arith)
          | inl (d, operated) ↦
              let same : d ≡ c = ground arith in
              record {
                parent = parent;
                started = started;
                operated = operated ∙ ap ok same;
                timeline_valid = rw (← same) (ground arith);
                alignments_valid = rw (← same) (ground arith);
              }
        ]
      ]

  Reached-mono :
      {n m : ℕ} {t : EditTransaction} {c : CommittedState} → n ≤ m → Reached n t c → Reached m t c
  Reached-mono h r = record {
    chain = r.chain;
    route = r.route;
    short = le_trans r.short h;
    applied = r.applied;
    timeline_valid = r.timeline_valid;
    alignments_valid = r.alignments_valid;
  }

  Committed-Reached :
      (n : ℕ) (projections : List (String × CommittedState)) (t : EditTransaction)
      (c : CommittedState)
      → Kept n projections
      → Committed projections t c
      → Reached (suc n) t c
  unfolding parent_state Kept
  Committed-Reached n projections t c kept k = elim (Option-cases t.parent_transaction_id) [
    | inl above ↦
        let at_root : initial ≡ k.parent = ground arith in
        record {
          chain = t ∷ [];
          route = root above;
          short = omega arith;
          applied =
              apply_transactions-concat (seen a initial) (seen a initial) (seen a c) [] t
                (apply_transactions-nil (seen a initial))
                (commit_operations-seen a initial c t.operations (rw at_root k.operated));
          timeline_valid = k.timeline_valid;
          alignments_valid = k.alignments_valid;
        }
    | inr (id, above) ↦
        let looked : lookup id projections ≡ some k.parent = ground arith in
        let (p, found, r) = kept id k.parent looked in
        record {
          chain = r.chain ++ (t ∷ []);
          route = step above found r.route refl;
          short = omega (arith, length-append r.chain (t ∷ []), r.short);
          applied =
              apply_transactions-concat (seen a initial) (seen a k.parent) (seen a c) r.chain t
                r.applied (commit_operations-seen a k.parent c t.operations k.operated);
          timeline_valid = k.timeline_valid;
          alignments_valid = k.alignments_valid;
        }
  ]

  Kept-cons :
      (n : ℕ) (projections : List (String × CommittedState)) (t : EditTransaction)
      (c : CommittedState)
      → Kept n projections
      → map_get t.id (by_id all) ≡ some t
      → Reached (suc n) t c
      → Kept (suc n) ((t.id, c) ∷ projections)
  unfolding Kept lookup
  Kept-cons n projections t c kept found r id d h = elim (Bool-cases (t.id === id)) [
    | inl same ↦
        let e : t.id ≡ id = (eq_iff _ _).0 same in
        let d_is : c ≡ d = ground arith in (t, rw (← e) found, subst (Reached (suc n) t) d_is r)
    | inr other ↦
        let (u, there, reached) = kept id d (ground arith) in
        (u, there, Reached-mono (omega arith) reached)
  ]

  -- Every transaction of a committed history is reached.
  commit_transactions-Reached :
      (n : ℕ) (projections : List (String × CommittedState)) (rest : List EditTransaction)
      → Kept n projections
      → ((i : ℕ) (t : EditTransaction)
          → get_elem? rest i ≡ some t
          → map_get t.id (by_id all) ≡ some t)
      → commit_transactions collate project initial projections rest ≡ ok tt
      → (i : ℕ) (t : EditTransaction) → get_elem? rest i ≡ some t
      → (c : CommittedState) × Reached (n + length rest) t c
  unfolding commit_transactions
  commit_transactions-Reached n projections [] kept own h i t e = absurd (ground arith)
  commit_transactions-Reached n projections (u ∷ rest) kept own h i t e =
      let (d, first, later) =
        >>=-eq-ok (commit_transaction collate project initial projections u) _ h in
      let r : Reached (suc n) u d =
        Committed-Reached n projections u d kept
          (commit_transaction-Committed projections u d first) in
      go d r
        (commit_transactions-Reached (suc n) ((u.id, d) ∷ projections) rest
          (Kept-cons n projections u d kept (own 0 u refl) r) (λ j v. own (suc j) v) later)
        i e
    where
      go :
          (d : CommittedState)
          → Reached (suc n) u d
          → ((j : ℕ) (v : EditTransaction)
              → get_elem? rest j ≡ some v
              → (c : CommittedState) × Reached (suc n + length rest) v c)
          → (k : ℕ) → get_elem? (u ∷ rest) k ≡ some t
          → (c : CommittedState) × Reached (n + length (u ∷ rest)) t c
      go d r ih zero k =
          let same : u ≡ t = ground arith in
          (d, Reached-mono (omega arith) (subst (λ x. Reached (suc n) x d) same r))
      go d r ih (suc j) k = let (c, reached) = ih j t k in (c, Reached-mono (omega arith) reached)

  Kept-nil : Kept 0 []
  unfolding Kept lookup
  Kept-nil id c h = absurd (ground arith)

  pub history-Reached :
      AllDistinct (map (λ t. t.id) all)
      → commit_transactions collate project initial [] all ≡ ok tt
      → (i : ℕ) (t : EditTransaction) → get_elem? all i ≡ some t
      → (c : CommittedState) × Reached (length all) t c
  history-Reached distinct h i t e =
      let (c, r) =
        commit_transactions-Reached 0 [] all Kept-nil
          (λ j u. map_get_of_get_elem? (λ x. x.id) all j u distinct) h i t e in
      (c, Reached-mono (omega arith) r)

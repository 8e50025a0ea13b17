-- ===== src/Projection/Chain/Route.antt =====
-- The walk from a transaction to the root of its history follows its route, and ends.
use open_chords.Prelude.{
  ℕ, suc, ◌+◌, String, ◌≡◌, refl, ap, ◌∙◌, none, some, List, [], ◌∷◌, ◌++◌, arith, length,
  length-append, map_get, ok,
}
use mathlib.Core.List.{append_assoc}
use open_chords.Schema.{EditTransaction}
use open_chords.Projection.Chain.{by_id, parent_of, walk}

-- The transactions from the root to `t`, by the ids that their parents have.
pub data Route (all : List EditTransaction) : EditTransaction → List EditTransaction → Type 0 where
  root : {t : EditTransaction} → t.parent_transaction_id ≡ none → Route all t (t ∷ [])
  step :
      {t p : EditTransaction} {id : String} {chain longer : List EditTransaction}
      → t.parent_transaction_id ≡ some id
      → map_get id (by_id all) ≡ some p
      → Route all p chain
      → longer ≡ chain ++ (t ∷ [])
      → Route all t longer

-- With one round for each link the walk gives the route.
pub walk-Route :
    {all : List EditTransaction} {t : EditTransaction} {chain : List EditTransaction} (k : ℕ)
    (rest : List EditTransaction) (fuel : ℕ)
    → Route all t chain
    → fuel ≡ length chain + k
    → walk fuel all (some t) rest ≡ ok (chain ++ rest)
unfolding walk
walk-Route k rest fuel (root {t} none_above) e =
    let e' : fuel ≡ suc k = omega arith in rw e' (rw none_above refl)
walk-Route {all} k rest fuel (step {t} {p} {id} {chain} above found route longer) e =
    let e' : fuel ≡ suc (length chain + k) =
      omega (arith, ap length longer, length-append chain (t ∷ [])) in
    let up : parent_of all t.parent_transaction_id ≡ some p = ap (parent_of all) above ∙ found in
    rw (e', longer, append_assoc)
      (ap (λ above. walk (length chain + k) all above (t ∷ rest)) up
        ∙ walk-Route k (t ∷ rest) (length chain + k) route refl)

-- ===== src/Projection/Chain.antt =====
-- packages/domain/src/projection.ts: the transactions from the root of a history to the selected
-- one. `alignment.ts` walks the same way. The loop has one round for each link, and fuel for two
-- rounds more than there are transactions: a longer walk meets an id again and never ends.
pub mod Route
use open_chords.Prelude.{
  ℕ, zero, suc, ◌+◌, String, Option, none, some, List, [], ◌∷◌, map, get_elem?, map_get, length,
  Result, ok, err, endless,
}
use open_chords.Schema.{EditTransaction}

-- `layer.transactions[position - 1]`
abbrev pub at_position : List EditTransaction → ℕ → Option EditTransaction
at_position transactions zero = none
at_position transactions (suc index) = get_elem? transactions index

abbrev pub by_id : List EditTransaction → List (String × EditTransaction)
by_id transactions = map (λ t. (t.id, t)) transactions

abbrev pub parent_of : List EditTransaction → Option String → Option EditTransaction
parent_of transactions none = none
parent_of transactions (some id) = map_get id (by_id transactions)

unfoldable pub walk :
    ℕ
    → List EditTransaction
    → Option EditTransaction
    → List EditTransaction
    → Result (List EditTransaction)
walk fuel transactions none chain = ok chain
walk zero transactions (some selected) chain = err endless
walk (suc fuel) transactions (some selected) chain =
    walk fuel transactions (parent_of transactions selected.parent_transaction_id)
      (selected ∷ chain)

unfoldable pub history : List EditTransaction → ℕ → Result (List EditTransaction)
history transactions position =
    walk (length transactions + 2) transactions (at_position transactions position) []

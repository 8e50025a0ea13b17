-- ===== src/Draft/Update/Suffix.antt =====
-- The loop of `update` that looks for an id that no transaction has.
use text.Mathlib.TextLemmas.{append_cancel_left, append_cancel_right}
use open_chords.Prelude.{
  ℕ, zero, suc, ◌+◌, ◌≤◌, ◌<◌, ◌≡◌, ◌≢◌, refl, ap, sym, ◌∙◌, inl, inr, String, true, false, not,
  ◌||◌, some, List, [], ◌∷◌, arith, length, keep, includes, ◌===◌, eq_iff, decimal, decimal_inj,
  power_of_ten, Bool-cases,
}
use open_chords.Schema.{EditLayer}
use open_chords.Draft.{Editor}
use open_chords.Draft.Update.{draft_id, free_suffix, transaction_ids, suffix_of}

draft_id_inj :
    (n m : ℕ) → n < power_of_ten 17 → m < power_of_ten 17 → draft_id n ≡ draft_id m → n ≡ m
draft_id_inj n m l k e = decimal_inj n m l k (
    append_cancel_right (decimal n) (decimal m) ""
      (append_cancel_left "transaction_draft_validation_" _ _ e))

abbrev without : String → List String → List String
without x ids = keep (λ id. not (id === x)) ids

not_equal : (x y id : String) → y ≢ x → (id === x) ≡ true → (id === y) ≡ false
not_equal x y id h same = elim (Bool-cases (id === y)) [
  | inl other ↦ absurd (h (sym ((eq_iff id y).0 other) ∙ (eq_iff id x).0 same))
  | inr apart ↦ apart
]

includes-without :
    (x y : String) (ids : List String) → y ≢ x → includes y (without x ids) ≡ includes y ids
unfolding includes keep
includes-without x y [] h = refl
includes-without x y (id ∷ ids) h = elim (Bool-cases (id === x)) [
  | inl same ↦ rw (same, not_equal x y id h same) (includes-without x y ids h)
  | inr other ↦ rw other (ap (λ b. (id === y) || b) (includes-without x y ids h))
]

without-le : (x : String) (ids : List String) → length (without x ids) ≤ length ids
unfolding keep
without-le x [] = omega arith
without-le x (id ∷ ids) = elim (Bool-cases (id === x)) [
  | inl same ↦ rw same (omega (arith, without-le x ids))
  | inr other ↦ rw other (omega (arith, without-le x ids))
]

without-lt :
    (x : String) (ids : List String) → includes x ids ≡ true → length (without x ids) < length ids
unfolding includes keep
without-lt x [] h = absurd (ground arith)
without-lt x (id ∷ ids) h = elim (Bool-cases (id === x)) [
  | inl same ↦ rw same (omega (arith, without-le x ids))
  | inr other ↦ rw other (omega (arith, without-lt x ids (rw other at h)))
]

free_suffix_ext :
    (fuel : ℕ) (ids ids' : List String) (first : ℕ)
    → ((k : ℕ)
        → first ≤ k
        → k < first + fuel
        → includes (draft_id k) ids ≡ includes (draft_id k) ids')
    → free_suffix fuel ids first ≡ free_suffix fuel ids' first
unfolding free_suffix
free_suffix_ext zero ids ids' first h = refl
free_suffix_ext (suc fuel) ids ids' first h =
    let rest =
      free_suffix_ext fuel ids ids' (suc first) (λ k l m. h k (omega arith) (omega arith)) in
    rw (h first (omega arith) (omega arith), rest) refl

free_suffix_total :
    (fuel : ℕ) (ids : List String) (first : ℕ)
    → length ids < fuel
    → first + fuel ≤ power_of_ten 17
    → (n : ℕ) × (free_suffix fuel ids first ≡ some n)
unfolding free_suffix
free_suffix_total zero ids first l bound = absurd (omega arith)
free_suffix_total (suc fuel) ids first l bound = elim (Bool-cases (includes (draft_id first) ids)) [
  | inl taken ↦
      let fewer = without (draft_id first) ids in
      let (n, found) =
        free_suffix_total fuel fewer (suc first)
          (omega (arith, without-lt (draft_id first) ids taken)) (omega arith) in
      let same = free_suffix_ext fuel fewer ids (suc first) (λ k l m.
        includes-without (draft_id first) (draft_id k) ids
          (λ e. let equal = draft_id_inj k first (omega arith) (omega arith) e in omega arith)) in
      (n, rw taken (sym same ∙ found))
  | inr free ↦ (first, rw free refl)
]

pub free_suffix_lem :
    (fuel : ℕ) (ids : List String) (first n : ℕ)
    → free_suffix fuel ids first ≡ some n
    → includes (draft_id n) ids ≡ false
unfolding free_suffix
free_suffix_lem zero ids first n h = cc
free_suffix_lem (suc fuel) ids first n h = elim (Bool-cases (includes (draft_id first) ids)) [
  | inl taken ↦ free_suffix_lem fuel ids (suc first) n (rw taken at h)
  | inr free ↦ let k = rw free at h in ground (arith, free)
]

-- Where the transactions of a project are fewer than 10 ** 16, the loop of `update` ends within its fuel,
-- at a suffix whose id no transaction has.
pub suffix_of_total :
    (editor : Editor) (layer : EditLayer)
    → length (transaction_ids editor.project.edit_layers) < power_of_ten 16
    → length layer.transactions < power_of_ten 16
    → (n : ℕ) × (suffix_of editor layer ≡ some n)
      × (includes (draft_id n) (transaction_ids editor.project.edit_layers) ≡ false)
suffix_of_total editor layer few short =
    let ids = transaction_ids editor.project.edit_layers in
    let (n, found) =
      free_suffix_total (suc (length ids)) ids (length layer.transactions) (omega arith)
        (omega arith) in
    (n, found, free_suffix_lem _ _ _ n found)

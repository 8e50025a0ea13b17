-- ===== src/Prelude/Decimal.antt =====
-- `String(n)` of a natural number: its decimal digits, for the safe integers of JavaScript, which
-- have at most sixteen.
use Prim.Native.Nat.{ℕ, zero, suc, ◌*◌, ◌/◌, ◌%◌, ◌≤◌, ◌<◌}
use Prim.Native.String
use Prim.Native.String.{String, count}
use mathlib.Core.List.{List, [], ◌∷◌}
use open_chords.Prelude.Ranges.{all_below, true_of_all_below}
use mathlib.Core.Path.{◌≡◌, refl, sym, ap, ◌∙◌}
use mathlib.Core.Logic.{◌≢◌, inl, inr}
use mathlib.Core.Bool.{true, not, ◌||◌}
use native.Mathlib.Omega.{arith}
use text.Mathlib.TextEquality.{eq_iff}
use text.Mathlib.TextLemmas.{length-append, append_inj}
use open_chords.Prelude.Tests.{ltb, ◌==◌, ◌===◌, Bool-cases, if◌then◌else◌}

digit_of : List String → ℕ → String
digit_of [] n = ""
digit_of (d ∷ ds) zero = d
digit_of (d ∷ ds) (suc n) = digit_of ds n

digit : ℕ → String
unfolding digit_of
digit = digit_of ("0" ∷ "1" ∷ "2" ∷ "3" ∷ "4" ∷ "5" ∷ "6" ∷ "7" ∷ "8" ∷ "9" ∷ [])

digits : ℕ → ℕ → String
digits zero n = ""
digits (suc places) n =
    let rest = digits places (n / 10) in
    if ltb n 10 then digit n else String.◌++◌ rest (digit (n % 10))

unfoldable pub decimal : ℕ → String
unfolding digits digit
decimal n = digits 17 n

-- `10 ** places`
abbrev pub power_of_ten : ℕ → ℕ
power_of_ten zero = 1
power_of_ten (suc places) = 10 * power_of_ten places

digit_table : all_below 10 (λ i. all_below 10 (λ j. not (digit i === digit j) || i == j)) ≡ true
unfolding digit digit_of all_below
digit_table = refl

digit_lengths : all_below 10 (λ i. count (digit i) == 1) ≡ true
unfolding digit digit_of all_below
digit_lengths = refl

digit_inj : (i j : ℕ) → i < 10 → j < 10 → digit i ≡ digit j → i ≡ j
digit_inj i j l k e =
    let row = true_of_all_below 10 _ i digit_table l in
    let entry = true_of_all_below 10 _ j row k in ground (arith, entry, eq_iff (digit i) (digit j))

digit_length : (i : ℕ) → i < 10 → count (digit i) ≡ 1
digit_length i l = ground (arith, true_of_all_below 10 _ i digit_lengths l)

digits_positive : (places n : ℕ) → 1 ≤ count (digits (suc places) n)
unfolding digits
digits_positive places n = elim (Bool-cases (ltb n 10)) [
  | inl small ↦ rw small (omega (arith, digit_length n (ground arith)))
  | inr large ↦
      rw (large, length-append (digits places (n / 10)) (digit (n % 10)))
        (omega (arith, digit_length (n % 10) (omega arith)))
]

-- A number of one digit is told from one of more.
digits_apart :
    (places n m : ℕ)
    → n < 10
    → m < power_of_ten (suc places)
    → 10 ≤ m
    → digit n ≢ String.◌++◌ (digits places (m / 10)) (digit (m % 10))
digits_apart zero n m l k h e = omega arith
digits_apart (suc places) n m l k h e =
    let lengths =
      sym (digit_length n l)
      ∙ ap count e
      ∙ length-append (digits (suc places) (m / 10)) (digit (m % 10)) in
    omega (arith, lengths, digits_positive places (m / 10), digit_length (m % 10) (omega arith))

digits_inj :
    (places n m : ℕ)
    → n < power_of_ten places
    → m < power_of_ten places
    → digits places n ≡ digits places m
    → n ≡ m
unfolding digits
digits_inj zero n m l k e = omega arith
digits_inj (suc places) n m l k e = elim (Bool-cases (ltb n 10)) [
  | inl n_small ↦ elim (Bool-cases (ltb m 10)) [
    | inl m_small ↦ digit_inj n m (ground arith) (ground arith) (rw (n_small, m_small) at e)
    | inr m_large ↦
        absurd
          (digits_apart places n m (ground arith) k (ground arith) (rw (n_small, m_large) at e))
  ]
  | inr n_large ↦ elim (Bool-cases (ltb m 10)) [
    | inl m_small ↦
        absurd (
          digits_apart places m n (ground arith) l (ground arith)
            (sym (rw (n_large, m_small) at e)))
    | inr m_large ↦
        let same = rw (n_large, m_large) at e in
        let lengths =
          sym (length-append (digits places (n / 10)) (digit (n % 10)))
          ∙ ap count same
          ∙ length-append (digits places (m / 10)) (digit (m % 10)) in
        let (front, last) = append_inj same (
          omega (
            arith,
            lengths,
            digit_length (n % 10) (omega arith),
            digit_length (m % 10) (omega arith),
          )) in
        let quotients = digits_inj places (n / 10) (m / 10) (omega arith) (omega arith) front in
        let remainders = digit_inj (n % 10) (m % 10) (omega arith) (omega arith) last in omega arith
  ]
]

-- Two numbers of at most seventeen digits with one text are the same.
pub decimal_inj :
    (n m : ℕ) → n < power_of_ten 17 → m < power_of_ten 17 → decimal n ≡ decimal m → n ≡ m
unfolding decimal
decimal_inj n m l k e = digits_inj 17 n m l k e

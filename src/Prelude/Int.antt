-- ===== src/Prelude/Int.antt =====
-- Signed integers over the native numbers, as far as semitones need them.
use Prim.Native.Nat.{ℕ, suc, ◌+◌, ◌-◌}

-- `negsuc n` is -(n + 1).
pub data ℤ : Type 0 where
  pos : ℕ → ℤ
  negsuc : ℕ → ℤ

-- n + z, stopped at 0.
abbrev pub add_to : ℕ → ℤ → ℕ
add_to n (pos m) = n + m
add_to n (negsuc m) = n - suc m

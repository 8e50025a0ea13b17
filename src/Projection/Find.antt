-- ===== src/Projection/Find.antt =====
-- packages/domain/src/projection.ts: how an operation finds what it names.
use open_chords.Prelude.{
  ℕ, ◌+◌, String, Option, none, some, ◌==◌, Result, ok, err, error, if◌then◌else◌,
}

-- The result of a `find`, or what is thrown where it is `undefined`.
abbrev pub or_throw {ℓ} : {A : Type ℓ} → Option A → String → Result A
or_throw none message = err (error message)
or_throw (some a) message = ok a

-- The indices of two neighbours, which an edit of their boundary names.
abbrev pub adjacent : Option ℕ → Option ℕ → String → Result ℕ
adjacent none right message = err (error message)
adjacent (some left) none message = err (error message)
adjacent (some left) (some right) message =
    if right == left + 1 then ok left else err (error message)

-- ===== src/Prelude/Outcome.antt =====
-- What a function that may throw gives back: its result, or the error that it throws.
use Prim.Native.String.{String}
use mathlib.Core.Path.{◌≡◌, refl}
use mathlib.Core.Logic.{◌⊎◌, inl, inr}
use mathlib.Core.Bool.{Bool, true, false}
use mathlib.Core.List.{List}

-- `new Error(message)`, a DomainInvariantError with its issues, or a loop that never ends.
pub data Error : Type 0 where
  error : String → Error
  invariants : List String → Error
  endless : Error

pub data Result {l} (A : Type l) : Type l where
  err : (thrown : Error) → Result A
  ok : (value : A) → Result A

infixl 5 ◌>>=◌
-- The statements after a call, which run where the call throws nothing.
abbrev pub ◌>>=◌ {k l} : {B : Type k} {A : Type l} → Result A → (A → Result B) → Result B
err thrown >>= next = err thrown
ok value >>= next = next value

infixl 5 ◌>>◌
abbrev pub ◌>>◌ {l} : {A : Type l} → Result (Unit {0}) → Result A → Result A
check >> rest = check >>= λ done. rest

-- `if (test) throw new Error(message)`
abbrev pub throw_if : Bool → String → Result (Unit {0})
throw_if false message = ok tt
throw_if true message = err (error message)

pub Result-cases {l} :
    {A : Type l} (result : Result A)
    → ((value : A) × (result ≡ ok value)) ⊎ ((thrown : Error) × (result ≡ err thrown))
Result-cases (err thrown) = inr (thrown, refl)
Result-cases (ok value) = inl (value, refl)

-- What came before the rest of a function that throws nothing.
pub >>=-eq-ok {k l} :
    {B : Type k} {A : Type l} (call : Result A) (next : A → Result B) {final : B}
    → (call >>= next) ≡ ok final
    → (value : A) × (call ≡ ok value) × (next value ≡ ok final)
>>=-eq-ok (err thrown) next h = cc
>>=-eq-ok (ok value) next h = (value, refl, h)

-- Two checks that both throw nothing.
pub both_ok :
    (check rest : Result (Unit {0})) → (check >> rest) ≡ ok tt → (check ≡ ok tt) × (rest ≡ ok tt)
both_ok (err thrown) rest h = cc
both_ok (ok tt) rest h = (refl, h)

pub throw_if_ok : (test : Bool) (message : String) → throw_if test message ≡ ok tt → test ≡ false
throw_if_ok true message h = cc
throw_if_ok false message h = refl

-- ===== src/Base/Results.antt =====
-- A Go call that returns `(value, err)`, and stateful code that does. State that was written
-- before a failure stays written, so it comes back beside the error too.

use mathlib.Core.Path.{◌≡◌, refl}
use mathlib.Core.Logic.{◌⊎◌, inl, inr}

-- `nil_reply` is `redis.Nil`, the answer for a missing key; any other error is `failed`.
pub data Error : Type 0 where
  nil_reply failed : Error

pub data Result {ℓ} (A : Type ℓ) : Type ℓ where
  ok : A → Result A
  err : Error → Result A

abbrev pub Action {ℓ} : Type ℓ → Type ℓ → Type ℓ
Action S A = S → Result A × S

module _ {ℓ} {S A B : Type ℓ} where
  abbrev then_run : Result A → (A → Action S B) → Action S B
  then_run (ok a) f s = f a s
  then_run (err e) f s = (err e, s)

  infixl 5 ◌>>=◌ ◌>>◌
  -- `if err != nil { return err }` after each step
  abbrev pub ◌>>=◌ : Action S A → (A → Action S B) → Action S B
  ◌>>=◌ m f s = let (r, s') = m s in then_run r f s'

  abbrev pub ◌>>◌ : Action S A → Action S B → Action S B
  m >> n = m >>= λ _. n

module _ {ℓ} {S A : Type ℓ} where
  abbrev pub pure : A → Action S A
  pure a s = (ok a, s)

  abbrev pub fail : Error → Action S A
  fail e s = (err e, s)

  -- a call that only reads the state
  abbrev pub reads : (S → Result A) → Action S A
  reads f s = (f s, s)

pub Result-cases {ℓ} :
    {A : Type ℓ} (r : Result A) → ((a : A) × (r ≡ ok a)) ⊎ ((e : Error) × (r ≡ err e))
Result-cases (ok a) = inl (a, refl)
Result-cases (err e) = inr (e, refl)

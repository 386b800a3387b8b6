-- ===== src/Base/Lists.antt =====
-- Lists measured by native numbers, under the library's names, and a predicate on all elements.
use Prim.Native.Nat.{ℕ, zero, suc, ◌+◌, ◌-◌, ◌≤◌, min}
use mathlib.Core.Path.{◌≡◌, refl}
use mathlib.Core.List.{List, [], ◌∷◌, ◌++◌}
use mathlib.Core.Option.{Option, none, some}
use native.Mathlib.Omega.{arith}

module _ {ℓ} {A : Type ℓ} where
  abbrev pub length : List A → ℕ
  length [] = 0
  length (x ∷ xs) = suc (length xs)

  abbrev pub take : ℕ → List A → List A
  take zero xs = []
  take (suc n) [] = []
  take (suc n) (x ∷ xs) = x ∷ take n xs

  abbrev pub drop : ℕ → List A → List A
  drop zero xs = xs
  drop (suc n) [] = []
  drop (suc n) (x ∷ xs) = drop n xs

  pub length-append : (xs ys : List A) → length (xs ++ ys) ≡ length xs + length ys
  length-append [] ys = omega arith
  length-append (x ∷ xs) ys = omega (arith, length-append xs ys)

  pub length-take : (n : ℕ) (xs : List A) → length (take n xs) ≡ min n (length xs)
  length-take zero xs = omega arith
  length-take (suc n) [] = omega arith
  length-take (suc n) (x ∷ xs) = omega (arith, length-take n xs)

  pub length-drop : (n : ℕ) (xs : List A) → length (drop n xs) ≡ length xs - n
  length-drop zero xs = omega arith
  length-drop (suc n) [] = omega arith
  length-drop (suc n) (x ∷ xs) = omega (arith, length-drop n xs)

  -- `s[:n]` and `s[n:]` of Go, on a slice with no room behind its length: `none` where it panics.
  unfoldable pub slice_to : ℕ → List A → Option (List A)
  slice_to zero xs = some []
  slice_to (suc n) [] = none
  slice_to (suc n) (x ∷ xs) = elim (slice_to n xs) [ none ↦ none | some r ↦ some (x ∷ r) ]

  unfoldable pub slice_from : ℕ → List A → Option (List A)
  slice_from zero xs = some xs
  slice_from (suc n) [] = none
  slice_from (suc n) (x ∷ xs) = slice_from n xs

  pub slice_to-take : (n : ℕ) (xs : List A) → n ≤ length xs → slice_to n xs ≡ some (take n xs)
  unfolding slice_to
  slice_to-take zero xs le = refl
  slice_to-take (suc n) [] le = absurd (omega (arith, le))
  slice_to-take (suc n) (x ∷ xs) le = rw (slice_to-take n xs (omega (arith, le))) refl

  pub slice_from-drop : (n : ℕ) (xs : List A) → n ≤ length xs → slice_from n xs ≡ some (drop n xs)
  unfolding slice_from
  slice_from-drop zero xs le = refl
  slice_from-drop (suc n) [] le = absurd (omega (arith, le))
  slice_from-drop (suc n) (x ∷ xs) le = slice_from-drop n xs (omega (arith, le))

-- Every element satisfies `P`.
abbrev pub All {ℓ κ} : {A : Type ℓ} → (A → Type κ) → List A → Type κ
All P [] = Unit
All P (x ∷ xs) = P x × All P xs

pub All-append {ℓ κ} :
    {A : Type ℓ} (P : A → Type κ) (xs ys : List A) → All P xs → All P ys → All P (xs ++ ys)
All-append P [] ys hx hy = hy
All-append P (x ∷ xs) ys hx hy = (hx.0, All-append P xs ys hx.1 hy)

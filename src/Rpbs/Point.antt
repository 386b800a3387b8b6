-- ===== src/Rpbs/Point.antt =====
-- `BytesToPoint` (rpbs/types.go), which maps a hash to a point of the curve: a search for a number
-- that is the first coordinate of a point, and Cipolla's square root.
pub mod Found
use proof_relay.Base.{
  ℕ, zero, suc, ◌+◌, ◌-◌, ◌*◌, ◌/◌, ◌%◌, ◌≡◌, Bool, true, false, not, Option, none, some,
  if◌then◌else◌, ◌==◌, [], ◌∷◌,
}
use proof_relay.Text.{Text, codes}
use proof_relay.Text.Decimal.{ℤ, pos, negsuc}
use proof_relay.Rpbs.{Field, Complex, complex_exponent, curve_rhs}

-- Big-endian bytes as a number.
abbrev pub from_bytes : ℕ → Text → ℕ
from_bytes acc [] = acc
from_bytes acc (b ∷ bs) = from_bytes (acc * 256 + b) bs

-- What the code uses of `fp.Element` and of the curve besides: `SetBigInt`, `Neg`, `Equal`,
-- `Legendre`, `CurveCoefficients` and `IsOnCurve`.
pub record Squares (F : Field) : Type 0 where
  pub element_of : ℕ → F.Element
  pub opposite : F.Element → F.Element
  pub equal : F.Element → F.Element → Bool
  pub legendre : F.Element → ℤ
  pub three : F.Element
  pub is_on_curve : F.Element → F.Element → Bool

-- A point with its coordinates, an error, or a loop that has not ended.
pub data PointResult (F : Field) : Type 0 where
  point : F.Element → F.Element → PointResult F
  failed : Text → PointResult F
  running : PointResult F

abbrev pub is_one : ℤ → Bool
is_one (pos n) = n == 1
is_one (negsuc n) = false

abbrev pub is_minus_one : ℤ → Bool
is_minus_one (pos n) = false
is_minus_one (negsuc n) = n == 0

module _ (F : Field) (S : Squares F) where
  open F use {Element}

  -- The first loop, on fuel: the next number from `x` on for which x^3 + 3 is a square.
  unfoldable pub find_x : ℕ → Element → Option Element
  unfolding curve_rhs
  find_x zero x = if is_one (S.legendre (curve_rhs F S.three x)) then some x else none
  find_x (suc fuel) x =
      let rest = find_x fuel (F.add x F.one) in
      if is_one (S.legendre (curve_rhs F S.three x)) then some x else rest

  -- The second loop, on fuel, with `a` and `neg`. The variable `zero` of the code is the same
  -- pointer as `a`, so that it changes with it.
  unfoldable pub find_a : ℕ → Element → Element → Element → Option (Element × Element)
  find_a zero n a neg = if is_minus_one (S.legendre neg) then some (a, neg) else none
  find_a (suc fuel) n a neg =
      let next = F.add a F.one in
      let rest = find_a fuel n next (F.add (F.mul next next) (S.opposite n)) in
      if is_minus_one (S.legendre neg) then some (a, neg) else rest

  -- The checks at the end: the imaginary part is compared with the value that `zero` has by now.
  abbrev pub check_point : Element → Element → Option (Complex F) → PointResult F
  check_point x a none = running
  check_point x a (some exponent) =
      if not (S.equal exponent.im a)
      then failed (codes "Invalid complex exponent")
      else if not (S.is_on_curve x exponent.re)
      then failed (codes "Point conversion failed")
      else point x exponent.re

  abbrev pub take_root : Element → Option (Element × Element) → PointResult F
  take_root x none = running
  take_root x (some (a, neg)) =
      check_point x a (complex_exponent F neg (record { re = a; im = F.one }) ((F.modulus + 1) / 2))

  abbrev pub with_x : ℕ → Option Element → PointResult F
  with_x fuel none = running
  with_x fuel (some x) =
      take_root x
        (find_a fuel (curve_rhs F S.three x) F.zero_element (S.opposite (curve_rhs F S.three x)))

  abbrev pub start_of : Text → Element
  start_of hash = S.element_of (from_bytes 0 hash % F.modulus)

  -- `BytesToPoint`, with the same fuel for either search.
  unfoldable pub bytes_to_point : ℕ → Text → PointResult F
  unfolding find_x find_a complex_exponent
  bytes_to_point fuel hash = with_x fuel (find_x fuel (start_of hash))

  -- Powers in the field.
  unfoldable pub element_power : Element → ℕ → Element
  element_power a zero = F.one
  element_power a (suc n) = F.mul (element_power a n) a

  -- `x` with one added `n` times.
  unfoldable pub counted : ℕ → Element → Element
  counted zero x = x
  counted (suc n) x = counted n (F.add x F.one)

-- The documented behaviour of the field of bn254, whose modulus is three more than a multiple of
-- four: Euler's criterion, and that the opposite of a square is no square.
pub record SquaresLaws (F : Field) (S : Squares F) : Type 0 where
  pub quarter : ℕ
  pub modulus_is : F.modulus ≡ 4 * quarter + 3
  pub equal_refl : (a : F.Element) → S.equal a a ≡ true
  pub opposite_mul : (a : F.Element) → F.mul (S.opposite F.one) (S.opposite a) ≡ a
  pub opposite_square :
      (a : F.Element)
      → is_one (S.legendre a) ≡ true
      → is_minus_one (S.legendre (S.opposite a)) ≡ true
  pub euler :
      (a : F.Element)
      → is_minus_one (S.legendre a) ≡ true
      → element_power F S a ((F.modulus - 1) / 2) ≡ S.opposite F.one
  pub on_curve : (x y : F.Element) → F.mul y y ≡ curve_rhs F S.three x → S.is_on_curve x y ≡ true

-- ===== src/Tests/Rpbs.antt =====
-- Powers over the natural numbers, with a square root of three beside them.
use proof_relay.Base.{
  ℕ, ◌+◌, ◌*◌, ◌%◌, ◌≡◌, refl, Bool, true, false, not, ◌&&◌, ◌/◌, ap, inl, inr, Bool-cases, ◌==◌,
  ◌<◌, ◌⊎◌, length, Option, none, some, [], ◌∷◌, arith,
}
use native.Mathlib.Nat.{mul_comm, mul_assoc, mul-add, add-mul}
use proof_relay.Rpbs.{Field, FieldLaws, Complex, complex_exponent, curve_rhs}
use proof_relay.Text.{Text, codes}
use proof_relay.Text.Decimal.{ℤ, pos, negsuc}
use proof_relay.Rpbs.Signature.{
  Curve, CurveLaws, verify_signature, combine, challenge, negate_big_int, residue, answer,
  check_with,
}
use proof_relay.Rpbs.Signature.Total.{verify_signature-answer}
use proof_relay.Rpbs.Point.{bytes_to_point, point, is_one, counted, start_of}
use proof_relay.Tests.Point.{
  Three, none_of_three, one_of_three, two_of_three, product, symbol, three_field, three_laws,
  three_squares, three_squares_laws,
}
use proof_relay.Rpbs.Signature.Honest.{honest, verify_signature-honest}
use proof_relay.Rpbs.Decode.{
  decode_point, panicked, hex_encode, unmarshalled, decode_point-hex_encode,
}
use proof_relay.Rpbs.Power.{power, complex_exponent-power}

abbrev naturals : Field
naturals = record {
  Element = ℕ;
  zero_element = 0;
  one = 1;
  add = λ a b. a + b;
  mul = λ a b. a * b;
  modulus = 1000;
}

naturals_laws : FieldLaws naturals
naturals_laws = record {
  add_comm = λ a b. omega arith;
  add_assoc = λ a b c. omega arith;
  mul_comm = mul_comm;
  mul_assoc = mul_assoc;
  distrib = mul-add;
  add_zero = λ a. omega arith;
  mul_one = λ a. omega arith;
  mul_zero = λ a. omega arith;
}

abbrev base : Complex naturals
base = record { re = 2; im = 1 }

-- (2 + sqrt 3) ^ 5 is 362 + 209 * sqrt 3.
fifth : complex_exponent naturals 3 base 5 ≡ some (record { re = 362; im = 209 })
unfolding complex_exponent
fifth = refl

complex_exponent-power_example :
    complex_exponent naturals 3 base 5 ≡ some (power naturals naturals_laws 3 base 5)
complex_exponent-power_example =
    complex_exponent-power naturals naturals_laws 3 base 5 (omega arith)

-- The group of order two, and a hash that is the sum of the bytes.
abbrev pub plus : Bool → Bool → Bool
plus true b = not b
plus false b = b

abbrev pub scaled : Bool → ℤ → Bool
scaled p (pos n) = (n % 2 == 1) && p
scaled p (negsuc n) = (n % 2 == 0) && p

abbrev pub total : Text → ℕ
total [] = 0
total (b ∷ bs) = b + total bs

abbrev pub bytes_of : Bool → Text
bytes_of true = 1 ∷ []
bytes_of false = 0 ∷ []

abbrev pub curve : Curve
curve = record {
  Point = Bool;
  generator = true;
  identity = false;
  add = plus;
  scalar_multiplication = scaled;
  order = 2;
  marshal = bytes_of;
  sha_256 = λ t. total t % 256 ∷ [];
  field = three_field;
  squares = three_squares;
  affine = λ x y. true;
}

even_product : (a b q : ℕ) → a ≡ 2 * q → a * b % 2 ≡ 0
even_product a b q e = omega (arith, ap (λ (t : ℕ). t * b) e, mul_assoc 2 q b)

odd_product : (a b q : ℕ) → a ≡ 2 * q + 1 → a * b % 2 ≡ b % 2
odd_product a b q e = omega (arith, ap (λ (t : ℕ). t * b) e, mul_assoc 2 q b, add-mul (2 * q) 1 b)

scaled_twice : (a b : ℕ) (p : Bool) → scaled p (pos (a * b)) ≡ scaled (scaled p (pos b)) (pos a)
scaled_twice a b p = elim (Bool-cases (a % 2 == 1)) [
  | inl odd ↦ let same = odd_product a b (a / 2) (ground arith) in rw (same, odd) refl
  | inr even ↦ let gone = even_product a b (a / 2) (ground arith) in rw (gone, even) refl
]

curve_laws : CurveLaws curve
curve_laws = record {
  order_positive = omega arith;
  add_assoc = λ p q r. ground arith;
  add_identity = λ p. ground arith;
  scalar_add = λ p a b. ground arith;
  scalar_mul = λ p a b. scaled_twice a b p;
  scalar_order = λ p k. ground arith;
}

balanced :
    (residue curve (pos 1) * residue curve (pos 1)) % 2
    ≡ challenge curve
        (scaled true (pos 3))
        true
        true
        (scaled true (pos 3))
        (scaled true (pos 2))
        (scaled true (pos 2))
        (combine curve true (pos 1) true (pos 1))
unfolding challenge combine negate_big_int
balanced = refl

info_found :
    bytes_to_point three_field three_squares 5 (total (codes "info") % 256 ∷ [])
    ≡ point one_of_three two_of_three
unfolding bytes_to_point
info_found = refl

verify_signature-honest_example :
    verify_signature curve 5
      (scaled true (pos 3))
      (codes "info")
      (honest curve curve_laws 3 2 true 1 (pos 1) (pos 1))
    ≡ answer true
verify_signature-honest_example =
    verify_signature-honest curve curve_laws 3 2 true 1 (pos 1) (pos 1) (codes "info") 5
      one_of_three two_of_three info_found balanced

slot_square :
    is_one (
      symbol (
        curve_rhs three_field none_of_three (
          counted three_field three_squares 2
            (start_of three_field three_squares (total (codes "slot") % 256 ∷ [])))))
    ≡ true
unfolding counted curve_rhs
slot_square = refl

verify_signature-answer_example :
    (x : Three) × (y : Three) × (product y y ≡ curve_rhs three_field none_of_three x)
    × (verify_signature curve 5 true
          (codes "slot")
          (honest curve curve_laws 1 1 true 1 (pos 1) (pos 1))
        ≡ answer (check_with curve true (honest curve curve_laws 1 1 true 1 (pos 1) (pos 1)) true))
verify_signature-answer_example =
    verify_signature-answer curve three_laws three_squares_laws 5 2 true (codes "slot")
      (honest curve curve_laws 1 1 true 1 (pos 1) (pos 1)) (omega arith) slot_square

abbrev no_point : Text → Option Bool
no_point t = none

decode_point_run :
    ((decode_point curve no_point (hex_encode (4 ∷ [])) ≡ panicked) × (length {A = ℕ} (4 ∷ []) < 2))
    ⊎ ((a : ℕ) × (b : ℕ) × (r : Text) × (◌≡◌ {A = Text} (4 ∷ []) (a ∷ b ∷ r))
        × (decode_point curve no_point (hex_encode (4 ∷ []))
            ≡ unmarshalled curve no_point (no_point r)))
decode_point_run = decode_point-hex_encode curve no_point (4 ∷ []) (omega arith, tt)

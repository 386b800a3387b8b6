-- ===== src/Rpbs.antt =====
-- The arithmetic under the RPBS proofs (rpbs/types.go): `ComplexCurveMul` and `ComplexExponent`, the
-- numbers `re + im * sqrt(neg)` over the field of gnark-crypto, which is not part of the repository
-- and stands here as an interface.
pub mod Power
pub mod Signature
pub mod Decode
pub mod Point
use proof_relay.Base.{
  ℕ, zero, suc, ◌+◌, ◌*◌, ◌/◌, ◌%◌, ◌≡◌, Bool, true, false, Option, none, some, ◌==◌, if◌then◌else◌,
}

-- `fp.Element`: the operations that the code uses.
pub record Field : Type 1 where
  pub Element : Type 0
  pub zero_element : Element
  pub one : Element
  pub add : Element → Element → Element
  pub mul : Element → Element → Element
  -- the characteristic: `SetBigInt` gives zero exactly at its multiples
  pub modulus : ℕ

-- The laws of a commutative ring that the operations are documented to have.
pub record FieldLaws (F : Field) : Type 0 where
  pub add_comm : (a b : F.Element) → F.add a b ≡ F.add b a
  pub add_assoc : (a b c : F.Element) → F.add (F.add a b) c ≡ F.add a (F.add b c)
  pub mul_comm : (a b : F.Element) → F.mul a b ≡ F.mul b a
  pub mul_assoc : (a b c : F.Element) → F.mul (F.mul a b) c ≡ F.mul a (F.mul b c)
  pub distrib : (a b c : F.Element) → F.mul a (F.add b c) ≡ F.add (F.mul a b) (F.mul a c)
  pub add_zero : (a : F.Element) → F.add a F.zero_element ≡ a
  pub mul_one : (a : F.Element) → F.mul a F.one ≡ a
  pub mul_zero : (a : F.Element) → F.mul a F.zero_element ≡ F.zero_element

pub record Complex (F : Field) : Type 0 where
  pub re : F.Element
  pub im : F.Element

module _ (F : Field) (neg : F.Element) where
  unfoldable pub complex_curve_mul : Complex F → Complex F → Complex F
  complex_curve_mul x y = record {
    re = F.add (F.mul x.re y.re) (F.mul (F.mul y.im neg) x.im);
    im = F.add (F.mul x.re y.im) (F.mul y.re x.im);
  }

  abbrev pub unit : Complex F
  unit = record { re = F.one; im = F.zero_element }

  -- The loop of `ComplexExponent`, on fuel: it goes on while the exponent is not zero in the field.
  unfoldable pub exponent_loop : ℕ → Complex F → Complex F → ℕ → Option (Complex F)
  unfolding complex_curve_mul
  exponent_loop zero result base_res n = if n % F.modulus == 0 then some result else none
  exponent_loop (suc fuel) result base_res n =
      let rest =
        exponent_loop fuel (if n % 2 == 1 then complex_curve_mul result base_res else result)
          (complex_curve_mul base_res base_res) (n / 2) in
      if n % F.modulus == 0 then some result else rest

  -- `ComplexExponent`, with the exponent as fuel.
  unfoldable pub complex_exponent : Complex F → ℕ → Option (Complex F)
  unfolding exponent_loop
  complex_exponent base n = exponent_loop n unit base n

-- `CurveRHS`: x^3 + 3
unfoldable pub curve_rhs : (F : Field) → F.Element → F.Element → F.Element
curve_rhs F three x = F.add (F.mul (F.mul x x) x) three

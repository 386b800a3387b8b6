-- ===== src/Rpbs/Point/Found.antt =====
-- `BytesToPoint` always finds a point.
use proof_relay.Base.{
  ℕ, zero, suc, ◌+◌, ◌-◌, ◌/◌, ◌≤◌, ◌≡◌, refl, sym, ap, ◌∙◌, true, some, arith, Bool-cases, inl,
  inr,
}
use proof_relay.Text.{Text}
use proof_relay.Rpbs.{Field, FieldLaws, Complex, complex_curve_mul, complex_exponent, curve_rhs}
use proof_relay.Rpbs.Power.{power, complex_exponent-power}
use proof_relay.Rpbs.Point.{
  Squares, SquaresLaws, point, is_one, is_minus_one, find_x, find_a, check_point, take_root, with_x,
  start_of, bytes_to_point, element_power, counted,
}

module _ (F : Field) (field_laws : FieldLaws F) (S : Squares F) (laws : SquaresLaws F S) where
  open F use {Element, add, mul, zero_element, one}

  zero_add : (a : Element) → add zero_element a ≡ a
  zero_add a = field_laws.add_comm zero_element a ∙ field_laws.add_zero a

  zero_mul : (a : Element) → mul zero_element a ≡ zero_element
  zero_mul a = field_laws.mul_comm zero_element a ∙ field_laws.mul_zero a

  abbrev complex : Element → Element → Complex F
  complex r i = record { re = r; im = i }

  -- The square root of `neg` times a complex number.
  turn :
      (neg r i : Element)
      → complex_curve_mul F neg (complex zero_element one) (complex r i) ≡ complex (mul i neg) r
  unfolding complex_curve_mul
  turn neg r i =
      let real : add (mul zero_element r) (mul (mul i neg) one) ≡ mul i neg =
        rw (zero_mul r, field_laws.mul_one (mul i neg), zero_add (mul i neg)) refl in
      let imaginary : add (mul zero_element i) (mul r one) ≡ r =
        rw (zero_mul i, field_laws.mul_one r, zero_add r) refl in
      ap (λ t. complex t (add (mul zero_element i) (mul r one))) real
      ∙ ap (complex (mul i neg)) imaginary

  -- An even power of the square root of `neg` has no imaginary part.
  power_even :
      (neg : Element) (k : ℕ)
      → power F field_laws neg (complex zero_element one) (k + k)
        ≡ complex (element_power F S neg k) zero_element
  unfolding power element_power
  power_even neg zero = refl
  power_even neg (suc k) =
      let r = element_power F S neg k in
      let two_more : suc k + suc k ≡ suc (suc (k + k)) = omega arith in
      ap (power F field_laws neg (complex zero_element one)) two_more
      ∙ (ap
            (λ t.
              complex_curve_mul F neg (complex zero_element one)
                (complex_curve_mul F neg (complex zero_element one) t))
            (power_even neg k)
          ∙ (ap (complex_curve_mul F neg (complex zero_element one)) (turn neg r zero_element)
              ∙ (turn neg (mul zero_element neg) r ∙ ap (complex (mul r neg)) (zero_mul neg))))

  element_power-add :
      (a : Element) (j k : ℕ)
      → element_power F S a (j + k) ≡ mul (element_power F S a j) (element_power F S a k)
  unfolding element_power
  element_power-add a j zero =
      let none_more : j + 0 ≡ j = omega arith in
      ap (element_power F S a) none_more ∙ sym (field_laws.mul_one (element_power F S a j))
  element_power-add a j (suc k) =
      let one_more : j + suc k ≡ suc (j + k) = omega arith in
      ap (element_power F S a) one_more
      ∙ (ap (λ t. mul t a) (element_power-add a j k)
          ∙ field_laws.mul_assoc (element_power F S a j) (element_power F S a k) a)

  abbrev root : Element → Element
  root n = element_power F S (S.opposite n) (laws.quarter + 1)

  root_square : (n : Element) → is_one (S.legendre n) ≡ true → mul (root n) (root n) ≡ n
  unfolding element_power
  root_square n square =
      let q = laws.quarter in
      let neg = S.opposite n in
      let odd : (q + 1) + (q + 1) ≡ suc ((F.modulus - 1) / 2) = omega (arith, laws.modulus_is) in
      sym (element_power-add neg (q + 1) (q + 1))
      ∙ (ap (element_power F S neg) odd
          ∙ (ap (λ t. mul t neg) (laws.euler neg (laws.opposite_square n square))
              ∙ laws.opposite_mul n))

  -- The power that the code takes, for a number whose opposite it takes as `neg`.
  root_taken :
      (n : Element)
      → complex_exponent F (S.opposite n) (complex zero_element one) ((F.modulus + 1) / 2)
        ≡ some (complex (root n) zero_element)
  root_taken n =
      let q = laws.quarter in
      let even : (F.modulus + 1) / 2 ≡ (q + 1) + (q + 1) = omega (arith, laws.modulus_is) in
      complex_exponent-power F field_laws (S.opposite n) (complex zero_element one)
        ((F.modulus + 1) / 2) (omega (arith, laws.modulus_is))
      ∙ ap some (
          ap (power F field_laws (S.opposite n) (complex zero_element one)) even
          ∙ power_even (S.opposite n) (q + 1))

  find_a_at_once :
      (fuel : ℕ) (n a neg : Element)
      → is_minus_one (S.legendre neg) ≡ true
      → find_a F S fuel n a neg ≡ some (a, neg)
  unfolding find_a
  find_a_at_once zero n a neg h = rw h refl
  find_a_at_once (suc fuel) n a neg h = rw h refl

  find_x_lem :
      (fuel j : ℕ) (x : Element)
      → j ≤ fuel
      → is_one (S.legendre (curve_rhs F S.three (counted F S j x))) ≡ true
      → (found : Element) × (find_x F S fuel x ≡ some found)
        × (is_one (S.legendre (curve_rhs F S.three found)) ≡ true)
  unfolding find_x counted
  find_x_lem zero zero x le h = (x, rw h refl, h)
  find_x_lem zero (suc j) x le h = absurd (omega (arith, le))
  find_x_lem (suc fuel) zero x le h = (x, rw h refl, h)
  find_x_lem (suc fuel) (suc j) x le h =
      elim (Bool-cases (is_one (S.legendre (curve_rhs F S.three x)))) [
        | inl here ↦ (x, rw here refl, here)
        | inr later ↦
            let (found, at, square) = find_x_lem fuel j (add x one) (omega (arith, le)) h in
            (found, rw later at, square)
      ]

  -- Over a field whose modulus is three more than a multiple of four and that meets the laws,
  -- `BytesToPoint` returns a point of the curve and no error, if one of the numbers from the hash on,
  -- within the fuel, has a square of x^3 + 3: the imaginary part is zero, and the square of the
  -- second coordinate is x^3 + 3.
  pub bytes_to_point_lem :
      (fuel j : ℕ) (hash : Text)
      → j ≤ fuel
      → is_one (S.legendre (curve_rhs F S.three (counted F S j (start_of F S hash)))) ≡ true
      → (x : Element) × (y : Element) × (bytes_to_point F S fuel hash ≡ point x y)
        × (mul y y ≡ curve_rhs F S.three x)
  unfolding bytes_to_point
  bytes_to_point_lem fuel j hash le h =
      let (x, at, square) = find_x_lem fuel j (start_of F S hash) le h in
      let n = curve_rhs F S.three x in
      let squared = root_square n square in
      let chosen =
        find_a_at_once fuel n zero_element (S.opposite n) (laws.opposite_square n square) in
      (
        x,
        root n,
        ap (with_x F S fuel) at
            ∙ (ap (take_root F S x) chosen
                ∙ (ap (check_point F S x zero_element) (root_taken n)
                    ∙ rw (laws.equal_refl zero_element, laws.on_curve x (root n) squared) refl)),
        squared,
      )

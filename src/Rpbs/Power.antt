-- ===== src/Rpbs/Power.antt =====
-- `ComplexExponent` raises to a power.
use native.Mathlib.Nat.{mod-eq_of_lt}
use proof_relay.Base.{
  ℕ, zero, suc, ◌+◌, ◌/◌, ◌%◌, ◌<◌, ◌≤◌, ◌≡◌, ap, sym, ◌∙◌, false, Bool-cases, inl, inr, some,
  arith, ◌==◌, if◌then◌else◌,
}
use proof_relay.Rpbs.{
  Field, FieldLaws, Complex, complex_curve_mul, unit, exponent_loop, complex_exponent,
}

module _ (F : Field) (laws : FieldLaws F) (neg : F.Element) where
  mul_left_comm : (a b c : F.Element) → F.mul a (F.mul b c) ≡ F.mul b (F.mul a c)
  mul_left_comm a b c =
      sym (laws.mul_assoc a b c) ∙ (ap (λ t. F.mul t c) (laws.mul_comm a b) ∙ laws.mul_assoc b a c)

  add_left_comm : (a b c : F.Element) → F.add a (F.add b c) ≡ F.add b (F.add a c)
  add_left_comm a b c =
      sym (laws.add_assoc a b c) ∙ (ap (λ t. F.add t c) (laws.add_comm a b) ∙ laws.add_assoc b a c)

  distrib_right : (a b c : F.Element) → F.mul (F.add a b) c ≡ F.add (F.mul a c) (F.mul b c)
  distrib_right a b c = simp (laws.mul_comm, laws.distrib)

  mul_re :
      (a1 b1 a2 b2 a3 b3 : F.Element)
      → F.add
          (F.mul (F.add (F.mul a1 a2) (F.mul (F.mul b2 neg) b1)) a3)
          (F.mul (F.mul b3 neg) (F.add (F.mul a1 b2) (F.mul a2 b1)))
        ≡ F.add
            (F.mul a1 (F.add (F.mul a2 a3) (F.mul (F.mul b3 neg) b2)))
            (F.mul (F.mul (F.add (F.mul a2 b3) (F.mul a3 b2)) neg) b1)
  mul_re a1 b1 a2 b2 a3 b3 = simp (
    laws.distrib, distrib_right, laws.mul_assoc, laws.mul_comm, mul_left_comm, laws.add_assoc,
    laws.add_comm, add_left_comm,
  )

  mul_im :
      (a1 b1 a2 b2 a3 b3 : F.Element)
      → F.add
          (F.mul (F.add (F.mul a1 a2) (F.mul (F.mul b2 neg) b1)) b3)
          (F.mul a3 (F.add (F.mul a1 b2) (F.mul a2 b1)))
        ≡ F.add
            (F.mul a1 (F.add (F.mul a2 b3) (F.mul a3 b2)))
            (F.mul (F.add (F.mul a2 a3) (F.mul (F.mul b3 neg) b2)) b1)
  mul_im a1 b1 a2 b2 a3 b3 = simp (
    laws.distrib, distrib_right, laws.mul_assoc, laws.mul_comm, mul_left_comm, laws.add_assoc,
    laws.add_comm, add_left_comm,
  )

  abbrev times : Complex F → Complex F → Complex F
  times = complex_curve_mul F neg

  times_assoc : (x y z : Complex F) → times (times x y) z ≡ times x (times y z)
  unfolding complex_curve_mul
  times_assoc x y z = λ i. record {
    re = mul_re x.re x.im y.re y.im z.re z.im i;
    im = mul_im x.re x.im y.re y.im z.re z.im i;
  }

  times_comm : (x y : Complex F) → times x y ≡ times y x
  unfolding complex_curve_mul
  times_comm x y =
      λ i. record { re = re_same i; im = laws.add_comm (F.mul x.re y.im) (F.mul y.re x.im) i }
    where
      re_same :
          F.add (F.mul x.re y.re) (F.mul (F.mul y.im neg) x.im)
          ≡ F.add (F.mul y.re x.re) (F.mul (F.mul x.im neg) y.im)
      re_same = simp (laws.mul_assoc, laws.mul_comm)

  one_mul : (a : F.Element) → F.mul F.one a ≡ a
  one_mul a = laws.mul_comm F.one a ∙ laws.mul_one a

  times-unit : (x : Complex F) → times x (unit F neg) ≡ x
  unfolding complex_curve_mul
  times-unit x = λ i. record { re = re_same i; im = im_same i }
    where
      re_same : F.add (F.mul x.re F.one) (F.mul (F.mul F.zero_element neg) x.im) ≡ x.re
      re_same = simp (laws.mul_one, laws.mul_comm, laws.mul_zero, laws.add_zero)

      im_same : F.add (F.mul x.re F.zero_element) (F.mul F.one x.im) ≡ x.im
      im_same = simp (laws.mul_zero, one_mul, laws.add_comm, laws.add_zero)

  -- The power by repeated multiplication.
  unfoldable pub power : Complex F → ℕ → Complex F
  power b zero = unit F neg
  power b (suc n) = times b (power b n)

  power_square : (b : Complex F) (k : ℕ) → power (times b b) k ≡ power b (k + k)
  unfolding power
  power_square b zero = let none_left : 0 ≡ 0 + 0 = omega arith in ap (power b) none_left
  power_square b (suc k) =
      ap (times (times b b)) (power_square b k)
      ∙ (times_assoc b b (power b (k + k))
          ∙ (let two_more : suc (suc (k + k)) ≡ suc k + suc k = omega arith in
              ap (power b) two_more))

  -- One turn of the loop, at an exponent that is not zero.
  turn :
      (r b : Complex F) (n : ℕ)
      → times (if n % 2 == 1 then times r b else r) (power (times b b) (n / 2))
        ≡ times r (power b n)
  unfolding power
  turn r b n = elim (Bool-cases (n % 2 == 1)) [
    | inl odd ↦
        let split : suc (n / 2 + n / 2) ≡ n = ground arith in
        rw odd (
          ap (times (times r b)) (power_square b (n / 2))
          ∙ (times_assoc r b (power b (n / 2 + n / 2)) ∙ ap (λ m. times r (power b m)) split))
    | inr even ↦
        let split : n / 2 + n / 2 ≡ n = ground arith in
        rw even (ap (times r) (power_square b (n / 2)) ∙ ap (λ m. times r (power b m)) split)
  ]

  -- The test of the loop, below the characteristic.
  loop_test : (n : ℕ) → n < F.modulus → (n % F.modulus == 0) ≡ (n == 0)
  loop_test n below = ap (λ m. m == 0) (mod-eq_of_lt below)

  exponent_loop-power :
      (fuel : ℕ) (r b : Complex F) (n : ℕ)
      → n < F.modulus
      → n ≤ fuel
      → exponent_loop F neg fuel r b n ≡ some (times r (power b n))
  unfolding exponent_loop power
  exponent_loop-power zero r b zero below enough =
      rw (loop_test 0 below, exponent_loop) (ap some (sym (times-unit r)))
  exponent_loop-power zero r b (suc n) below enough = absurd (omega (arith, enough))
  exponent_loop-power (suc fuel) r b zero below enough =
      rw (loop_test 0 below, exponent_loop) (ap some (sym (times-unit r)))
  exponent_loop-power (suc fuel) r b (suc n) below enough =
      let half_below : suc n / 2 < F.modulus = omega (arith, below) in
      let half_enough : suc n / 2 ≤ fuel = omega (arith, enough) in
      let nonzero : (suc n % F.modulus == 0) ≡ false =
        loop_test (suc n) below ∙ (let no : (suc n == 0) ≡ false = ground arith in no) in
      rw (nonzero, exponent_loop)
        (exponent_loop-power fuel (if suc n % 2 == 1 then times r b else r) (times b b) (suc n / 2)
            half_below half_enough
          ∙ ap some (turn r b (suc n)))

  -- For an exponent below the characteristic of the field, the loop of `ComplexExponent` ends, and
  -- its square-and-multiply gives the power that repeated multiplication gives.
  pub complex_exponent-power :
      (b : Complex F) (n : ℕ) → n < F.modulus → complex_exponent F neg b n ≡ some (power b n)
  unfolding complex_exponent
  complex_exponent-power b n below =
      exponent_loop-power n (unit F neg) b n below (omega arith)
      ∙ ap some (times_comm (unit F neg) (power b n) ∙ times-unit (power b n))

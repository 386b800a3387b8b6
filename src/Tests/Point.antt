-- ===== src/Tests/Point.antt =====
-- `BytesToPoint` over the field of three elements, in which three is zero and two is no square.
use proof_relay.Base.{◌%◌, ◌≡◌, refl, Bool, true, false, ◌==◌, if◌then◌else◌, arith, [], ◌∷◌}
use proof_relay.Text.Decimal.{ℤ, pos, negsuc}
use proof_relay.Rpbs.{Field, FieldLaws, curve_rhs}
use proof_relay.Rpbs.Point.{
  Squares, SquaresLaws, point, is_one, is_minus_one, bytes_to_point, element_power, counted,
}
use proof_relay.Rpbs.Point.Found.{bytes_to_point_lem}

pub data Three : Type 0 where
  none_of_three : Three
  one_of_three : Three
  two_of_three : Three

abbrev pub next : Three → Three
next none_of_three = one_of_three
next one_of_three = two_of_three
next two_of_three = none_of_three

abbrev pub sum : Three → Three → Three
sum none_of_three b = b
sum one_of_three b = next b
sum two_of_three b = next (next b)

abbrev pub minus : Three → Three
minus none_of_three = none_of_three
minus one_of_three = two_of_three
minus two_of_three = one_of_three

abbrev pub product : Three → Three → Three
product none_of_three b = none_of_three
product one_of_three b = b
product two_of_three b = minus b

abbrev pub same : Three → Three → Bool
same none_of_three none_of_three = true
same one_of_three one_of_three = true
same two_of_three two_of_three = true
same _ _ = false

abbrev pub symbol : Three → ℤ
symbol none_of_three = pos 0
symbol one_of_three = pos 1
symbol two_of_three = negsuc 0

abbrev pub three_field : Field
three_field = record {
  Element = Three;
  zero_element = none_of_three;
  one = one_of_three;
  add = sum;
  mul = product;
  modulus = 3;
}

abbrev pub three_squares : Squares three_field
three_squares = record {
  element_of =
      λ n. if n % 3 == 0 then none_of_three else if n % 3 == 1 then one_of_three else two_of_three;
  opposite = minus;
  equal = same;
  legendre = symbol;
  three = none_of_three;
  is_on_curve = λ x y. same (product y y) (product (product x x) x);
}

pub three_laws : FieldLaws three_field
three_laws = record {
  add_comm = λ a b. ground arith;
  add_assoc = λ a b c. ground arith;
  mul_comm = λ a b. ground arith;
  mul_assoc = λ a b c. ground arith;
  distrib = λ a b c. ground arith;
  add_zero = λ a. ground arith;
  mul_one = λ a. ground arith;
  mul_zero = λ a. ground arith;
}

even_symbol : (a : Three) → is_one (symbol a) ≡ true → is_minus_one (symbol (minus a)) ≡ true
even_symbol a h = ground (arith, h)

euler_of_three :
    (a : Three)
    → is_minus_one (symbol a) ≡ true
    → element_power three_field three_squares a 1 ≡ two_of_three
unfolding element_power
euler_of_three a h = ground (arith, h)

same_refl : (a : Three) → same a a ≡ true
same_refl none_of_three = refl
same_refl one_of_three = refl
same_refl two_of_three = refl

on_curve_of_three :
    (x y : Three)
    → product y y ≡ curve_rhs three_field none_of_three x
    → same (product y y) (product (product x x) x) ≡ true
unfolding curve_rhs
on_curve_of_three none_of_three y h = ground (arith, h)
on_curve_of_three one_of_three y h = ground (arith, h)
on_curve_of_three two_of_three y h = ground (arith, h)

pub three_squares_laws : SquaresLaws three_field three_squares
three_squares_laws = record {
  quarter = 0;
  modulus_is = refl;
  equal_refl = same_refl;
  opposite_mul = λ a. ground arith;
  opposite_square = even_symbol;
  euler = euler_of_three;
  on_curve = on_curve_of_three;
}

-- From two, the first number with a square is one, two steps on.
two_steps :
    is_one (
      symbol
        (curve_rhs three_field none_of_three (counted three_field three_squares 2 two_of_three)))
    ≡ true
unfolding counted curve_rhs
two_steps = refl

bytes_to_point_lem_example :
    (x : Three) × (y : Three) × (bytes_to_point three_field three_squares 5 (2 ∷ []) ≡ point x y)
    × (product y y ≡ curve_rhs three_field none_of_three x)
bytes_to_point_lem_example =
    bytes_to_point_lem three_field three_laws three_squares three_squares_laws 5 2 (2 ∷ [])
      (omega arith) two_steps

one_found : bytes_to_point three_field three_squares 5 (2 ∷ []) ≡ point one_of_three two_of_three
unfolding bytes_to_point
one_found = refl

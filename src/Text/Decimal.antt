-- ===== src/Text/Decimal.antt =====
-- `fmt.Sprintf("%d", n)`, `strconv.ParseInt(s, 10, 64)` and `big.Int.SetString(s, 10)`.
use proof_relay.Base.{
  ℕ, zero, suc, ◌+◌, ◌-◌, ◌*◌, ◌/◌, ◌%◌, ◌^◌, ◌<◌, ◌≡◌, refl, Bool, true, false, ◌&&◌, Option, none,
  some, List, [], ◌∷◌, ◌++◌, arith, ltb, leb, ◌==◌, if◌then◌else◌, All, All-append, ◌≢◌, ◌∙◌, ap,
  Bool-cases, sym, ==_iff, lt→ltb, inl, inr,
}
use proof_relay.Text.Equality.{text_eq, text_eq→eq, text_eq_refl}

-- `digits_fuel f n` writes `n` in base ten when `n < f`.
digits_fuel : ℕ → ℕ → List ℕ
digits_fuel zero n = []
digits_fuel (suc f) n =
    let rest = digits_fuel f (n / 10) ++ (48 + n % 10) ∷ [] in
    if ltb n 10 then (48 + n) ∷ [] else rest

unfoldable pub show_ℕ : ℕ → List ℕ
unfolding digits_fuel
show_ℕ n = digits_fuel (suc n) n

abbrev pub is_digit : ℕ → Bool
is_digit c = leb 48 c && leb c 57

parse_digits : ℕ → List ℕ → Option ℕ
parse_digits acc [] = some acc
parse_digits acc (c ∷ cs) = if is_digit c then parse_digits (acc * 10 + (c - 48)) cs else none

unfoldable pub parse_ℕ : List ℕ → Option ℕ
unfolding parse_digits
parse_ℕ [] = none
parse_ℕ (c ∷ cs) = parse_digits 0 (c ∷ cs)

abbrev and_then : Option ℕ → (ℕ → Option ℕ) → Option ℕ
and_then none f = none
and_then (some a) f = f a

parse_digits-append :
    (acc : ℕ) (xs ys : List ℕ)
    → parse_digits acc (xs ++ ys) ≡ and_then (parse_digits acc xs) (λ a. parse_digits a ys)
unfolding parse_digits
parse_digits-append acc [] ys = refl
parse_digits-append acc (x ∷ xs) ys =
    ground (arith, parse_digits-append (acc * 10 + (x - 48)) xs ys)

parse_digits_one : (acc d : ℕ) → d < 10 → parse_digits acc ((48 + d) ∷ []) ≡ some (acc * 10 + d)
unfolding parse_digits
parse_digits_one acc d h = ground arith

parse-digits_fuel : (f n : ℕ) → n < f → parse_digits 0 (digits_fuel f n) ≡ some n
unfolding digits_fuel
parse-digits_fuel zero n h = elim h [ ]
parse-digits_fuel (suc f) n h = ground (
  arith,
  parse-digits_fuel f (n / 10),
  parse_digits-append 0 (digits_fuel f (n / 10)) ((48 + n % 10) ∷ []),
  parse_digits_one (n / 10) (n % 10),
  parse_digits_one 0 n,
)

-- Every byte of a numeral is a digit, and there is one at least.
digits_fuel-is_digit : (f n : ℕ) → All (λ c. is_digit c ≡ true) (digits_fuel f n)
unfolding digits_fuel
digits_fuel-is_digit zero n = tt
digits_fuel-is_digit (suc f) n = elim (Bool-cases (ltb n 10)) [
  | inl small ↦ rw small (ground arith, tt)
  | inr big ↦ rw big (
      All-append (λ c. is_digit c ≡ true) (digits_fuel f (n / 10)) ((48 + n % 10) ∷ [])
        (digits_fuel-is_digit f (n / 10)) (ground arith, tt))
]

pub show_ℕ-is_digit : (n : ℕ) → All (λ c. is_digit c ≡ true) (show_ℕ n)
unfolding show_ℕ
show_ℕ-is_digit n = digits_fuel-is_digit (suc n) n

append-ne-nil : (xs : List ℕ) (y : ℕ) → xs ++ y ∷ [] ≢ []
append-ne-nil [] y h = cc
append-ne-nil (x ∷ xs) y h = cc

show_ℕ-ne-nil : (n : ℕ) → show_ℕ n ≢ []
unfolding show_ℕ
show_ℕ-ne-nil n h = elim (Bool-cases (ltb n 10)) [
  | inl small ↦ cc (rw small at h)
  | inr big ↦ append-ne-nil (digits_fuel n (n / 10)) (48 + n % 10) (rw big at h)
]

parse_ℕ-cons : (l : List ℕ) → l ≢ [] → parse_ℕ l ≡ parse_digits 0 l
unfolding parse_ℕ
parse_ℕ-cons [] h = absurd (h refl)
parse_ℕ-cons (c ∷ cs) h = refl

-- A numeral reads back as its number.
pub parse_ℕ-show_ℕ : (n : ℕ) → parse_ℕ (show_ℕ n) ≡ some n
parse_ℕ-show_ℕ n =
    parse_ℕ-cons (show_ℕ n) (show_ℕ-ne-nil n)
    ∙ (unfold show_ℕ in parse-digits_fuel (suc n) n (omega arith))

pub show_ℕ-injective : (m n : ℕ) → show_ℕ m ≡ show_ℕ n → m ≡ n
show_ℕ-injective m n h = cc (parse_ℕ-show_ℕ m, parse_ℕ-show_ℕ n)

-- A number of either sign: Go's `big.Int`, and `int64` with its range written out.
-- `negsuc n` is -(n + 1).
pub data ℤ : Type 0 where
  pos : ℕ → ℤ
  negsuc : ℕ → ℤ

-- `a < b`, that is `a.Cmp(b) < 0`
abbrev pub ltb_ℤ : ℤ → ℤ → Bool
ltb_ℤ (pos a) (pos b) = ltb a b
ltb_ℤ (pos a) (negsuc b) = false
ltb_ℤ (negsuc a) (pos b) = true
ltb_ℤ (negsuc a) (negsuc b) = ltb b a

unfoldable pub show_ℤ : ℤ → List ℕ
show_ℤ (pos n) = show_ℕ n
show_ℤ (negsuc n) = b'-' ∷ show_ℕ (suc n)

negate : ℕ → ℤ
negate zero = pos 0
negate (suc n) = negsuc n

abbrev positive : Option ℕ → Option ℤ
positive none = none
positive (some n) = some (pos n)

abbrev negative : Option ℕ → Option ℤ
negative none = none
negative (some n) = some (negate n)

-- `new(big.Int).SetString(s, 10)`: an optional sign, then digits.
unfoldable pub parse_ℤ : List ℕ → Option ℤ
unfolding parse_ℕ negate
parse_ℤ [] = none
parse_ℤ (c ∷ cs) =
    if c == b'-'
    then negative (parse_ℕ cs)
    else if c == b'+'
    then positive (parse_ℕ cs)
    else positive (parse_ℕ (c ∷ cs))

parse_ℤ-digit : (l : List ℕ) → All (λ c. is_digit c ≡ true) l → parse_ℤ l ≡ positive (parse_ℕ l)
unfolding parse_ℤ
parse_ℤ-digit [] h = refl
parse_ℤ-digit (c ∷ cs) h = ground arith

-- A printed integer reads back as itself.
pub parse_ℤ-show_ℤ : (z : ℤ) → parse_ℤ (show_ℤ z) ≡ some z
unfolding show_ℤ
parse_ℤ-show_ℤ (pos n) =
    parse_ℤ-digit (show_ℕ n) (show_ℕ-is_digit n) ∙ ap positive (parse_ℕ-show_ℕ n)
parse_ℤ-show_ℤ (negsuc n) = unfold parse_ℤ in rw (parse_ℕ-show_ℕ (suc n))

-- `strconv.ParseInt(s, 10, 64)`: out of the range of `int64` is an error.
abbrev in_int64 : ℤ → Bool
in_int64 (pos n) = ltb n (2 ^ 63)
in_int64 (negsuc n) = ltb n (2 ^ 63)

abbrev check_int64 : Option ℤ → Option ℤ
check_int64 none = none
check_int64 (some z) = if in_int64 z then some z else none

unfoldable pub parse_int : List ℕ → Option ℤ
unfolding parse_ℤ
parse_int s = check_int64 (parse_ℤ s)

pub parse_int-show_ℕ : (n : ℕ) → n < 2 ^ 63 → parse_int (show_ℕ n) ≡ some (pos n)
unfolding parse_int show_ℤ
parse_int-show_ℕ n h = rw (parse_ℤ-show_ℤ (pos n)) (rw (lt→ltb n (2 ^ 63) h))

ne_numbers : (m n : ℕ) → text_eq (show_ℕ m) (show_ℕ n) ≡ false → false ≡ (m == n)
ne_numbers m n other = elim (Bool-cases (m == n)) [
  | inl same ↦
      let equal : text_eq (show_ℕ m) (show_ℕ n) ≡ true =
        rw ((==_iff m n).0 same) (text_eq_refl (show_ℕ n)) in
      absurd (cc (other, equal))
  | inr differ ↦ sym differ
]

pub text_eq-show_ℕ : (m n : ℕ) → text_eq (show_ℕ m) (show_ℕ n) ≡ (m == n)
text_eq-show_ℕ m n = elim (Bool-cases (text_eq (show_ℕ m) (show_ℕ n))) [
  | inl same ↦ rw same (sym ((==_iff m n).1 (show_ℕ-injective m n (text_eq→eq _ _ same))))
  | inr other ↦ rw other (ne_numbers m n other)
]

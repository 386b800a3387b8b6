-- ===== src/Rpbs/Decode.antt =====
-- What a submission carries of an RPBS proof, as texts, and how it is decoded (rpbs/types.go:
-- `DecodePointFromRPBSFormat`, `DecodeRPBSSignature`, `VerifySignatureWithStringInput`).
use proof_relay.Base.{
  ℕ, zero, suc, ◌+◌, ◌-◌, ◌*◌, ◌/◌, ◌%◌, ◌<◌, ◌≡◌, refl, Bool, ◌&&◌, Option, none, some, [], ◌∷◌,
  ◌++◌, arith, All, leb, if◌then◌else◌, ap, length, ◌⊎◌, inl, inr,
}
use proof_relay.Text.Strings.{to_lower}
use proof_relay.Text.{Text, codes}
use proof_relay.Text.Decimal.{ℤ, pos, negsuc, show_ℕ, show_ℤ}
use proof_relay.Rpbs.Signature.{
  Curve, Signature, Verification, answer, nil_point, unfinished, verify_signature,
}

-- The value of a hexadecimal digit, of either case.
unfoldable pub hex_digit : ℕ → Option ℕ
hex_digit c =
    if leb 48 c && leb c 57
    then some (c - 48)
    else if leb 97 c && leb c 102
    then some (c - 87)
    else if leb 65 c && leb c 70
    then some (c - 55)
    else none

abbrev byte_of : Option ℕ → Option ℕ → Option Text → Option Text
byte_of (some a) (some b) (some t) = some ((a * 16 + b) ∷ t)
byte_of _ _ _ = none

-- `hex.DecodeString`: an odd number of digits is an error.
unfoldable pub hex_decode : Text → Option Text
unfolding hex_digit
hex_decode [] = some []
hex_decode (a ∷ []) = none
hex_decode (a ∷ b ∷ t) = byte_of (hex_digit a) (hex_digit b) (hex_decode t)

abbrev more_digits : Option ℕ → (ℕ → Option ℕ) → Option ℕ
more_digits none k = none
more_digits (some d) k = k d

-- The digits of a number in base 16.
unfoldable pub hex_digits : ℕ → Text → Option ℕ
unfolding hex_digit
hex_digits acc [] = some acc
hex_digits acc (c ∷ t) = more_digits (hex_digit c) (λ d. hex_digits (acc * 16 + d) t)

abbrev negated : Option ℕ → Option ℤ
negated none = none
negated (some zero) = some (pos 0)
negated (some (suc n)) = some (negsuc n)

abbrev positive : Option ℕ → Option ℤ
positive none = none
positive (some n) = some (pos n)

-- At least one digit.
abbrev unsigned : Text → Option ℕ
unsigned [] = none
unsigned (c ∷ t) = hex_digits 0 (c ∷ t)

-- `SetString(s, 16)`, with an optional sign
unfoldable pub set_string_16 : Text → Option ℤ
unfolding hex_digits
set_string_16 [] = none
set_string_16 (c ∷ t) = elim (Prim.Native.Nat.compare c 45) [
  | Prim.Native.Nat.Ordering.eq ↦ negated (unsigned t)
  | _ ↦ elim (Prim.Native.Nat.compare c 43) [
    | Prim.Native.Nat.Ordering.eq ↦ positive (unsigned t)
    | _ ↦ positive (unsigned (c ∷ t))
  ]
]

-- A decoded value, an error, a panic, or a search that has not ended.
pub data Decoded {ℓ} (A : Type ℓ) : Type ℓ where
  decoded : A → Decoded A
  refused : Text → Decoded A
  panicked : Decoded A
  running : Decoded A

module _ {A C : Type 0} where
  abbrev pub then_decode : Decoded A → (A → Decoded C) → Decoded C
  then_decode (decoded a) k = k a
  then_decode (refused e) k = refused e
  then_decode panicked k = panicked
  then_decode running k = running

  -- The caller's own error in place of the error.
  abbrev pub or_error : Decoded A → Text → (A → Decoded C) → Decoded C
  or_error (decoded a) e k = k a
  or_error (refused _) e k = refused e
  or_error panicked e k = panicked
  or_error running e k = running

-- `rpbsTypes.EncodedRPBSSignature`
pub record EncodedRpbsSignature : Type 0 where
  pub z1_hat : Text
  pub c1_hat : Text
  pub s1_hat : Text
  pub c2_hat : Text
  pub s2_hat : Text
  pub m1_hat : Text

abbrev scalar : {C : Type 0} → Option ℤ → Text → (ℤ → Decoded C) → Decoded C
scalar none e k = refused e
scalar (some z) e k = k z

module _ (C : Curve) (unmarshal : Text → Option C.Point) where
  abbrev pub unmarshalled : Option C.Point → Decoded C.Point
  unmarshalled none = refused (codes "Unable to unmarshal point from the string")
  unmarshalled (some p) = decoded p

  -- The slice from index 2 panics on fewer than two bytes.
  abbrev from_two : Option Text → Decoded C.Point
  from_two none = refused (codes "Unable to decode hex string")
  from_two (some []) = panicked
  from_two (some (a ∷ [])) = panicked
  from_two (some (a ∷ b ∷ t)) = unmarshalled (unmarshal t)

  unfoldable pub decode_point : Text → Decoded C.Point
  unfolding hex_decode
  decode_point encoded = from_two (hex_decode encoded)

  unfoldable pub decode_rpbs_signature : EncodedRpbsSignature → Decoded (Signature C)
  unfolding decode_point set_string_16
  decode_rpbs_signature s =
      or_error (decode_point s.z1_hat) (codes "Unable to unmarshal z1_hat point from the string")
        λ z1. scalar (set_string_16 s.c1_hat) (codes "Unable to get c1_hat from the string") λ c1.
          scalar (set_string_16 s.s1_hat) (codes "Unable to get s1_hat from the string") λ s1.
            scalar (set_string_16 s.c2_hat) (codes "Unable to get c2_hat from the string") λ c2.
              scalar (set_string_16 s.s2_hat) (codes "Unable to get s2_hat from the string") λ s2.
                or_error (decode_point s.m1_hat)
                  (codes "Unable to unmarshal m1_hat point from the string")
                  λ m1. decoded (record {
                    z1_hat = z1;
                    c1_hat = c1;
                    s1_hat = s1;
                    c2_hat = c2;
                    s2_hat = s2;
                    m1_hat = m1;
                  })

  abbrev verified : Verification → Decoded Bool
  verified (answer b) = decoded b
  verified nil_point = panicked
  verified unfinished = running

  unfoldable pub verify_signature_with_string_input :
      ℕ → Text → Text → EncodedRpbsSignature → Decoded Bool
  unfolding decode_rpbs_signature
  verify_signature_with_string_input fuel service_key info s =
      or_error (decode_point service_key) (codes "Unable to unmarshal point from the string") λ y1.
        or_error (decode_rpbs_signature s) (codes "Unable to decode signature")
          λ signature. verified (verify_signature C fuel y1 info signature)

-- The digit of a value below 16, in lower case.
abbrev pub hex_char : ℕ → ℕ
hex_char d = if leb d 9 then d + 48 else d + 87

abbrev pub hex_encode : Text → Text
hex_encode [] = []
hex_encode (b ∷ t) = hex_char (b / 16) ∷ hex_char (b % 16) ∷ hex_encode t

-- `Verify` of rpbs/rpbs.go, on the wallet address, the slot, the amount, the payout transaction, the
-- service's key and the proof of a bid.
unfoldable pub verify :
    (C : Curve)
    → (Text → Option C.Point)
    → ℕ
    → Text
    → ℕ
    → ℤ
    → Text
    → Text
    → EncodedRpbsSignature
    → Decoded Bool
unfolding verify_signature_with_string_input
verify C unmarshal fuel wallet slot amount transaction service_key s =
    verify_signature_with_string_input C unmarshal fuel service_key
      (to_lower (
        codes "BuilderWalletAddress:"
        ++ wallet
        ++ codes ",Slot:"
        ++ show_ℕ slot
        ++ codes ",Amount:"
        ++ show_ℤ amount
        ++ codes ",Transaction:0x"
        ++ hex_encode transaction))
      s

hex_digit-hex_char : (d : ℕ) → d < 16 → hex_digit (hex_char d) ≡ some d
unfolding hex_digit
hex_digit-hex_char d small = ground arith

-- Decoding what was encoded gives the bytes back.
pub hex_decode-hex_encode : (t : Text) → All (λ b. b < 256) t → hex_decode (hex_encode t) ≡ some t
unfolding hex_decode
hex_decode-hex_encode [] small = refl
hex_decode-hex_encode (b ∷ t) (small, rest) =
    rw
      (
        hex_digit-hex_char (b / 16) (omega (arith, small)),
        hex_digit-hex_char (b % 16) (omega arith),
        hex_decode-hex_encode t rest,
      )
      (let same : b / 16 * 16 + b % 16 ≡ b = omega arith in ap (λ c. some (c ∷ t)) same)

-- Decoding a key or point that is the hexadecimal of bytes panics if they are fewer than two, and
-- else unmarshals what follows the first two.
pub decode_point-hex_encode :
    (C : Curve) (unmarshal : Text → Option C.Point) (t : Text)
    → All (λ b. b < 256) t
    → ((decode_point C unmarshal (hex_encode t) ≡ panicked) × (length t < 2))
      ⊎ ((a : ℕ) × (b : ℕ) × (r : Text) × (t ≡ a ∷ b ∷ r)
          × (decode_point C unmarshal (hex_encode t) ≡ unmarshalled C unmarshal (unmarshal r)))
unfolding decode_point
decode_point-hex_encode C unmarshal [] small = inl (refl, omega arith)
decode_point-hex_encode C unmarshal (a ∷ []) small =
    inl (ap (from_two C unmarshal) (hex_decode-hex_encode (a ∷ []) small), omega arith)
decode_point-hex_encode C unmarshal (a ∷ b ∷ r) small =
    inr (a, b, r, refl, ap (from_two C unmarshal) (hex_decode-hex_encode (a ∷ b ∷ r) small))

-- ===== src/Rpbs/Signature/Total.antt =====
-- `VerifySignature` comes to an answer, whatever the signature.
use proof_relay.Base.{ℕ, ◌≤◌, ◌≡◌, true, ap}
use proof_relay.Text.{Text}
use proof_relay.Rpbs.{FieldLaws, curve_rhs}
use proof_relay.Rpbs.Point.{SquaresLaws, counted, start_of, is_one}
use proof_relay.Rpbs.Point.Found.{bytes_to_point_lem}
use proof_relay.Rpbs.Signature.{Curve, Signature, answer, check_with, with_point, verify_signature}

module _ (C : Curve) (field_laws : FieldLaws C.field) (laws : SquaresLaws C.field C.squares) where
  -- Over a field whose modulus is three more than a multiple of four and that meets the laws,
  -- `VerifySignature` gives an answer for every key and signature, and never reaches the nil point
  -- that it would take from a failed `BytesToPoint`, if one of the numbers from the hash of the
  -- information on, within the fuel, has a square of x^3 + 3. The answer is that of the check
  -- against a point of the curve.
  pub verify_signature-answer :
      (fuel j : ℕ) (y1 : C.Point) (info : Text) (sig : Signature C)
      → j ≤ fuel
      → is_one (
          C.squares.legendre (
            curve_rhs C.field C.squares.three
              (counted C.field C.squares j (start_of C.field C.squares (C.sha_256 info)))))
        ≡ true
      → (x : C.field.Element) × (y : C.field.Element) × (C.field.mul y y
          ≡ curve_rhs C.field C.squares.three x)
        × (verify_signature C fuel y1 info sig ≡ answer (check_with C y1 sig (C.affine x y)))
  unfolding verify_signature
  verify_signature-answer fuel j y1 info sig le square =
      let (x, y, found, curve) =
        bytes_to_point_lem C.field field_laws C.squares laws fuel j (C.sha_256 info) le square in
      (x, y, curve, ap (with_point C y1 sig) found)

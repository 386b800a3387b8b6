-- ===== src/Rpbs/Signature.antt =====
-- `VerifySignature`, `NegateBigInt` and `EncodePoint` (rpbs/types.go) over the group of the curve
-- bn254, which is gnark-crypto's, and over a hash.
pub mod Honest
pub mod Total
use proof_relay.Base.{
  ℕ, suc, ◌+◌, ◌-◌, ◌*◌, ◌%◌, ◌<◌, ◌≡◌, Bool, Option, none, some, List, [], ◌∷◌, ◌++◌, ◌==◌,
}
use proof_relay.Text.{Text}
use proof_relay.Text.Decimal.{ℤ, pos, negsuc}
use proof_relay.Rpbs.{Field}
use proof_relay.Rpbs.Point.{
  Squares, PointResult, point, failed, running, bytes_to_point, from_bytes,
}

-- The points, `ScalarMultiplication`, `Marshal`, SHA-256, and the field of the coordinates with the
-- point that has them.
pub record Curve : Type 1 where
  pub Point : Type 0
  pub generator : Point
  pub identity : Point
  pub add : Point → Point → Point
  pub scalar_multiplication : Point → ℤ → Point
  pub order : ℕ
  pub marshal : Point → Text
  pub sha_256 : Text → Text
  pub field : Field
  pub squares : Squares field
  pub affine : field.Element → field.Element → Point

-- The laws of a group whose order is `order`, as far as they are used.
pub record CurveLaws (C : Curve) : Type 0 where
  pub order_positive : 0 < C.order
  pub add_assoc : (p q r : C.Point) → C.add (C.add p q) r ≡ C.add p (C.add q r)
  pub add_identity : (p : C.Point) → C.add p C.identity ≡ p
  pub scalar_add :
      (p : C.Point) (a b : ℕ)
      → C.scalar_multiplication p (pos (a + b))
        ≡ C.add (C.scalar_multiplication p (pos a)) (C.scalar_multiplication p (pos b))
  pub scalar_mul :
      (p : C.Point) (a b : ℕ)
      → C.scalar_multiplication p (pos (a * b))
        ≡ C.scalar_multiplication (C.scalar_multiplication p (pos b)) (pos a)
  pub scalar_order :
      (p : C.Point) (k : ℕ) → C.scalar_multiplication p (pos (k * C.order)) ≡ C.identity

-- An answer, a panic, or a search that has not ended.
pub data Verification : Type 0 where
  answer : Bool → Verification
  nil_point : Verification
  unfinished : Verification

-- `Signature`
pub record Signature (C : Curve) : Type 0 where
  pub z1_hat : C.Point
  pub c1_hat : ℤ
  pub s1_hat : ℤ
  pub c2_hat : ℤ
  pub s2_hat : ℤ
  pub m1_hat : C.Point

module _ (C : Curve) where
  open C use {Point, add, scalar_multiplication, order}

  -- `fr.Element.SetBigInt`: the residue, for negative numbers too.
  abbrev pub residue : ℤ → ℕ
  residue (pos n) = n % order
  residue (negsuc n) = order - suc (n % order)

  unfoldable pub negate_big_int : ℤ → ℤ
  negate_big_int z = pos ((order - residue z) % order)

  abbrev pub encode_point : Point → Text
  encode_point p = 4 ∷ C.marshal p

  -- `p * s + q * -c`
  unfoldable pub combine : Point → ℤ → Point → ℤ → Point
  unfolding negate_big_int
  combine p s q c = add (scalar_multiplication p s) (scalar_multiplication q (negate_big_int c))

  -- The hash of the keys, the message, the tag, the three combinations and the generator.
  unfoldable pub challenge : Point → Point → Point → Point → Point → Point → Point → ℕ
  challenge y1 y2 m z a b c =
      from_bytes 0 (
        C.sha_256 (
          encode_point y1
          ++ encode_point y2
          ++ encode_point m
          ++ encode_point z
          ++ encode_point a
          ++ encode_point b
          ++ encode_point c
          ++ encode_point C.generator))
      % order

  abbrev pub check_with : Point → Signature C → Point → Bool
  check_with y1 sig y2 =
      (residue sig.c1_hat * residue sig.c2_hat) % order
      == challenge y1 y2 sig.m1_hat sig.z1_hat (combine C.generator sig.s1_hat y1 sig.c1_hat)
          (combine sig.m1_hat sig.s1_hat sig.z1_hat sig.c1_hat)
          (combine C.generator sig.s2_hat y2 sig.c2_hat)

  -- The error of `BytesToPoint` is not looked at: the point is nil beside it, and is encoded.
  abbrev pub with_point : Point → Signature C → PointResult C.field → Verification
  with_point y1 sig (point x y) = answer (check_with y1 sig (C.affine x y))
  with_point y1 sig (failed e) = nil_point
  with_point y1 sig running = unfinished

  -- `VerifySignature`, with fuel for the searches of `BytesToPoint`.
  unfoldable pub verify_signature : ℕ → Point → Text → Signature C → Verification
  unfolding combine challenge
  verify_signature fuel y1 info sig =
      with_point y1 sig (bytes_to_point C.field C.squares fuel (C.sha_256 info))

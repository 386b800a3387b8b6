-- ===== src/Tests/Bls.antt =====
-- A scheme whose points are numbers: a key is its secret, and a signature is the secret too.
use proof_relay.Base.{
  ℕ, zero, suc, ◌≡◌, refl, true, Option, none, some, [], ◌∷◌, ◌==◌, ==_refl, ◌⊎◌,
}
use proof_relay.Text.{Text, codes}
use proof_relay.Beacon.{answer, failure}
use proof_relay.Bls.{
  Blst, BlstLaws, sign, verify_signature, verify_signature_bytes, public_key_from_secret_key,
}
use proof_relay.Bls.Signed.{
  IsKey, IsSignature, verify_signature_bytes_lem, verify_signature_bytes-sign,
}

abbrev pub repeated : ℕ → ℕ → Text
repeated zero n = []
repeated (suc k) n = n ∷ repeated k n

abbrev head : Text → Option ℕ
head [] = none
head (n ∷ t) = some n

abbrev pub scheme : Blst
scheme = record {
  P1Affine = ℕ;
  P2Affine = ℕ;
  SecretKey = ℕ;
  uncompress_p1 = head;
  compress_p1 = repeated 48;
  key_validate = λ k. true;
  uncompress_p2 = head;
  compress_p2 = repeated 96;
  sig_validate = λ s. true;
  deserialize = head;
  from = λ k. k;
  sign_with = λ k m t. k;
  verify_with = λ s k m t. s == k;
}

pub scheme_laws : BlstLaws scheme
scheme_laws = record {
  length_p1 = λ k. refl;
  length_p2 = λ s. refl;
  read_p1 = λ k. refl;
  read_p2 = λ s. refl;
  from_valid = λ k. refl;
  sign_valid = λ k m t. refl;
  verify_sign = λ k m t. ==_refl k;
}

verify_own_run :
    verify_signature_bytes scheme
      (codes "root")
      (scheme.compress_p2 (sign scheme 7 (codes "root")))
      (scheme.compress_p1 (public_key_from_secret_key scheme 7))
    ≡ answer true
verify_own_run = verify_signature_bytes-sign scheme scheme_laws 7 (codes "root")

verify_bytes_run :
    ((sig : ℕ) × (pk : ℕ) × IsSignature scheme (repeated 96 7) sig
      × IsKey scheme (repeated 48 8) pk
      × (verify_signature_bytes scheme (codes "root") (repeated 96 7) (repeated 48 8)
          ≡ answer (verify_signature scheme sig pk (codes "root"))))
    ⊎ ((e : Text) × (verify_signature_bytes scheme (codes "root") (repeated 96 7) (repeated 48 8)
          ≡ failure e))
verify_bytes_run = verify_signature_bytes_lem scheme (codes "root") (repeated 96 7) (repeated 48 8)

-- ===== src/Signing/Messages.antt =====
-- SignMessage and VerifySignature (signing/fastssz.go) fit together.
use proof_relay.Base.{ℕ, ◌≡◌, refl, sym, ap, ◌∙◌, true, inl, inr, ◌++◌, length, take, arith, ◌-◌}
use mathlib.Core.List.{append-nil}
use proof_relay.Text.{Text}
use proof_relay.Beacon.{Reply, answer, failure}
use proof_relay.Bls
use proof_relay.Bls.{
  Blst, verify_signature_bytes, BlstLaws, copy_into, zeros, sign, public_key_from_secret_key,
}
use proof_relay.Bls.Signed.{
  IsKey, IsSignature, verify_signature_bytes_lem, verify_signature_bytes-sign,
}
use proof_relay.Beacon.FirstAnswer.{Reply-cases}
use proof_relay.Signing.{
  Hashing, signing_data_chunks, compute_signing_root, sign_message, verify_signature, verified_with,
  signed_with,
}
use proof_relay.Signing.Encoding.{take_all}

-- An array of as many bytes as there are is filled by them.
pub copy_into_all : (n : ℕ) (t : Text) → length t ≡ n → copy_into n t ≡ t
copy_into_all n t size =
    let none_left : n - length t ≡ 0 = omega (arith, size) in
    ap (λ k. take n t ++ zeros k) none_left
    ∙ append-nil (take n t)
    ∙ take_all n t (omega (arith, size))

module _ (H : Hashing) (B : Blst) where
  -- Under the laws of blst: when the hash tree root of an object and the one of its signing data are
  -- given, `SignMessage` gives a signature with a secret key, and `VerifySignature` accepts that
  -- signature of the same object and domain against the compressed public key of the secret.
  pub verify_signature-sign_message :
      (laws : BlstLaws B) (obj d msg : Text) (sk : B.SecretKey)
      → H.merkleize (signing_data_chunks (record { root = obj; domain = d })) ≡ answer msg
      → (sig : Text) × (sign_message H B (answer obj) d sk ≡ answer sig)
        × (verify_signature H B (answer obj) d (B.compress_p1 (public_key_from_secret_key B sk)) sig
            ≡ answer true)
  unfolding sign_message verify_signature compute_signing_root
  verify_signature-sign_message laws obj d msg sk root =
      let sig = B.compress_p2 (sign B sk msg) in
      (
        sig,
        ap (signed_with H B sk) root
            ∙ ap answer (copy_into_all 96 sig (laws.length_p2 (sign B sk msg))),
        ap (verified_with H B (B.compress_p1 (B.from sk)) sig) root
            ∙ verify_signature_bytes-sign B laws sk msg,
      )

  -- Where `VerifySignature` accepts, the object has a root, its signing data has a root, the signature
  -- and the key are valid encodings of points, and the signature verifies for that root.
  pub verify_signature_lem :
      (obj : Reply Text) (d pk_bytes sig_bytes : Text)
      → verify_signature H B obj d pk_bytes sig_bytes ≡ answer true
      → (root msg : Text) × (sig : B.P2Affine) × (pk : B.P1Affine) × (obj ≡ answer root)
        × (H.merkleize (signing_data_chunks (record { root = root; domain = d })) ≡ answer msg)
        × IsSignature B sig_bytes sig
        × IsKey B pk_bytes pk
        × (Bls.verify_signature B sig pk msg ≡ true)
  unfolding verify_signature compute_signing_root
  verify_signature_lem (failure f) d pk_bytes sig_bytes e = absurd (cc e)
  verify_signature_lem (answer root) d pk_bytes sig_bytes e =
      elim (Reply-cases (H.merkleize (signing_data_chunks (record { root = root; domain = d })))) [
        | inr (f, bad) ↦ absurd (cc (ap (verified_with H B pk_bytes sig_bytes) bad, e))
        | inl (msg, hashed) ↦
            let given : verify_signature_bytes B msg sig_bytes pk_bytes ≡ answer true =
              sym (ap (verified_with H B pk_bytes sig_bytes) hashed) ∙ e in
            elim (verify_signature_bytes_lem B msg sig_bytes pk_bytes) [
              | inr (f, bad) ↦ absurd (cc (given, bad))
              | inl (sig, pk, is_signature, is_key, shown) ↦
                  let holds : Bls.verify_signature B sig pk msg ≡ true = cc (given, shown) in
                  (root, msg, sig, pk, refl, hashed, is_signature, is_key, holds)
            ]
      ]

-- ===== src/Bls/Signed.antt =====
-- Which signatures `VerifySignatureBytes` accepts.
use proof_relay.Base.{
  ◌≡◌, refl, ap, ◌∙◌, true, some, Option-cases, Bool-cases, inl, inr, ◌⊎◌, length, ◌==◌, ==_iff,
}
use proof_relay.Text.{Text, codes}
use proof_relay.Beacon.{answer, failure}
use proof_relay.Bls.{
  Blst, BlstLaws, dst, public_key_from_bytes, signature_from_bytes, public_key_from_secret_key,
  sign, verify_signature, verify_signature_bytes, with_key, with_signature,
}

module _ (B : Blst) where
  abbrev pub IsKey : Text → B.P1Affine → Type 0
  IsKey bytes pk =
      (length bytes ≡ 48) × (B.uncompress_p1 bytes ≡ some pk) × (B.key_validate pk ≡ true)

  abbrev pub IsSignature : Text → B.P2Affine → Type 0
  IsSignature bytes sig =
      (length bytes ≡ 96) × (B.uncompress_p2 bytes ≡ some sig) × (B.sig_validate sig ≡ true)

  Key-cases :
      (bytes : Text)
      → ((pk : B.P1Affine) × (public_key_from_bytes B bytes ≡ answer pk) × IsKey bytes pk)
        ⊎ ((e : Text) × (public_key_from_bytes B bytes ≡ failure e))
  unfolding public_key_from_bytes
  Key-cases bytes = elim (Bool-cases (length bytes == 48)) [
    | inr wrong ↦ inr (codes "invalid pubkey length", rw wrong refl)
    | inl right ↦ elim (Option-cases (B.uncompress_p1 bytes)) [
      | inl nil ↦ inr (codes "could not uncompress public key from bytes", rw (right, nil) refl)
      | inr (pk, read) ↦ elim (Bool-cases (B.key_validate pk)) [
        | inr bad ↦ inr (codes "invalid pubkey", rw (right, read, bad) refl)
        | inl valid ↦
            inl
              (pk, rw (right, read, valid) refl, ((==_iff (length bytes) 48).0 right, read, valid))
      ]
    ]
  ]

  Signature-cases :
      (bytes : Text)
      → ((sig : B.P2Affine) × (signature_from_bytes B bytes ≡ answer sig) × IsSignature bytes sig)
        ⊎ ((e : Text) × (signature_from_bytes B bytes ≡ failure e))
  unfolding signature_from_bytes
  Signature-cases bytes = elim (Bool-cases (length bytes == 96)) [
    | inr wrong ↦ inr (codes "invalid signature length", rw wrong refl)
    | inl right ↦ elim (Option-cases (B.uncompress_p2 bytes)) [
      | inl nil ↦ inr (codes "could not uncompress signature from bytes", rw (right, nil) refl)
      | inr (sig, read) ↦ elim (Bool-cases (B.sig_validate sig)) [
        | inr bad ↦ inr (codes "invalid signature", rw (right, read, bad) refl)
        | inl valid ↦
            inl
              (sig, rw (right, read, valid) refl, ((==_iff (length bytes) 96).0 right, read, valid))
      ]
    ]
  ]

  -- `VerifySignatureBytes` gives an error, or its answer is whether the signature verifies, for a
  -- signature of 96 bytes and a key of 48 that both uncompress and are valid.
  pub verify_signature_bytes_lem :
      (msg sig_bytes pk_bytes : Text)
      → ((sig : B.P2Affine) × (pk : B.P1Affine) × IsSignature sig_bytes sig
          × IsKey pk_bytes pk
          × (verify_signature_bytes B msg sig_bytes pk_bytes
              ≡ answer (verify_signature B sig pk msg)))
        ⊎ ((e : Text) × (verify_signature_bytes B msg sig_bytes pk_bytes ≡ failure e))
  unfolding verify_signature_bytes
  verify_signature_bytes_lem msg sig_bytes pk_bytes = elim (Signature-cases sig_bytes) [
    | inr (e, bad) ↦ inr (e, ap (with_signature B msg pk_bytes) bad)
    | inl (sig, read, is_signature) ↦ elim (Key-cases pk_bytes) [
      | inr (e, bad) ↦
          inr (e, ap (with_signature B msg pk_bytes) read ∙ ap (with_key B msg sig) bad)
      | inl (pk, found, is_key) ↦ inl (
        sig,
        pk,
        is_signature,
        is_key,
        ap (with_signature B msg pk_bytes) read ∙ ap (with_key B msg sig) found,
      )
    ]
  ]

  -- Under the laws of blst, `VerifySignatureBytes` accepts the bytes of what `Sign` makes of a message
  -- with a secret key, against the bytes of that secret's public key.
  pub verify_signature_bytes-sign :
      (laws : BlstLaws B) (sk : B.SecretKey) (msg : Text)
      → verify_signature_bytes B msg
          (B.compress_p2 (sign B sk msg))
          (B.compress_p1 (public_key_from_secret_key B sk))
        ≡ answer true
  unfolding verify_signature_bytes public_key_from_bytes signature_from_bytes
  verify_signature_bytes-sign laws sk msg =
      let sig = sign B sk msg in
      let pk = B.from sk in
      rw
        (
          laws.length_p2 sig,
          laws.read_p2 sig,
          laws.sign_valid sk msg dst,
          laws.length_p1 pk,
          laws.read_p1 pk,
          laws.from_valid sk,
          laws.verify_sign sk msg dst,
        )
        refl

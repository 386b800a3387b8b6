-- ===== src/Signing/Domains.antt =====
-- What a domain (signing/fastssz.go) keeps of the type that it was made for.
use proof_relay.Base.{
  ◌≡◌, refl, ap, ◌∙◌, ◌++◌, List, length, take, arith, length-append, length-take, Bool-cases, inl,
  inr, ==_iff, ◌==◌, ◌⊎◌,
}
use proof_relay.Text.{Text, codes}
use proof_relay.Beacon.{answer, failure}
use proof_relay.Beacon.FirstAnswer.{Reply-cases}
use proof_relay.Signing.{
  Hashing, compute_ssz_domain, compute_domain, root_or_zero, fork_data_chunks,
}
use proof_relay.Signing.Encoding.{take-append}

-- What fastssz gives as a root: 32 bytes.
pub record HashingLaws (H : Hashing) : Type 0 where
  pub length_root :
      (chunks : List Text) (root : Text) → H.merkleize chunks ≡ answer root → length root ≡ 32

module _ (H : Hashing) where
  compute_domain-cases :
      (dt version root : Text)
      → ((v : Text) × (H.hexutil_decode version ≡ answer v)
          × (length v ≡ 4)
          × (compute_domain H dt version root
              ≡ answer (compute_ssz_domain H dt v (H.hex_to_hash root))))
        ⊎ (compute_domain H dt version root ≡ failure (codes "Wrong Fork Version"))
  unfolding compute_domain compute_ssz_domain
  compute_domain-cases dt version root = elim (Reply-cases (H.hexutil_decode version)) [
    | inr (e, bad) ↦ inr (rw bad refl)
    | inl (v, read) ↦ elim (Bool-cases (length v == 4)) [
      | inr wrong ↦ inr (rw (read, wrong) refl)
      | inl right ↦ inl (v, read, (==_iff (length v) 4).0 right, rw (read, right) refl)
    ]
  ]

  root_or_zero-length :
      HashingLaws H → (chunks : List Text) → length (root_or_zero (H.merkleize chunks)) ≡ 32
  root_or_zero-length laws chunks = elim (Reply-cases (H.merkleize chunks)) [
    | inr (e, bad) ↦ rw bad refl
    | inl (r, read) ↦ rw read (laws.length_root chunks r read)
  ]

  -- A domain that `ComputeDomain` gives has 32 bytes, of which the first four are the type's, when the
  -- type has four and the roots have 32.
  pub compute_domain-answer :
      (laws : HashingLaws H) (dt version root d : Text)
      → length dt ≡ 4
      → compute_domain H dt version root ≡ answer d
      → (length d ≡ 32) × (take 4 d ≡ dt)
  unfolding compute_ssz_domain
  compute_domain-answer laws dt version root d four e =
      elim (compute_domain-cases dt version root) [
        | inr bad ↦ absurd (cc (e, bad))
        | inl (v, read, size, made) ↦
            let chunks =
              fork_data_chunks
                (record { current_version = v; genesis_validators_root = H.hex_to_hash root }) in
            let tail : Text = take 28 (root_or_zero (H.merkleize chunks)) in
            let same : d ≡ dt ++ tail = cc (e, made) in
            let size : length tail ≡ 28 =
              length-take 28 (root_or_zero (H.merkleize chunks))
              ∙ omega (arith, root_or_zero-length laws chunks) in
            (
              ap length same ∙ length-append dt tail ∙ omega (arith, four, size),
              ap (take 4) same ∙ take-append 4 dt tail four,
            )
      ]

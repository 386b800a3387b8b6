-- ===== src/Relay/Signed.antt =====
-- Whoever has the relay's public key can check the bids that it signs (relay/utils.go), and what the
-- check of a proposer's signature (relay/relay.go) amounts to.
use proof_relay.Base.{ok, inl, inr, ◌⊎◌, ◌≡◌, ap, ◌∙◌, true}
use proof_relay.Text.{Text}
use proof_relay.Beacon.{Reply, answer}
use proof_relay.Bls
use proof_relay.Bls.Signed.{IsKey, IsSignature}
use proof_relay.Bls.{BlstLaws, public_key_from_secret_key, relay_bls_pub_key}
use proof_relay.Signing.{signing_data_chunks, sign_message, verify_signature}
use proof_relay.Signing.Messages.{
  copy_into_all, verify_signature-sign_message, verify_signature_lem,
}
use proof_relay.Bids.{Board, GetPayloadUtils, payload_utils}
use proof_relay.Relay.Submit.{Block}
use proof_relay.Relay.{Outside, BlindedBlock, RelayState}
use proof_relay.Relay.Payload.{verify_payload, validator_index_to_pubkey, handle_proposer_payload}
use proof_relay.Relay.Steps.{Stops}
use proof_relay.Relay.Release.{payload_checked}
use proof_relay.Relay.Bid.{signed_with_key, signed_builder_bid}

module _ {B : Board} (E : Outside B) where
  abbrev pub own_key : Text
  own_key = relay_bls_pub_key E.blst (public_key_from_secret_key E.blst E.bls_sk)

  abbrev pub root_of_bid : Block B E → Reply Text
  root_of_bid b = E.bid_root b.value own_key b.execution_payload_header

  -- Under the laws of blst: when the hash tree roots of the bid to sign and of its signing data are
  -- given, `SignedBuilderBid` gives the bid with the value and the header of the builder's bid and the
  -- relay's public key, and a signature that `VerifySignature` accepts for it under that key in the
  -- domain of builders.
  pub signed_builder_bid_lem :
      (laws : BlstLaws E.blst) (b : Block B E) (root msg : Text)
      → root_of_bid b ≡ answer root
      → E.hashing.merkleize
          (signing_data_chunks (record { root = root; domain = E.network.domain_builder }))
        ≡ answer msg
      → (signature : Text) × (signed_builder_bid B E b
          ≡ answer (E.signed_bid b.value own_key b.execution_payload_header signature))
        × (verify_signature E.hashing E.blst
              (root_of_bid b)
              E.network.domain_builder
              own_key
              signature
            ≡ answer true)
  unfolding signed_builder_bid
  signed_builder_bid_lem laws b root msg given hashed =
      let pk = public_key_from_secret_key E.blst E.bls_sk in
      let (signature, made, accepted) =
        verify_signature-sign_message E.hashing E.blst laws root E.network.domain_builder msg
          E.bls_sk hashed in
      let key : own_key ≡ E.blst.compress_p1 pk = copy_into_all 48 _ (laws.length_p1 pk) in
      (
        signature,
        ap (signed_with_key B E b own_key) (
            ap (λ r. sign_message E.hashing E.blst r E.network.domain_builder E.bls_sk) given
            ∙ made),
        ap (λ r. verify_signature E.hashing E.blst r E.network.domain_builder own_key signature)
              given
            ∙ ap
                (λ k.
                  verify_signature E.hashing E.blst (answer root) E.network.domain_builder k
                    signature)
                key
            ∙ accepted,
      )

-- What it means that the block of a request is signed: its message has a root, and the signature of 96
-- bytes and the key of 48 are points of which blst verifies the one for the signing root under the other.
pub record IsSigned {B : Board} (E : Outside B) (payload : E.Blinded) (version : Text)
    (block : BlindedBlock) (key : Text) : Type 0 where
  pub root : Text
  pub root_of : E.blinded_root version payload ≡ answer root
  pub message : Text
  pub message_of :
      E.hashing.merkleize
        (signing_data_chunks (record { root = root; domain = E.network.domain_beacon_capella }))
      ≡ answer message
  pub signature : E.blst.P2Affine
  pub is_signature : IsSignature E.blst block.signature_bytes signature
  pub public_key : E.blst.P1Affine
  pub is_key : IsKey E.blst key public_key
  pub verified : Bls.verify_signature E.blst signature public_key message ≡ true

module _ {B : Board} {E : Outside B} where
  IsSigned-verify_payload :
      (payload : E.Blinded) (version : Text) (block : BlindedBlock) (key : Text)
      → verify_payload B E version payload block key ≡ answer true
      → IsSigned E payload version block key
  unfolding verify_payload
  IsSigned-verify_payload payload version block key e =
      let (
        root, message, signature, public_key, root_of, message_of, is_signature, is_key, verified,
      ) =
        verify_signature_lem E.hashing E.blst (E.blinded_root version payload)
          E.network.domain_beacon_capella key block.signature_bytes e in
      record {
        root = root;
        root_of = root_of;
        message = message;
        message_of = message_of;
        signature = signature;
        is_signature = is_signature;
        public_key = public_key;
        is_key = is_key;
        verified = verified;
      }

  -- A request for a payload is refused, with board and database as they are, unless blst verifies the
  -- signature of its block, under the domain of beacon blocks, with the key that the relay knows for the
  -- block's proposer, and the board has a builder's entry for the block.
  pub payload-IsSigned :
      (payload : E.Blinded) (s : RelayState E)
      → ((version key : Text) × (block : BlindedBlock) × (entry : GetPayloadUtils B.PayloadHeader)
          × (E.to_base_blinded payload ≡ answer block)
          × (validator_index_to_pubkey B E block.proposer_index s.validator_index_pubkey
              ≡ answer key)
          × IsSigned E payload version block key
          × (payload_utils B block.slot block.block_hash s.board ≡ ok entry))
        ⊎ Stops (handle_proposer_payload B E (answer payload)) s
  payload-IsSigned payload s = elim (payload_checked payload s) [
    | inr stops ↦ inr stops
    | inl all ↦ inl (
      all.version,
      all.proposer,
      all.block,
      all.entry,
      all.unpacked,
      all.known_key,
      IsSigned-verify_payload payload all.version all.block all.proposer all.signed,
      all.stored,
    )
  ]

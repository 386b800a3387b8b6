-- ===== src/Relay/Bid.antt =====
-- `SanityBuilderBlock` and `SignedBuilderBid` (relay/utils.go): what is checked of a bid, and what is
-- signed of it.
use proof_relay.Base.{◌&&◌, Option, none, some, ◌++◌, if◌then◌else◌}
use proof_relay.Text.{Text, codes, text_eq}
use proof_relay.Beacon.{Reply, answer, failure}
use proof_relay.Bls.{relay_bls_pub_key, public_key_from_secret_key}
use proof_relay.Signing.{sign_message}
use proof_relay.Bids.{Board}
use proof_relay.Relay.{BuilderBlockBid, Outside}

module _ (B : Board) (E : Outside B) where
  -- `SanityBuilderBlock`: its error, `none` for `nil`.
  unfoldable pub sanity_builder_block : BuilderBlockBid B.PayloadHeader → Option Text
  sanity_builder_block b = elim (E.to_base_header b.execution_payload_header) [
    | failure e ↦ some (
        codes
          "could not convert versioned execution payload header to base execution payload header: "
        ++ e)
    | answer base ↦
        if text_eq b.block_hash base.block_hash && text_eq b.parent_hash base.parent_hash
        then none
        else some (codes "Block Hash Wrong")
  ]

  abbrev pub signed_with_key :
      BuilderBlockBid B.PayloadHeader → Text → Reply Text → Reply B.SignedBid
  signed_with_key b public_key (failure e) = failure e
  signed_with_key b public_key (answer signature) =
      answer (E.signed_bid b.value public_key b.execution_payload_header signature)

  -- `SignedBuilderBid`: the relay signs the value and the header of the bid.
  unfoldable pub signed_builder_bid : BuilderBlockBid B.PayloadHeader → Reply B.SignedBid
  unfolding sign_message
  signed_builder_bid b =
      let public_key = relay_bls_pub_key E.blst (public_key_from_secret_key E.blst E.bls_sk) in
      signed_with_key b public_key (
        sign_message E.hashing E.blst (E.bid_root b.value public_key b.execution_payload_header)
          E.network.domain_builder E.bls_sk)

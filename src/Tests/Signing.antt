-- ===== src/Tests/Signing.antt =====
-- The signatures of the concrete relay, the encodings, and the domains of a network.
use proof_relay.Base.{ok, ℕ, ◌≡◌, ◌↔◌, refl, sym, ap, true, [], ◌∷◌, ◌++◌, length, ◌⊎◌}
use proof_relay.Text.{Text, codes}
use proof_relay.Beacon.{answer}
use proof_relay.Bls
use proof_relay.Bls.{verify_signature_bytes}
use proof_relay.Bls.Signed.{IsKey, IsSignature}
use proof_relay.Signing.{
  SigningData, unmarshal_signing_data, marshal_signing_data_to, signing_data_chunks,
  verify_signature,
}
use proof_relay.Signing.Encoding.{unmarshal_signing_data_lem}
use proof_relay.Signing.Messages.{verify_signature_lem}
use proof_relay.Signing.Domains.{HashingLaws}
use proof_relay.Relay.Network.{GenesisData, EthNetwork, empty_network, new_eth_network_details}
use proof_relay.Relay.Network.Distinct.{IsKnown, HasDomains, new_eth_network_details_lem}
use proof_relay.Relay.Bid.{signed_builder_bid}
use proof_relay.Bids.{GetPayloadUtils, payload_utils}
use proof_relay.Relay.{BlindedBlock}
use proof_relay.Relay.Steps.{Stops}
use proof_relay.Relay.Payload.{validator_index_to_pubkey, handle_proposer_payload}
use proof_relay.Relay.Signed.{
  IsSigned, payload-IsSigned, own_key, root_of_bid, signed_builder_bid_lem,
}
use proof_relay.Tests.Bls.{scheme, scheme_laws, repeated}
use proof_relay.Tests.Fixture.{board}
use proof_relay.Tests.Site.{hashing, outside, bid, relay_with, start}

hashing_laws : HashingLaws hashing
hashing_laws = record {
  length_root = λ chunks root e. let same : repeated 32 1 ≡ root = cc e in sym (ap length same);
}

abbrev signing_data : SigningData
signing_data = record { root = repeated 32 1; domain = repeated 32 2 }

unmarshal_signing_data_lem_example :
    (unmarshal_signing_data (repeated 32 1 ++ repeated 32 2) ≡ answer signing_data) ↔ (
      (marshal_signing_data_to [] signing_data ≡ repeated 32 1 ++ repeated 32 2)
      × (length (repeated 32 1) ≡ 32)
      × (length (repeated 32 2) ≡ 32))
unmarshal_signing_data_lem_example =
    unmarshal_signing_data_lem (repeated 32 1 ++ repeated 32 2) signing_data

signed_builder_bid_lem_example :
    (signature : Text) × (signed_builder_bid board outside bid
      ≡ answer
          (outside.signed_bid bid.value (own_key outside) bid.execution_payload_header signature))
    × (verify_signature hashing scheme
          (root_of_bid outside bid)
          (codes "builder")
          (own_key outside)
          signature
        ≡ answer true)
signed_builder_bid_lem_example =
    signed_builder_bid_lem outside scheme_laws bid (codes "bid") (repeated 32 1) refl refl

accepted :
    verify_signature hashing scheme
      (answer (codes "block"))
      (codes "capella")
      (repeated 48 7)
      (repeated 96 7)
    ≡ answer true
unfolding verify_signature verify_signature_bytes
accepted = refl

verify_signature_run :
    (root msg : Text) × (sig : ℕ) × (pk : ℕ) × (answer (codes "block") ≡ answer root)
    × (hashing.merkleize (signing_data_chunks (record { root = root; domain = codes "capella" }))
        ≡ answer msg)
    × IsSignature scheme (repeated 96 7) sig
    × IsKey scheme (repeated 48 7) pk
    × (Bls.verify_signature scheme sig pk msg ≡ true)
verify_signature_run =
    verify_signature_lem hashing scheme (answer (codes "block")) (codes "capella") (repeated 48 7)
      (repeated 96 7) accepted

abbrev genesis : GenesisData
genesis = record {
  genesis_time = 1616508000;
  genesis_validators_root = codes "0x043d";
  genesis_fork_version = codes "0x00001020";
}

abbrev goerli_network : EthNetwork
goerli_network = record {
  network = 5;
  genesis_time = 1616508000;
  domain_builder = 0 ∷ 0 ∷ 0 ∷ 1 ∷ repeated 28 1;
  domain_beacon_capella = 0 ∷ 0 ∷ 0 ∷ 0 ∷ repeated 28 1;
}

goerli_details :
    new_eth_network_details hashing (codes "Goerli") (answer genesis) ≡ answer goerli_network
unfolding new_eth_network_details
goerli_details = refl

-- The name is compared with its case.
goerli_lower_details :
    new_eth_network_details hashing (codes "goerli") (answer genesis) ≡ answer empty_network
unfolding new_eth_network_details
goerli_lower_details = refl

new_eth_network_details_lem_example :
    (IsKnown (codes "Goerli") 5 × HasDomains genesis goerli_network)
    ⊎ (((n : ℕ) → IsKnown (codes "Goerli") n → ⊥) × (goerli_network ≡ empty_network))
new_eth_network_details_lem_example =
    new_eth_network_details_lem hashing hashing_laws (codes "Goerli") genesis goerli_network
      goerli_details

payload-IsSigned_example :
    ((version key : Text) × (block : BlindedBlock) × (entry : GetPayloadUtils ℕ)
      × (outside.to_base_blinded 3 ≡ answer block)
      × (validator_index_to_pubkey board outside block.proposer_index ((5, codes "0xcc") ∷ [])
          ≡ answer key)
      × IsSigned outside 3 version block key
      × (payload_utils board block.slot block.block_hash start ≡ ok entry))
    ⊎ Stops (handle_proposer_payload board outside (answer 3)) (relay_with start)
payload-IsSigned_example = payload-IsSigned 3 (relay_with start)

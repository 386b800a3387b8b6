-- ===== src/Beacon/Attributes.antt =====
-- `GetPayloadAttributesForSlot` of beaconinterface/multiclient.go.
use proof_relay.Base.{ℕ, Option, none, some}
use proof_relay.Text.{Text, codes}
use proof_relay.Map.{lookup, insert, nat_key, text_key}
use proof_relay.Beacon.{
  BeaconTypes, ProposerDutyData, BlockHeaderData, PayloadAttributesEventData, Nodes,
}
use proof_relay.Beacon.Head.{sub64}
use proof_relay.Beacon.Fetch.{
  Returned, MultiBeaconClient, get_withdrawals, randao, get_block_header,
}
use proof_relay.Beacon.Duties.{get_slot_proposer, set_data}

-- How a call of `GetPayloadAttributesForSlot` ends: `panicked` is a read through a nil pointer.
pub data Attributes (T : BeaconTypes) : Type 0 where
  known : PayloadAttributesEventData T → Attributes T
  refused : Text → Attributes T
  panicked : Attributes T

module _ {T : BeaconTypes} (N : Nodes T) where
  abbrev State : Type 0
  State = MultiBeaconClient T

  -- `if err != nil { return nil, err }`; a nil pointer goes on.
  abbrev checked :
      {A : Type 0}
      → (State → Returned A × State)
      → (Option A → State → Attributes T × State)
      → State
      → Attributes T × State
  checked m k b = let (r, b') = m b in elim r.1 [ some e ↦ (refused e, b') | none ↦ k r.0 b' ]

  -- A nil `withdrawals` is replaced by an empty one.
  abbrev some_withdrawals : Option (Option T.Withdrawals) → T.Withdrawals
  some_withdrawals none = T.no_withdrawals
  some_withdrawals (some none) = T.no_withdrawals
  some_withdrawals (some (some w)) = w

  -- The attributes that are built and stored.
  unfoldable pub build_attributes :
      ℕ
      → Option ProposerDutyData
      → Option BlockHeaderData
      → Option T.Hash
      → T.Withdrawals
      → Option (PayloadAttributesEventData T)
  build_attributes slot (some proposer) (some header) (some hash) w = some (record {
    proposer_index = proposer.index;
    proposal_slot = slot;
    parent_block_root = header.state_root;
    parent_block_hash = header.root;
    withdrawals = w;
    prev_randao = T.hash_string hash;
  })
  build_attributes slot _ _ _ w = none

  -- The attributes are stored, and then `found`, which is still false, is tested again.
  abbrev store_attributes : ℕ → Option (PayloadAttributesEventData T) → State → Attributes T × State
  store_attributes slot none b = (panicked, b)
  store_attributes slot (some a) b = (
    refused (codes "failed to find payload attributes"),
    set_data
        (record b.beacon_data {
          slot_payload_attributes_map = insert slot a b.beacon_data.slot_payload_attributes_map;
        })
        b,
  )

  -- The branch for a slot that is not in the map.
  unfoldable pub derive_attributes : ℕ → State → Attributes T × State
  unfolding build_attributes
  derive_attributes slot = checked (get_slot_proposer N slot) λ proposer.
      checked (get_block_header N (sub64 slot 1)) λ header.
        checked (randao N (sub64 slot 1)) λ hash. checked (get_withdrawals N slot) λ w.
          store_attributes slot (build_attributes slot proposer header hash (some_withdrawals w))

  unfoldable pub get_payload_attributes_for_slot : ℕ → State → Attributes T × State
  unfolding derive_attributes
  get_payload_attributes_for_slot slot b =
      elim (lookup slot b.beacon_data.slot_payload_attributes_map) [
        | some a ↦ (known a, b)
        | none ↦ derive_attributes slot b
      ]

-- ===== src/Beacon.antt =====
-- The data of the beacon interface (beaconinterface/multiclient.go, beaconinterface/data/data.go,
-- beaconinterface/client/interface.go).
pub mod Performance
pub mod Order
pub mod Fetch
pub mod FirstAnswer
pub mod Head
pub mod Duties
pub mod Attributes
pub mod Publish
pub mod Alive
pub mod Node
use proof_relay.Base.{ℕ, Bool, Option, none, some, List, [], Result}
use proof_relay.Text.{Text}
use proof_relay.Map.{Map}

-- `beaconTypes.SyncStatusData`
pub record SyncStatusData : Type 0 where
  pub head_slot : ℕ
  pub is_syncing : Bool

-- Durations and times are in nanoseconds. `sync_status` is a pointer: `none` is `nil`.
pub record BeaconClient : Type 0 where
  pub node : ℕ
  pub node_speed : ℕ
  pub last_used_time : ℕ
  pub last_response_status : ℕ
  pub sync_status : Option SyncStatusData

-- `(value, err)`: an answer, or an error with its text.
pub data Reply {ℓ} (A : Type ℓ) : Type ℓ where
  answer : A → Reply A
  failure : Text → Reply A

-- The types of `pon-golang-types/beaconclient` that are only passed on.
pub record BeaconTypes : Type 1 where
  pub HeadEventData : Type 0
  pub head_slot : HeadEventData → ℕ
  pub Hash : Type 0
  pub hash_string : Hash → Text
  pub GenesisData : Type 0
  pub Withdrawals : Type 0
  pub no_withdrawals : Withdrawals
  pub ValidatorData : Type 0
  pub validator_pubkey : ValidatorData → Text
  pub validator_index : ValidatorData → ℕ

-- `beaconTypes.ProposerDutyData`
pub record ProposerDutyData : Type 0 where
  pub pubkey : Text
  pub index : ℕ
  pub slot : ℕ

-- `beaconTypes.BlockHeaderData`, the fields that are read
pub record BlockHeaderData : Type 0 where
  pub root : Text
  pub state_root : Text

-- `beaconTypes.PayloadAttributes` and `PayloadAttributesEventData`
pub record PayloadAttributesEventData (T : BeaconTypes) : Type 0 where
  pub proposer_index : ℕ
  pub proposal_slot : ℕ
  pub parent_block_root : Text
  pub parent_block_hash : Text
  pub withdrawals : T.Withdrawals
  pub prev_randao : Text

pub record BeaconData (T : BeaconTypes) : Type 0 where
  pub current_slot : ℕ
  pub current_epoch : ℕ
  pub current_fork_version : Text
  pub current_head : Option T.HeadEventData
  pub randao_map : Map ℕ T.Hash
  pub slot_proposer_map : Map ℕ ProposerDutyData
  pub slot_payload_attributes_map : Map ℕ (PayloadAttributesEventData T)
  pub all_validators_by_pubkey : Map Text T.ValidatorData
  pub all_validators_by_index : Map ℕ T.ValidatorData

-- `BeaconClientInstance`: what a node answers.
pub record Nodes (T : BeaconTypes) : Type 0 where
  pub get_validator_list : ℕ → ℕ → Reply (List T.ValidatorData)
  pub get_withdrawals : ℕ → ℕ → Reply (Option T.Withdrawals)
  pub get_slot_proposer_map : ℕ → ℕ → Reply (Map ℕ ProposerDutyData)
  pub genesis : ℕ → Reply T.GenesisData
  pub randao : ℕ → ℕ → Reply T.Hash
  pub get_block_header : ℕ → ℕ → Reply BlockHeaderData
  pub get_current_block_header : ℕ → Reply BlockHeaderData
  pub get_fork_version : ℕ → ℕ → Bool → Reply (Text × Text)
  pub get_validator_index : ℕ → List Text → Reply (List T.ValidatorData)

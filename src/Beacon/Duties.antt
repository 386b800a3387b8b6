-- ===== src/Beacon/Duties.antt =====
-- What the relay knows of validators, proposers, randaos and forks
-- (beaconinterface/multiclient.go). Each method is a call on the whole `MultiBeaconClient`.
pub mod Lookups
use proof_relay.Base.{
  ℕ, ◌+◌, ◌/◌, ◌≡◌, Bool, true, false, not, ◌&&◌, Option, none, some, List, [], ◌∷◌, ◌==◌,
  if◌then◌else◌,
}
use proof_relay.Text.{Text, codes, text_eq}
use proof_relay.Map.{Map, Key, lookup, insert, insert_all, nat_key, text_key}
use proof_relay.Beacon.{
  BeaconClient, Reply, answer, failure, BeaconTypes, ProposerDutyData, BlockHeaderData,
  PayloadAttributesEventData, BeaconData, Nodes,
}
use proof_relay.Beacon.Head.{sub64}
use proof_relay.Beacon.Fetch.{
  Returned, MultiBeaconClient, get_validator_list, get_withdrawals, get_slot_proposer_map, randao,
  get_block_header, get_fork_version,
}

-- A map built from a list, the later entry of a key winning.
module _ {K V : Type 0} ⦃key : Key K⦄ where
  unfoldable pub index_by : (V → K) → List V → Map K V → Map K V
  index_by f [] m = m
  index_by f (v ∷ vs) m = index_by f vs (insert (f v) v m)

-- `for _, proposer := range proposerMap { SlotProposerMap[proposer.Slot] = proposer }`
unfoldable pub add_duties : Map ℕ ProposerDutyData → Map ℕ ProposerDutyData → Map ℕ ProposerDutyData
add_duties [] m = m
add_duties ((_, duty) ∷ r) m = add_duties r (insert duty.slot duty m)

-- Ranging over a `nil` list or map.
abbrev pub or_empty : {A : Type 0} → Option (List A) → List A
or_empty none = []
or_empty (some l) = l

-- The second look-up of `GetSlotProposer`, after the duties of the epoch were added.
abbrev pub or_no_proposer : Option ProposerDutyData → Returned ProposerDutyData
or_no_proposer (some p) = (some p, none)
or_no_proposer none = (none, some (codes "failed to find proposer"))

module _ {T : BeaconTypes} where
  abbrev pub set_data : BeaconData T → MultiBeaconClient T → MultiBeaconClient T
  set_data d b = record b { beacon_data = d }

  unfoldable pub validator_index_exists : ℕ → MultiBeaconClient T → Bool
  validator_index_exists i b = elim (lookup i b.beacon_data.all_validators_by_index) [
    | some _ ↦ true
    | none ↦ false
  ]

  unfoldable pub validator_pubkey_exists : Text → MultiBeaconClient T → Bool
  validator_pubkey_exists k b = elim (lookup k b.beacon_data.all_validators_by_pubkey) [
    | some _ ↦ true
    | none ↦ false
  ]

  unfoldable pub retrieve_validator_by_index : ℕ → MultiBeaconClient T → Returned T.ValidatorData
  retrieve_validator_by_index i b = elim (lookup i b.beacon_data.all_validators_by_index) [
    | some v ↦ (some v, none)
    | none ↦ (none, some (codes "validator not found"))
  ]

  unfoldable pub retrieve_validator_by_pubkey :
      Text → MultiBeaconClient T → Returned T.ValidatorData
  retrieve_validator_by_pubkey k b = elim (lookup k b.beacon_data.all_validators_by_pubkey) [
    | some v ↦ (some v, none)
    | none ↦ (none, some (codes "validator not found"))
  ]

  unfoldable pub get_current_head : MultiBeaconClient T → Option T.HeadEventData
  get_current_head b = b.beacon_data.current_head

module _ {T : BeaconTypes} (N : Nodes T) where
  unfoldable pub update_known_validators : ℕ → MultiBeaconClient T → MultiBeaconClient T
  unfolding index_by
  update_known_validators slot b =
      let (r, b') = get_validator_list N slot b in
      elim r.1 [
        | some _ ↦ b'
        | none ↦
            set_data
              (record b'.beacon_data {
                all_validators_by_pubkey = index_by T.validator_pubkey (or_empty r.0) [];
                all_validators_by_index = index_by T.validator_index (or_empty r.0) [];
              })
              b'
      ]

  -- `none` is a panic: no error and no randao, as with no client at all.
  unfoldable pub update_randao_map : ℕ → MultiBeaconClient T → Option (MultiBeaconClient T)
  update_randao_map slot b =
      let (r, b') = randao N slot b in
      elim r.1 [
        | some _ ↦ some b'
        | none ↦ elim r.0 [
          | none ↦ none
          | some h ↦ some (
              set_data
                (record b'.beacon_data { randao_map = insert slot h b'.beacon_data.randao_map }) b')
        ]
      ]

  -- `updateValidatorMap` for one client and one epoch.
  unfoldable pub update_validator_map_for :
      BeaconClient → ℕ → MultiBeaconClient T → MultiBeaconClient T
  update_validator_map_for c epoch b = elim (N.get_slot_proposer_map c.node epoch) [
    | failure _ ↦ b
    | answer m ↦
        set_data
          (record b.beacon_data {
            slot_proposer_map = insert_all m b.beacon_data.slot_proposer_map;
          })
          b
  ]

  -- `UpdateValidatorMap`: this epoch and the next, for one client after the other. The slot is that
  -- of the head.
  unfoldable pub update_validator_map_all :
      ℕ → List BeaconClient → MultiBeaconClient T → MultiBeaconClient T
  unfolding update_validator_map_for
  update_validator_map_all epoch [] b = b
  update_validator_map_all epoch (c ∷ cs) b =
      update_validator_map_all epoch cs
        (update_validator_map_for c (epoch + 1) (update_validator_map_for c epoch b))

  abbrev head_slot_or_zero : Option T.HeadEventData → ℕ
  head_slot_or_zero none = 0
  head_slot_or_zero (some h) = T.head_slot h

  unfoldable pub update_validator_map : MultiBeaconClient T → MultiBeaconClient T
  unfolding update_validator_map_all
  update_validator_map b =
      update_validator_map_all (head_slot_or_zero b.beacon_data.current_head / 32) b.clients b

  abbrev names_or_empty : Option (Text × Text) → Text × Text
  names_or_empty none = ([], [])
  names_or_empty (some p) = p

  -- The field holds the name of the fork, and is compared with its version.
  unfoldable pub update_fork_version : MultiBeaconClient T → MultiBeaconClient T
  update_fork_version b =
      let (r, b') = get_fork_version N 0 true b in
      let (fork_name, fork_version) = names_or_empty r.0 in
      elim r.1 [
        | some _ ↦ b'
        | none ↦
            if not (text_eq b'.beacon_data.current_fork_version fork_version)
              && not (text_eq fork_version [])
            then set_data (record b'.beacon_data { current_fork_version = fork_name }) b'
            else b'
      ]

  unfoldable pub get_slot_proposer :
      ℕ → MultiBeaconClient T → Returned ProposerDutyData × MultiBeaconClient T
  unfolding add_duties
  get_slot_proposer slot b = elim (lookup slot b.beacon_data.slot_proposer_map) [
    | some proposer ↦ ((some proposer, none), b)
    | none ↦
        let (r, b') = get_slot_proposer_map N (slot / 32) b in
        elim r.1 [
          | some e ↦ ((none, some e), b')
          | none ↦
              let duties = add_duties (or_empty r.0) b'.beacon_data.slot_proposer_map in
              (
                or_no_proposer (lookup slot duties),
                set_data (record b'.beacon_data { slot_proposer_map = duties }) b',
              )
        ]
  ]

-- ===== src/Beacon/Fetch.antt =====
-- The calls that ask one client after the other (beaconinterface/multiFetch.go). What they write to
-- `client.LastResponseStatus` and `client.LastUsedTime` goes to the copy that the range loop made,
-- so no call changes `Clients`.
use proof_relay.Base.{ℕ, ◌+◌, Bool, Option, none, some, List, [], ◌∷◌}
use proof_relay.Text.{Text, codes}
use proof_relay.Map.{Map, lookup, insert, nat_key, text_key}
use proof_relay.Beacon.{
  BeaconClient, Reply, answer, failure, BeaconTypes, ProposerDutyData, BlockHeaderData, BeaconData,
  Nodes,
}

-- A Go return of a pointer and an error: either may be nil.
abbrev pub Returned {ℓ} : Type ℓ → Type ℓ
Returned A = Option A × Option Text

-- The loop of the functions with named results: a failing node leaves its error in `err`, which is
-- what `return nil, err` gives after the last one.
unfoldable pub ask_each {ℓ} :
    {A : Type ℓ} → (ℕ → Reply A) → Option Text → List BeaconClient → Returned A
ask_each ask e [] = (none, e)
ask_each ask e (c ∷ cs) = elim (ask c.node) [
  | answer a ↦ (some a, none)
  | failure f ↦ ask_each ask (some f) cs
]

-- The loop of the functions that make an error of their own after the last node.
unfoldable pub ask_or {ℓ} : {A : Type ℓ} → (ℕ → Reply A) → Text → List BeaconClient → Returned A
ask_or ask own [] = (none, some own)
ask_or ask own (c ∷ cs) = elim (ask c.node) [
  | answer a ↦ (some a, none)
  | failure f ↦ ask_or ask own cs
]

-- `MultiBeaconClient`: `updates` counts the runs of `updateClientPerformance` that `postBeaconCall`
-- has started in the background.
pub record MultiBeaconClient (T : BeaconTypes) : Type 0 where
  pub clients : List BeaconClient
  pub beacon_data : BeaconData T
  pub updates : ℕ

module _ {T : BeaconTypes} where
  abbrev pub post_beacon_call : MultiBeaconClient T → MultiBeaconClient T
  post_beacon_call b = record b { updates = b.updates + 1 }

module _ {T : BeaconTypes} (N : Nodes T) where
  unfoldable pub get_validator_list :
      ℕ → MultiBeaconClient T → Returned (List T.ValidatorData) × MultiBeaconClient T
  unfolding ask_or
  get_validator_list slot b = (
    ask_or (λ n. N.get_validator_list n slot)
        (codes "failed to get validator list from all clients") b.clients,
    post_beacon_call b,
  )

  unfoldable pub get_withdrawals :
      ℕ → MultiBeaconClient T → Returned (Option T.Withdrawals) × MultiBeaconClient T
  unfolding ask_each
  get_withdrawals slot b =
      (ask_each (λ n. N.get_withdrawals n slot) none b.clients, post_beacon_call b)

  unfoldable pub get_slot_proposer_map :
      ℕ → MultiBeaconClient T → Returned (Map ℕ ProposerDutyData) × MultiBeaconClient T
  unfolding ask_or
  get_slot_proposer_map epoch b = (
    ask_or (λ n. N.get_slot_proposer_map n epoch) (codes "all beacon nodes failed") b.clients,
    post_beacon_call b,
  )

  unfoldable pub genesis : MultiBeaconClient T → Returned T.GenesisData × MultiBeaconClient T
  unfolding ask_each
  genesis b = (ask_each N.genesis none b.clients, post_beacon_call b)

  -- A known randao is returned with no call and no update.
  unfoldable pub randao : ℕ → MultiBeaconClient T → Returned T.Hash × MultiBeaconClient T
  unfolding ask_each
  randao slot b = elim (lookup slot b.beacon_data.randao_map) [
    | some known ↦ ((some known, none), b)
    | none ↦ (ask_each (λ n. N.randao n slot) none b.clients, post_beacon_call b)
  ]

  unfoldable pub get_block_header :
      ℕ → MultiBeaconClient T → Returned BlockHeaderData × MultiBeaconClient T
  unfolding ask_each
  get_block_header slot b =
      (ask_each (λ n. N.get_block_header n slot) none b.clients, post_beacon_call b)

  unfoldable pub get_current_block_header :
      MultiBeaconClient T → Returned BlockHeaderData × MultiBeaconClient T
  unfolding ask_each
  get_current_block_header b =
      (ask_each N.get_current_block_header none b.clients, post_beacon_call b)

  unfoldable pub get_fork_version :
      ℕ → Bool → MultiBeaconClient T → Returned (Text × Text) × MultiBeaconClient T
  unfolding ask_each
  get_fork_version slot head b =
      (ask_each (λ n. N.get_fork_version n slot head) none b.clients, post_beacon_call b)

-- `relayTypes.ValidatorIndexes`
pub record ValidatorIndexes : Type 0 where
  pub validator_pubkey_index : Map Text ℕ
  pub validator_index_pubkey : Map ℕ Text

module _ {T : BeaconTypes} (N : Nodes T) where
  unfoldable pub add_indexes : List T.ValidatorData → ValidatorIndexes → ValidatorIndexes
  add_indexes [] x = x
  add_indexes (v ∷ vs) x = add_indexes vs (record {
    validator_pubkey_index =
        insert (T.validator_pubkey v) (T.validator_index v) x.validator_pubkey_index;
    validator_index_pubkey =
        insert (T.validator_index v) (T.validator_pubkey v) x.validator_index_pubkey;
  })

  abbrev indexes_from : Option (List T.ValidatorData) → ValidatorIndexes → ValidatorIndexes
  indexes_from none x = x
  indexes_from (some vs) x = add_indexes vs x

  -- `GetValidatorIndex`: the first client that answers fills the indexes; if none does, nothing
  -- happens.
  unfoldable pub get_validator_index :
      List Text → ValidatorIndexes → MultiBeaconClient T → ValidatorIndexes × MultiBeaconClient T
  unfolding ask_each add_indexes
  get_validator_index new_validators x b = (
    indexes_from (ask_each (λ n. N.get_validator_index n new_validators) none b.clients).0 x,
    post_beacon_call b,
  )

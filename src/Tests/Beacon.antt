-- ===== src/Tests/Beacon.antt =====
-- The beacon interface on concrete nodes: node 0 fails, node 1 answers.
use mathlib.Core.List.{Perm}
use proof_relay.Base.{
  if◌then◌else◌, ◌==◌, ℕ, zero, suc, ◌+◌, ◌≡◌, refl, Bool, true, false, Option, none, some, List,
  [], ◌∷◌, ◌++◌, map, arith, All,
}
use proof_relay.Text.{Text, codes}
use proof_relay.Map.{nat_key, text_key}
use proof_relay.Beacon.{
  SyncStatusData, BeaconClient, Reply, answer, failure, BeaconTypes, ProposerDutyData,
  BlockHeaderData, BeaconData, Nodes,
}
use proof_relay.Beacon.Performance.{
  is_before, Ranked, sort_ranked, Probe, is_synced, returned, wait_synced,
}
use proof_relay.Beacon.Order.{IsSorted, sort_ranked_lem, wait_synced-All}
use proof_relay.Beacon.Fetch.{
  MultiBeaconClient, get_validator_list, get_block_header, post_beacon_call,
}
use proof_relay.Beacon.FirstAnswer.{Explains, last_failure, multi_fetch}
use proof_relay.Beacon.Publish.{
  reported, done, Publication, publish_block, publish_all, publish_partial,
}
use proof_relay.Beacon.Alive.{Arrival, genesis_of}

abbrev pub types : BeaconTypes
types = record {
  HeadEventData = ℕ;
  head_slot = λ slot. slot;
  Hash = Text;
  hash_string = λ h. h;
  GenesisData = ℕ;
  Withdrawals = List ℕ;
  no_withdrawals = [];
  ValidatorData = Text × ℕ;
  validator_pubkey = λ v. v.0;
  validator_index = λ v. v.1;
}

-- Node 0 is down.
abbrev from_node : {A : Type 0} → ℕ → A → Reply A
from_node zero a = failure (codes "down")
from_node (suc n) a = answer a

abbrev pub duty : ProposerDutyData
duty = record { pubkey = codes "0xaa"; index = 5; slot = 70 }

abbrev block_header : BlockHeaderData
block_header = record { root = codes "0x01"; state_root = codes "0x02" }

abbrev pub validators : List (Text × ℕ)
validators = (codes "0xaa", 5) ∷ (codes "0xbb", 6) ∷ []

abbrev pub nodes : Nodes types
nodes = record {
  get_validator_list = λ n slot. from_node n validators;
  get_withdrawals = λ n slot. from_node n (some (3 ∷ []));
  get_slot_proposer_map = λ n epoch. from_node n ((70, duty) ∷ []);
  genesis = λ n. from_node n 0;
  randao = λ n slot. from_node n (codes "0xff");
  get_block_header = λ n slot. from_node n block_header;
  get_current_block_header = λ n. from_node n block_header;
  get_fork_version = λ n slot head. from_node n (codes "capella", codes "0x03");
  get_validator_index = λ n keys. from_node n validators;
}

abbrev pub no_data : BeaconData types
no_data = record {
  current_slot = 0;
  current_epoch = 0;
  current_fork_version = [];
  current_head = none;
  randao_map = [];
  slot_proposer_map = [];
  slot_payload_attributes_map = [];
  all_validators_by_pubkey = [];
  all_validators_by_index = [];
}

abbrev client : ℕ → Option SyncStatusData → BeaconClient
client n s = record {
  node = n;
  node_speed = 10;
  last_used_time = 0;
  last_response_status = 200;
  sync_status = s;
}

abbrev two_clients : List BeaconClient
two_clients = client 0 none ∷ client 1 none ∷ []

abbrev pub multi : MultiBeaconClient types
multi = record { clients = two_clients; beacon_data = no_data; updates = 0 }

multi_fetch_run :
    Explains
      (λ n. nodes.get_block_header n 9)
      two_clients
      (last_failure (λ n. nodes.get_block_header n 9) none two_clients)
      (get_block_header nodes 9 multi).0
    × Explains
        (λ n. nodes.get_validator_list n 9)
        two_clients
        (some (codes "failed to get validator list from all clients"))
        (get_validator_list nodes 9 multi).0
    × ((get_block_header nodes 9 multi).1 ≡ record multi { updates = 0 + 1 })
    × ((get_validator_list nodes 9 multi).1 ≡ record multi { updates = 0 + 1 })
multi_fetch_run = multi_fetch nodes 9 multi

abbrev probe : ℕ → Bool → Probe
probe slot syncing = record {
  reply = answer (record { head_slot = slot; is_syncing = syncing });
  took = 10;
  ended = 0;
}

abbrev synced_at : ℕ → ℕ → BeaconClient
synced_at n slot = client n (some (record { head_slot = slot; is_syncing = false }))

-- In the first round one client is still syncing.
abbrev rounds : List (List Probe)
rounds = (probe 8 true ∷ probe 9 false ∷ []) ∷ (probe 9 false ∷ probe 10 false ∷ []) ∷ []

waited : wait_synced rounds two_clients ≡ returned (synced_at 1 10 ∷ synced_at 0 9 ∷ [])
unfolding wait_synced is_before
waited = refl

wait_synced-All_example :
    All (λ c. is_synced c.sync_status ≡ true) (synced_at 1 10 ∷ synced_at 0 9 ∷ [])
wait_synced-All_example =
    wait_synced-All rounds two_clients (synced_at 1 10 ∷ synced_at 0 9 ∷ []) waited

abbrev ranked : ℕ → ℕ → Bool → Ranked
ranked n slot syncing = record {
  client = client n none;
  status = record { head_slot = slot; is_syncing = syncing };
}

abbrev three : List Ranked
three = ranked 0 7 false ∷ ranked 1 9 false ∷ ranked 2 3 true ∷ []

sort_ranked_lem_run : IsSorted (sort_ranked three) × Perm (sort_ranked three) three
sort_ranked_lem_run = sort_ranked_lem three

publish_all_example :
    publish_block (map reported (none ∷ some (codes "down") ∷ []) ++ []) multi
    ≡ (Publication.returned none, post_beacon_call multi)
publish_all_example = publish_all multi none (some (codes "down") ∷ []) [] refl

publish_partial_run :
    (publish_block (map reported (none ∷ [])) multi ≡ (Publication.listening, multi))
    × (publish_block (map reported (none ∷ []) ++ done (codes "timeout") ∷ []) multi
        ≡ (Publication.returned (some (codes "timeout")), post_beacon_call multi))
publish_partial_run = publish_partial multi (none ∷ []) (codes "timeout") (omega arith)

abbrev arrivals : List (Arrival ℕ)
arrivals = genesis_of none ∷ genesis_of (some (codes "http://b", 5)) ∷ []

abbrev url_of : ℕ → Text
url_of n = if n == 0 then codes "http://a" else codes "http://b"

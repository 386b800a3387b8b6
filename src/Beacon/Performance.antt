-- ===== src/Beacon/Performance.antt =====
-- The order of the clients and the wait for a synced one (beaconinterface/multiclient.go:
-- `updateClientPerformance`, `SyncStatus`, `waitSynced`, `ReturnAllNodeURLs`).
use proof_relay.Base.{
  ℕ, Bool, true, false, not, Option, none, some, List, [], ◌∷◌, ltb, ◌==◌, if◌then◌else◌,
}
use proof_relay.Beacon.{SyncStatusData, BeaconClient, Reply, answer, failure}

abbrev bool_eq : Bool → Bool → Bool
bool_eq true b = b
bool_eq false b = not b

-- The comparison of `sort.SliceStable`, on two clients with a sync status.
unfoldable pub is_before : SyncStatusData → BeaconClient → SyncStatusData → BeaconClient → Bool
is_before s a t b =
    if bool_eq s.is_syncing t.is_syncing
    then (if s.head_slot == t.head_slot
        then (if a.last_response_status == b.last_response_status
            then (if a.node_speed == b.node_speed
                then ltb b.last_used_time a.last_used_time
                else ltb a.node_speed b.node_speed)
            else ltb a.last_response_status b.last_response_status)
        else ltb t.head_slot s.head_slot)
    else s.is_syncing

-- A client whose status is known, as the comparison reads it.
pub record Ranked : Type 0 where
  pub client : BeaconClient
  pub status : SyncStatusData

abbrev pub before : Ranked → Ranked → Bool
before a b = is_before a.status a.client b.status b.client

-- A stable sort: an element goes in front of the first one that it is before.
unfoldable pub insert_sorted : Ranked → List Ranked → List Ranked
insert_sorted a [] = a ∷ []
insert_sorted a (b ∷ r) = let rest = b ∷ insert_sorted a r in if before b a then rest else a ∷ b ∷ r

unfoldable pub sort_ranked : List Ranked → List Ranked
unfolding insert_sorted
sort_ranked [] = []
sort_ranked (a ∷ r) = insert_sorted a (sort_ranked r)

abbrev pub rank_one :
    BeaconClient → Option SyncStatusData → Option (List Ranked) → Option (List Ranked)
rank_one c none o = none
rank_one c (some s) none = none
rank_one c (some s) (some r) = some (record { client = c; status = s } ∷ r)

-- The comparison reads through the pointer `SyncStatus` of both clients: `none` is a panic.
unfoldable pub rank_all : List BeaconClient → Option (List Ranked)
rank_all [] = some []
rank_all (c ∷ r) = rank_one c c.sync_status (rank_all r)

abbrev pub clients_of : List Ranked → List BeaconClient
clients_of [] = []
clients_of (r ∷ l) = r.client ∷ clients_of l

abbrev pub sorted_clients : Option (List Ranked) → Option (List BeaconClient)
sorted_clients none = none
sorted_clients (some l) = some (clients_of (sort_ranked l))

-- With one client or none the sort compares nothing.
unfoldable pub update_client_performance : List BeaconClient → Option (List BeaconClient)
unfolding rank_all sort_ranked
update_client_performance [] = some []
update_client_performance (c ∷ []) = some (c ∷ [])
update_client_performance (c ∷ d ∷ r) = sorted_clients (rank_all (c ∷ d ∷ r))

-- What one call of a node's `SyncStatus` gave, how long it took and when it ended.
pub record Probe : Type 0 where
  pub reply : Reply SyncStatusData
  pub took : ℕ
  pub ended : ℕ

-- The write of one goroutine of `SyncStatus` to its own place in `Clients`.
abbrev pub probe_client : Probe → BeaconClient → BeaconClient
probe_client p c = elim p.reply [
  | failure _ ↦ record c {
    last_response_status = 500;
    last_used_time = p.ended;
    node_speed = p.took;
  }
  | answer s ↦ record c {
    last_response_status = 200;
    last_used_time = p.ended;
    sync_status = some s;
    node_speed = p.took;
  }
]

-- All goroutines have ended (`wg.Wait`). A place with no probe stays as it is.
unfoldable pub probe_clients : List Probe → List BeaconClient → List BeaconClient
probe_clients [] cs = cs
probe_clients (p ∷ ps) [] = []
probe_clients (p ∷ ps) (c ∷ cs) = probe_client p c ∷ probe_clients ps cs

-- What `SyncStatus` returns: the status of the client in front, or the error.
abbrev pub front_status : List BeaconClient → Option (Option SyncStatusData)
front_status [] = none
front_status (c ∷ r) = some c.sync_status

abbrev pub with_front :
    Option (List BeaconClient) → Option (List BeaconClient × Option SyncStatusData)
with_front none = none
with_front (some []) = none
with_front (some (c ∷ r)) = some (c ∷ r, c.sync_status)

-- `none` is a panic: a missing status in the comparison, or no client at all. The status `none`
-- is the error "all beacon nodes failed".
unfoldable pub sync_status :
    List Probe → List BeaconClient → Option (List BeaconClient × Option SyncStatusData)
unfolding probe_clients update_client_performance
sync_status ps cs = with_front (update_client_performance (probe_clients ps cs))

abbrev pub is_synced : Option SyncStatusData → Bool
is_synced none = false
is_synced (some s) = not s.is_syncing

-- How the loop of `waitSynced` ends on given rounds of probes: it returns with the clients, it
-- panics, or it is still waiting.
pub data Wait : Type 0 where
  returned : List BeaconClient → Wait
  panicked : Wait
  waiting : List BeaconClient → Wait

unfoldable pub wait_synced : List (List Probe) → List BeaconClient → Wait
unfolding sync_status
wait_synced [] cs = waiting cs
wait_synced (ps ∷ rounds) cs = elim (sync_status ps cs) [
  | none ↦ panicked
  | some (cs', status) ↦
      let rest = wait_synced rounds cs' in if is_synced status then returned cs' else rest
]

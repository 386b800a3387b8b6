-- ===== src/Beacon/Head.antt =====
-- Head events and payload attributes events (beaconinterface/multiclientSub.go). Slots are `uint64`.
-- The goroutines that an event starts are returned as tasks.
pub mod Chain
use proof_relay.Base.{
  ℕ, ◌+◌, ◌-◌, ◌/◌, ◌%◌, ◌^◌, Bool, not, ◌||◌, Option, none, some, List, [], ◌∷◌, ◌++◌, ltb, leb,
  ◌==◌, if◌then◌else◌,
}
use proof_relay.Map.{Map, insert, delete_if, nat_key}
use proof_relay.Beacon.{BeaconTypes, BeaconData, PayloadAttributesEventData}

abbrev pub two_64 : ℕ
two_64 = 2 ^ 64

-- `a - b` and `a + b` on `uint64`
abbrev pub sub64 : ℕ → ℕ → ℕ
sub64 a b = (a + two_64 - b) % two_64

abbrev pub add64 : ℕ → ℕ → ℕ
add64 a b = (a + b) % two_64

-- `int64(k) < int64(slot)-64`: signed comparison of two bit patterns, the second after a
-- subtraction that wraps.
unfoldable pub is_old : ℕ → ℕ → Bool
is_old slot k = ltb ((k + 2 ^ 63) % two_64) ((sub64 slot 64 + 2 ^ 63) % two_64)

-- What a head event starts in the background.
pub data Task : Type 0 where
  sync_status update_validator_map update_fork_version : Task
  update_randao_map : ℕ → Task

-- `(currentSlot+1)/32 != currentEpoch || (currentSlot-1)/32 != currentEpoch`
unfoldable pub at_epoch_edge : ℕ → Bool
at_epoch_edge slot = not (add64 slot 1 / 32 == slot / 32) || not (sub64 slot 1 / 32 == slot / 32)

abbrev randao_tasks : ℕ → List Task
randao_tasks slot =
    update_randao_map (add64 (sub64 slot 1) 0)
    ∷ update_randao_map (add64 (sub64 slot 1) 1)
    ∷ update_randao_map (add64 (sub64 slot 1) 2)
    ∷ []

abbrev pub head_tasks : ℕ → List Task
head_tasks slot =
    sync_status
    ∷ (randao_tasks slot
        ++ ((if at_epoch_edge slot then update_validator_map ∷ [] else [])
            ++ update_fork_version ∷ []))

module _ {T : BeaconTypes} where
  -- One head event, from any of the clients.
  unfoldable pub process_head : T.HeadEventData → BeaconData T → BeaconData T × List Task
  unfolding is_old at_epoch_edge
  process_head head d =
      let slot = T.head_slot head in
      if leb slot d.current_slot then (d, []) else (
        record d {
          current_head = some head;
          current_slot = slot;
          current_epoch = slot / 32;
          slot_proposer_map = delete_if (is_old slot) d.slot_proposer_map;
          randao_map = delete_if (is_old slot) d.randao_map;
        },
        head_tasks slot,
      )

  -- One payload attributes event.
  unfoldable pub process_payload_attributes :
      PayloadAttributesEventData T → BeaconData T → BeaconData T
  unfolding is_old
  process_payload_attributes a d =
      let slot = a.proposal_slot in
      record d {
        slot_payload_attributes_map =
            delete_if (is_old slot) (insert slot a d.slot_payload_attributes_map);
      }

  -- The events in the order in which they come out of the channel.
  unfoldable pub process_heads : List T.HeadEventData → BeaconData T → BeaconData T
  unfolding process_head
  process_heads [] d = d
  process_heads (h ∷ hs) d = process_heads hs (process_head h d).0

-- ===== src/Tests/Duties.antt =====
-- The head events, the duties and the look-ups on the concrete nodes.
use proof_relay.Base.{
  ℕ, ◌+◌, ◌≡◌, refl, false, none, some, [], ◌∷◌, arith, All, ltb, ◌==◌, if◌then◌else◌, ◌&&◌, ◌≤◌,
}
use proof_relay.Text.{Text, codes}
use proof_relay.Map.{lookup, insert, nat_key, text_key}
use proof_relay.Beacon.{PayloadAttributesEventData, BeaconData}
use proof_relay.Beacon.Fetch.{MultiBeaconClient, get_validator_list, get_slot_proposer_map}
use proof_relay.Beacon.Head.{process_head, process_heads, process_payload_attributes}
use proof_relay.Beacon.Head.Chain.{
  IsCurrent, OneOf, tasks_at, process_heads_lem, process_head_lem, process_payload_attributes_lem,
}
use proof_relay.Beacon.Duties.{
  get_slot_proposer, retrieve_validator_by_index, retrieve_validator_by_pubkey,
  update_known_validators,
}
use proof_relay.Beacon.Attributes.{known, get_payload_attributes_for_slot}
use proof_relay.Beacon.Duties.Lookups.{
  is_known, attributes_miss, slot_proposer_held, HasKey, known_validators,
}
use proof_relay.Tests.Beacon.{types, duty, validators, nodes, no_data, multi}

no_data-IsCurrent : IsCurrent {T = types} no_data
no_data-IsCurrent = record { epoch = refl; slot_of_head = λ h e. absurd (cc e) }

process_heads_lem_example :
    IsCurrent {T = types} (process_heads {T = types} (33 ∷ 32 ∷ 40 ∷ []) no_data)
    × (0 ≤ (process_heads {T = types} (33 ∷ 32 ∷ 40 ∷ []) no_data).current_slot)
    × All
        (λ h. h ≤ (process_heads {T = types} (33 ∷ 32 ∷ 40 ∷ []) no_data).current_slot)
        (33 ∷ 32 ∷ 40 ∷ [])
    × OneOf 0
        (33 ∷ 32 ∷ 40 ∷ [])
        (process_heads {T = types} (33 ∷ 32 ∷ 40 ∷ []) no_data).current_slot
process_heads_lem_example =
    process_heads_lem {T = types} (33 ∷ 32 ∷ 40 ∷ []) no_data no_data-IsCurrent

abbrev one_duty : BeaconData types
one_duty = record no_data { slot_proposer_map = (70, duty) ∷ [] }

process_head_run :
    (lookup 70 (process_head {T = types} 200 one_duty).0.slot_proposer_map
      ≡ (if ltb 0 200 && ltb (70 + 64) 200 then none else lookup 70 one_duty.slot_proposer_map))
    × (lookup 70 (process_head {T = types} 200 one_duty).0.randao_map
        ≡ (if ltb 0 200 && ltb (70 + 64) 200 then none else lookup 70 one_duty.randao_map))
    × ((process_head {T = types} 200 one_duty).1 ≡ (if ltb 0 200 then tasks_at 200 else []))
process_head_run = process_head_lem {T = types} 200 one_duty 70 (omega arith) (omega arith)

abbrev attributes : PayloadAttributesEventData types
attributes = record {
  proposer_index = 5;
  proposal_slot = 70;
  parent_block_root = codes "0x02";
  parent_block_hash = codes "0x01";
  withdrawals = [];
  prev_randao = codes "0xff";
}

process_payload_attributes_lem_run :
    lookup 70
      (process_payload_attributes {T = types} attributes no_data).slot_payload_attributes_map
    ≡ (if 70 == 70
        then some attributes
        else if ltb (70 + 64) 70
        then none
        else lookup 70 no_data.slot_payload_attributes_map)
process_payload_attributes_lem_run =
    process_payload_attributes_lem {T = types} attributes no_data 70 (omega arith) (omega arith)

attributes_missing : lookup 70 multi.beacon_data.slot_payload_attributes_map ≡ none
unfolding lookup
attributes_missing = refl

attributes_miss_example :
    (is_known (get_payload_attributes_for_slot nodes 70 multi).0 ≡ false)
    × ((a : PayloadAttributesEventData types)
        → lookup 70
            (get_payload_attributes_for_slot nodes 70
              multi).1.beacon_data.slot_payload_attributes_map
          ≡ some a
        → get_payload_attributes_for_slot nodes 70
            (get_payload_attributes_for_slot nodes 70 multi).1
          ≡ (known a, (get_payload_attributes_for_slot nodes 70 multi).1))
attributes_miss_example = attributes_miss nodes 70 multi attributes_missing

duty_found : (get_slot_proposer nodes 70 multi).0 ≡ (some duty, none)
unfolding get_slot_proposer get_slot_proposer_map lookup insert
duty_found = refl

slot_proposer_held_run :
    (lookup 70 (get_slot_proposer nodes 70 multi).1.beacon_data.slot_proposer_map ≡ some duty)
    × (get_slot_proposer nodes 70 (get_slot_proposer nodes 70 multi).1
        ≡ ((some duty, none), (get_slot_proposer nodes 70 multi).1))
slot_proposer_held_run = slot_proposer_held nodes 70 multi duty duty_found

list_found : (get_validator_list nodes 9 multi).0 ≡ (some validators, none)
unfolding get_validator_list
list_found = refl

abbrev updated : MultiBeaconClient types
updated = update_known_validators nodes 9 multi

known_validators_run :
    ((i : ℕ) (v : Text × ℕ) → retrieve_validator_by_index i updated ≡ (some v, none) → v.1 ≡ i)
    × ((k : Text) (v : Text × ℕ)
        → retrieve_validator_by_pubkey k updated ≡ (some v, none)
        → v.0 ≡ k)
    × ((i : ℕ)
        → HasKey {K = ℕ} (λ (v : Text × ℕ). v.1) i validators
        → (v : Text × ℕ) × (retrieve_validator_by_index i updated ≡ (some v, none)))
    × ((k : Text)
        → HasKey {K = Text} (λ (v : Text × ℕ). v.0) k validators
        → (v : Text × ℕ) × (retrieve_validator_by_pubkey k updated ≡ (some v, none)))
known_validators_run = known_validators nodes 9 multi validators list_found

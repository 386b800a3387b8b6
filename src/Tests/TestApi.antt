-- ===== src/Tests/TestApi.antt =====
-- The handlers of the test API on the concrete relay.
use proof_relay.Base.{◌≡◌, refl, true, [], ◌∷◌, ◌++◌, ok, if◌then◌else◌}
use proof_relay.Text.{codes, text_eq}
use proof_relay.Text.Decimal.{show_ℕ}
use proof_relay.Memory.{hash_at, memory_laws}
use proof_relay.Beacon.{answer}
use proof_relay.Database.Write.{put_validator_delivered_header, put_validator_returned_block}
use proof_relay.Bids.{BoardState, save_payload_utils, payload_utils, put_payload_delivered}
use proof_relay.Bids.Keys.{slot_key}
use proof_relay.Registry.{set_builder_status}
use proof_relay.Relay.{BlindedBlock, ok_header}
use proof_relay.Relay.Submit.{Block, bad, handle_submit_block}
use proof_relay.Relay.Steps.{Stops}
use proof_relay.Relay.Header.{is_as_requested}
use proof_relay.Relay.TestApi.{
  test_slot, test_block_hash, handle_proposer_test_payload, release_test_payload, put_test_block,
  answer_test_payload, record_test_delivery, deliver_test_header, test_header_row,
}
use proof_relay.Relay.TestApi.Effects.{test_closes_slot, test_header_lem}
use proof_relay.Tests.Relay.{auctioned, won, bid_found, other, entry}
use proof_relay.Tests.Bls.{repeated}
use proof_relay.Tests.Site.{alice, outside, relay_with, start, bid}
use proof_relay.Tests.Fixture.{board}

-- An entry for the slot of the test.
abbrev prepared : BoardState board.redis.Store
prepared = (save_payload_utils board test_slot test_block_hash entry start).1

abbrev block : BlindedBlock
block = record {
  slot = 7;
  block_hash = codes "0xbb";
  proposer_index = 5;
  signature_bytes = repeated 96 7;
  signature = codes "0x0123456789abcdef0123456789abcdef0123456789abcdef";
}

entry_stored : payload_utils board test_slot test_block_hash prepared ≡ ok entry
unfolding payload_utils save_payload_utils set_builder_status show_ℕ hash_at text_eq slot_key
entry_stored = refl

answered : (handle_proposer_test_payload board outside (answer 3) (relay_with prepared)).0 ≡ ok tt
unfolding handle_proposer_test_payload release_test_payload put_test_block record_test_delivery
    answer_test_payload put_validator_returned_block payload_utils save_payload_utils
    set_builder_status show_ℕ hash_at text_eq slot_key
answered = refl

written : (put_payload_delivered board test_slot alice prepared).0 ≡ ok tt
unfolding put_payload_delivered save_payload_utils set_builder_status
written = refl

still_up : board.redis.up (put_payload_delivered board test_slot alice prepared).1.store ≡ true
unfolding put_payload_delivered save_payload_utils set_builder_status
still_up = refl

abbrev late_bid : Block board outside
late_bid = record bid { slot = test_slot }

test_closes_slot_example :
    Stops
      (handle_submit_block board outside 80 (answer late_bid))
      (handle_proposer_test_payload board outside (answer 3) (relay_with prepared)).1
test_closes_slot_example =
    test_closes_slot memory_laws 3 block entry (relay_with prepared) 80 late_bid refl entry_stored
      answered refl written still_up

test_header_run :
    ((deliver_test_header board outside 81 other (relay_with auctioned)).1.responses
      ≡ []
        ++ (if is_as_requested board outside other won
            then ok_header won.bid ∷ []
            else bad board outside (codes "Parameters Not As Per Winning Bid")
              ∷ ok_header won.bid
              ∷ []))
    × ((deliver_test_header board outside 81 other (relay_with auctioned)).1.db.tables.headers
        ≡ [] ++ test_header_row board outside other ∷ [])
unfolding put_validator_delivered_header
test_header_run = test_header_lem 81 other (relay_with auctioned) won bid_found refl

-- ===== src/Tests/Relay.antt =====
-- The handlers on a concrete relay.
use proof_relay.Base.{
  ℕ, ◌≡◌, refl, true, false, List, [], ◌∷◌, ◌++◌, ok, err, failed, ◌⊎◌, if◌then◌else◌,
}
use proof_relay.Text.{Text, codes, text_eq}
use proof_relay.Text.Decimal.{ℤ, show_ℕ, parse_ℤ, show_ℤ}
use proof_relay.Memory.{hash_at, fields, memory_laws}
use proof_relay.Redis.{field_value}
use proof_relay.Beacon.{answer}
use proof_relay.Database.{BuilderBlockDatabase}
use proof_relay.Database.Write.{put_validator_delivered_header, put_validator_returned_block}
use proof_relay.Bids.{
  BoardState, ProposerHeaderResponse, GetPayloadUtils, winning_bid, auction_bid, save_builder_bid,
  save_payload_utils, put_payload_delivered, get_bounty_bid_for_slot, set_bounty_bid_for_slot,
  record_winner, builder_block_last, get_payload_delivered, get_open_auction_highest_bid,
}
use proof_relay.Bids.Keys.{slot_key}
use proof_relay.Registry.{set_builder_status, builder_status}
use proof_relay.Relay.{BlindedBlock, RelayState, Response, ok_header}
use proof_relay.Relay.Submit.{
  bad, handle_submit_block, check_status, check_timestamp, check_not_delivered, check_slot,
  check_sanity, check_rpbs, check_signer, check_newest, sign_bid, store_bid, put_submission,
}
use proof_relay.Relay.Steps.{Stops}
use proof_relay.Relay.Checked.{Admissible, submit_checked}
use proof_relay.Relay.Header.{ProposerReqParams, is_as_requested, deliver_header, header_for_anyone}
use proof_relay.Relay.Payload.{
  release_payload, handle_proposer_payload, put_returned, answer_payload,
}
use proof_relay.Relay.Release.{Entitled, payload_checked, delivered_closes_slot}
use proof_relay.Relay.BountyBids.{handle_bounty_bids}
use proof_relay.Relay.Bounty.{BountyAdmissible, bounty_checked, bounty_closed}
use proof_relay.Relay.Stored.{answered, Wins, submit-Wins}
use proof_relay.Bids.Storage.{IsConsistent}
use proof_relay.Rpbs.Decode.{verify}
use proof_relay.Rpbs.Signature.{verify_signature}
use proof_relay.Rpbs.Point.{bytes_to_point}
use proof_relay.Tests.Site.{alice, outside, nothing_stored, relay_with, start, bid}
use proof_relay.Tests.Fixture.{board, board_laws}

submit_checked_example :
    Admissible board outside bid (relay_with start)
    ⊎ (((handle_submit_block board outside 80 (answer bid) (relay_with start)).0 ≡ err failed)
        × ((handle_submit_block board outside 80 (answer bid) (relay_with start)).1.board ≡ start)
        × ((handle_submit_block board outside 80 (answer bid) (relay_with start)).1.db
            ≡ nothing_stored))
submit_checked_example = submit_checked bid (relay_with start) 80

-- The bid is accepted, and so is the same bid as a bounty.
submit_runs : (handle_submit_block board outside 80 (answer bid) (relay_with start)).0 ≡ ok tt
unfolding handle_submit_block check_status check_timestamp check_not_delivered check_slot
    check_sanity check_rpbs verify verify_signature bytes_to_point check_signer check_newest
    sign_bid store_bid builder_status builder_block_last get_payload_delivered auction_bid
    save_builder_bid set_builder_status text_eq show_ℕ slot_key hash_at field_value parse_ℤ show_ℤ
    fields save_payload_utils
submit_runs = refl

bounty_runs : (handle_bounty_bids board outside 86 (answer bid) (relay_with start)).0 ≡ ok tt
unfolding handle_bounty_bids check_status check_timestamp check_not_delivered check_slot
    check_sanity check_rpbs verify verify_signature bytes_to_point check_signer sign_bid store_bid
    builder_status builder_block_last get_payload_delivered get_open_auction_highest_bid
    set_bounty_bid_for_slot auction_bid save_builder_bid set_builder_status text_eq show_ℕ slot_key
    hash_at field_value parse_ℤ show_ℤ fields save_payload_utils
bounty_runs = refl

bounty_checked_example :
    BountyAdmissible board outside 86 bid (relay_with start)
    ⊎ Stops (handle_bounty_bids board outside 86 (answer bid)) (relay_with start)
bounty_checked_example = bounty_checked 86 bid (relay_with start)

abbrev bounty_won : BoardState board.redis.Store
bounty_won = (record_winner board 7 alice start).1

winner_on_record : get_bounty_bid_for_slot board 7 bounty_won ≡ ok alice
unfolding get_bounty_bid_for_slot record_winner text_eq show_ℕ hash_at set_builder_status
winner_on_record = refl

alice_named : text_eq alice [] ≡ false
unfolding text_eq
alice_named = refl

bounty_closed_run : Stops (handle_bounty_bids board outside 86 (answer bid)) (relay_with bounty_won)
bounty_closed_run = bounty_closed 86 bid (relay_with bounty_won) alice winner_on_record alice_named

payload_checked_run :
    Entitled board outside 3 (relay_with start)
    ⊎ Stops (handle_proposer_payload board outside (answer 3)) (relay_with start)
payload_checked_run = payload_checked 3 (relay_with start)

abbrev block : BlindedBlock
block = record {
  slot = 7;
  block_hash = codes "0xbb";
  proposer_index = 5;
  signature_bytes = [];
  signature = codes "0x0123456789abcdef0123456789abcdef0123456789abcdef";
}

abbrev pub entry : GetPayloadUtils ℕ
entry = record {
  version = codes "capella";
  header = 84;
  api = codes "http://builder";
  builder_wallet_address = alice;
}

released :
    (release_payload board outside (3, block, codes "0xcc", entry) (relay_with start)).0 ≡ ok tt
unfolding release_payload put_returned answer_payload put_validator_returned_block
released = refl

delivery_written : (put_payload_delivered board 7 alice start).0 ≡ ok tt
unfolding put_payload_delivered set_builder_status
delivery_written = refl

still_up : board.redis.up (put_payload_delivered board 7 alice start).1.store ≡ true
unfolding put_payload_delivered set_builder_status
still_up = refl

delivered_closes_slot_example :
    Stops
      (handle_submit_block board outside 80 (answer bid))
      (release_payload board outside (3, block, codes "0xcc", entry) (relay_with start)).1
delivered_closes_slot_example =
    delivered_closes_slot memory_laws 3 block (codes "0xcc") entry (relay_with start) 80 bid refl
      released delivery_written still_up

-- A board on which Alice's bid has won.
abbrev pub auctioned : BoardState board.redis.Store
auctioned =
    (auction_bid board 7
      (save_builder_bid board 7 alice (codes "0xcc") 80
        (record { version = codes "capella"; signed_bid = 9 }) start).1).1

abbrev pub won : ProposerHeaderResponse ℕ
won = record {
  slot = 7;
  proposer_pub_key_hex = codes "0xcc";
  bid = record { version = codes "capella"; signed_bid = 9 };
}

pub bid_found : winning_bid board 7 auctioned ≡ ok won
unfolding winning_bid auction_bid save_builder_bid set_builder_status text_eq show_ℕ slot_key
    hash_at field_value parse_ℤ show_ℤ fields save_payload_utils
bid_found = refl

-- Another proposer asks.
abbrev pub other : ProposerReqParams
other = record { slot = 7; proposer_pub_key_hex = codes "0xdd"; parent_hash_hex = [] }

header_for_anyone_example :
    ((deliver_header board outside 81 other (relay_with auctioned)).1.responses
      ≡ []
        ++ (if is_as_requested board outside other won
            then ok_header won.bid ∷ []
            else bad board outside (codes "Parameters Not As Per Winning Bid")
              ∷ ok_header won.bid
              ∷ []))
    × ((deliver_header board outside 81 other (relay_with auctioned)).1.board ≡ auctioned)
unfolding put_validator_delivered_header
header_for_anyone_example =
    header_for_anyone board outside 81 other (relay_with auctioned) won
      (record { timestamp = 84; block_hash = codes "0xbb"; parent_hash = codes "0xaa" }) bid_found
      refl refl

start-IsConsistent : IsConsistent board start.store
unfolding hash_at text_eq slot_key set_builder_status
start-IsConsistent = record { at_field = λ slot f t h. absurd (cc h) }

abbrev submitted : RelayState outside
submitted = (handle_submit_block board outside 80 (answer bid) (relay_with start)).1

submitted_up : board.redis.up submitted.board.store ≡ true
unfolding handle_submit_block check_status check_timestamp check_not_delivered check_slot
    check_sanity check_rpbs verify verify_signature bytes_to_point check_signer check_newest
    sign_bid store_bid builder_status builder_block_last get_payload_delivered auction_bid
    save_builder_bid set_builder_status text_eq show_ℕ slot_key hash_at field_value parse_ℤ show_ℤ
    fields save_payload_utils put_submission
submitted_up = refl

submit-Wins_example :
    (top : Text × ℤ) × (d : BuilderBlockDatabase) × (before : List (Response outside))
    × (submitted.responses ≡ before ++ answered 80 bid d top ∷ [])
    × ((top.0 ≡ []) ⊎ (IsConsistent board submitted.board.store × Wins board 7 top submitted.board))
submit-Wins_example =
    submit-Wins board_laws 80 bid (relay_with start) start-IsConsistent submit_runs submitted_up

-- ===== src/Tests/Reported.antt =====
-- The handlers together with the database and the reporter.
use mathlib.Core.List.{Perm}
use proof_relay.Base.{ℕ, ◌^◌, ◌≡◌, refl, List, [], ◌∷◌, ◌++◌, ok, err, failed, arith, if◌then◌else◌}
use proof_relay.Text.{codes, text_eq}
use proof_relay.Text.Decimal.{show_ℕ, parse_ℤ, show_ℤ}
use proof_relay.Memory.{hash_at, fields}
use proof_relay.Redis.{field_value}
use proof_relay.Beacon.{answer}
use proof_relay.Database.{BuilderBlockDatabase, done, high_bit}
use proof_relay.Database.Write.{put_builder_block_submission}
use proof_relay.Database.Shown.{IsAscending}
use proof_relay.Reporter.{ReporterSlot, ok_blocks, handle_get_block_submissions_reporter}
use proof_relay.Bids.{
  BoardState, ProposerHeaderResponse, winning_bid, auction_bid, save_builder_bid,
  save_payload_utils, get_payload_delivered,
}
use proof_relay.Bids.Keys.{slot_key}
use proof_relay.Registry.{set_builder_status, builder_status}
use proof_relay.Relay.Submit.{
  bad, submit_checks, db_block, check_status, check_timestamp, check_not_delivered, check_slot,
  check_sanity, check_rpbs, check_signer, handle_submit_block,
}
use proof_relay.Relay.Header.{ProposerReqParams, is_as_requested, deliver_header}
use proof_relay.Relay.Checked.{Records}
use proof_relay.Relay.Reported.{bid_reported}
use proof_relay.Relay.Bound.{large_bid_stuck}
use proof_relay.Rpbs.Decode.{verify}
use proof_relay.Rpbs.Signature.{verify_signature}
use proof_relay.Rpbs.Point.{bytes_to_point}
use proof_relay.Tests.Fixture.{board}
use proof_relay.Tests.Site.{outside, relay_with, start, bid, alice}
use proof_relay.Tests.Database.{postgres, postgres_laws, nothing_stored}

abbrev due : BuilderBlockDatabase
due =
    db_block board outside bid
      (record { timestamp = 84; block_hash = codes "0xbb"; parent_hash = codes "0xaa" }) []

passes : (submit_checks board outside bid (relay_with start)).0 ≡ ok due
unfolding submit_checks check_status check_timestamp check_not_delivered check_slot check_sanity
    check_rpbs verify verify_signature bytes_to_point check_signer builder_status
    get_payload_delivered set_builder_status text_eq show_ℕ slot_key hash_at parse_ℤ show_ℤ
passes = refl

taken : (put_builder_block_submission (outside.hash_submission due) due nothing_stored).0 ≡ done
unfolding put_builder_block_submission text_eq show_ℕ show_ℤ
taken = refl

abbrev limit : ReporterSlot
limit = record { slot_lower = 7; slot_upper = 8 }

bid_reported_example :
    Records bid (relay_with start) due
    × (before : List BuilderBlockDatabase) × (after : List BuilderBlockDatabase)
    × ((handle_get_block_submissions_reporter postgres
          (answer limit)
          (record nothing_stored { outcomes = [] })).0
        ≡ ok_blocks before)
    × ((handle_get_block_submissions_reporter postgres
          (answer limit)
          (handle_submit_block board outside 80 (answer bid) (relay_with start)).1.db).0
        ≡ ok_blocks after)
    × Perm after (due ∷ before)
    × IsAscending (λ r. r.slot) after
unfolding put_builder_block_submission text_eq show_ℕ show_ℤ
bid_reported_example =
    bid_reported postgres postgres_laws 80 bid (relay_with start) due limit passes taken tt
      (omega arith) (omega arith) (omega arith)

-- Alice bids 2 ^ 63 wei, and wins.
abbrev large : BoardState board.redis.Store
large =
    (auction_bid board 7
      (save_builder_bid board 7 alice (codes "0xcc") 80
        (record { version = codes "capella"; signed_bid = 2 ^ 63 }) start).1).1

abbrev won : ProposerHeaderResponse ℕ
won = record {
  slot = 7;
  proposer_pub_key_hex = codes "0xcc";
  bid = record { version = codes "capella"; signed_bid = 2 ^ 63 };
}

bid_found : winning_bid board 7 large ≡ ok won
unfolding winning_bid auction_bid save_builder_bid set_builder_status text_eq show_ℕ slot_key
    hash_at field_value parse_ℤ show_ℤ fields save_payload_utils
bid_found = refl

abbrev request : ProposerReqParams
request = record { slot = 7; proposer_pub_key_hex = codes "0xcc"; parent_hash_hex = [] }

large_bid_stuck_example :
    ((deliver_header board outside 81 request (relay_with large)).0 ≡ err failed)
    × ((deliver_header board outside 81 request (relay_with large)).1 ≡ record (relay_with large) {
      responses =
          []
          ++ (if is_as_requested board outside request won
              then bad board outside high_bit ∷ []
              else bad board outside (codes "Parameters Not As Per Winning Bid")
                ∷ bad board outside high_bit
                ∷ []);
    })
large_bid_stuck_example =
    large_bid_stuck board outside 81 request (relay_with large) won
      (record { timestamp = 84; block_hash = codes "0xbb"; parent_hash = codes "0xaa" }) bid_found
      refl (omega arith)

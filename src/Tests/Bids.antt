-- ===== src/Tests/Bids.antt =====
-- The bid board on concrete bids.
use proof_relay.Base.{
  ℕ, ◌≡◌, ◌≢◌, refl, true, false, some, List, [], ◌∷◌, arith, ok, ◌==◌, if◌then◌else◌,
}
use proof_relay.Text.{Text, codes, text_eq, text_eq_iff}
use proof_relay.Text.Decimal.{pos, show_ℕ, show_ℤ, parse_ℤ}
use proof_relay.Redis.{Distinct, field_value}
use proof_relay.Memory.{memory_laws, hash_at, fields}
use proof_relay.Bids.Keys.{slot_key, slot_proposer_delivered_key}
use proof_relay.Bids.{
  BoardState, ProposerHeaderResponse, GetHeaderResponse, GetPayloadUtils, auction_loop,
  save_builder_bid, builder_block_last, auction_bid, winning_bid, save_payload_utils, payload_utils,
  set_bounty_bid_for_slot, get_bounty_bid_for_slot, put_payload_delivered, get_payload_delivered,
}
use proof_relay.Bids.Order.{auction_order, top_value, SameMap}
use proof_relay.Bids.Auction.{IsAuctioned, auction_bid-IsAuctioned}
use proof_relay.Bids.Storage.{IsConsistent, save_builder_bid-IsConsistent, builder_block_last-save}
use proof_relay.Bids.Winner.{winning_bid-auction_bid, payload_utils-save}
use proof_relay.Bids.Bounty.{bounty_once, payload_delivered}
use proof_relay.Tests.Fixture.{board, board_laws, empty_store}

abbrev start : BoardState board.redis.Store
start = record { store = empty_store; highest_bids = [] }

abbrev header : ℕ → GetHeaderResponse ℕ
header v = record { version = codes "capella"; signed_bid = v }

abbrev alice : Text
alice = codes "0xa1"

abbrev bob : Text
bob = codes "0xb2"

abbrev proposer : Text
proposer = codes "0xcc"

abbrev one_bid : BoardState board.redis.Store
one_bid = (save_builder_bid board 7 alice proposer 100 (header 5) start).1

abbrev two_bids : BoardState board.redis.Store
two_bids = (save_builder_bid board 7 bob proposer 101 (header 9) one_bid).1

auction_runs : (auction_bid board 7 two_bids).0 ≡ ok (bob, pos 9)
unfolding auction_bid save_builder_bid text_eq show_ℕ slot_key hash_at fields parse_ℤ show_ℤ
auction_runs = refl

ne_nil : (c : ℕ) (l : Text) → ◌≢◌ {A = Text} (c ∷ l) []
ne_nil c l e = cc

auction_bid-IsAuctioned_example :
    IsAuctioned board 7 two_bids (auction_bid board 7 two_bids).1 bob (pos 9)
auction_bid-IsAuctioned_example =
    auction_bid-IsAuctioned board 7 two_bids bob (pos 9) memory_laws auction_runs (ne_nil _ _)

start-IsConsistent : IsConsistent board start.store
unfolding hash_at
start-IsConsistent = record { at_field = λ slot f t h. absurd (cc h) }

save_runs : (save_builder_bid board 7 alice proposer 100 (header 5) start).0 ≡ ok tt
unfolding save_builder_bid
save_runs = refl

save_again_runs : (save_builder_bid board 7 bob proposer 101 (header 9) one_bid).0 ≡ ok tt
unfolding save_builder_bid
save_again_runs = refl

one_bid-IsConsistent : IsConsistent board one_bid.store
one_bid-IsConsistent =
    save_builder_bid-IsConsistent board board_laws 7 alice proposer 100 (header 5) start save_runs
      start-IsConsistent

two_bids-IsConsistent : IsConsistent board two_bids.store
two_bids-IsConsistent =
    save_builder_bid-IsConsistent board board_laws 7 bob proposer 101 (header 9) one_bid
      save_again_runs one_bid-IsConsistent

save_builder_bid-IsConsistent_example : IsConsistent board two_bids.store
save_builder_bid-IsConsistent_example =
    save_builder_bid-IsConsistent board board_laws 7 bob proposer 101 (header 9) one_bid
      save_again_runs one_bid-IsConsistent

still_up : board.redis.up (auction_bid board 7 two_bids).1.store ≡ true
unfolding auction_bid save_builder_bid text_eq show_ℕ slot_key hash_at fields parse_ℤ show_ℤ
still_up = refl

winning_bid-auction_bid_example :
    (w : ProposerHeaderResponse ℕ) × (winning_bid board 7 (auction_bid board 7 two_bids).1 ≡ ok w)
    × (w.slot ≡ 7)
    × (pos w.bid.signed_bid ≡ pos 9)
winning_bid-auction_bid_example =
    winning_bid-auction_bid board board_laws 7 two_bids bob (pos 9) two_bids-IsConsistent
      auction_runs (ne_nil _ _) still_up

saved_up : board.redis.up two_bids.store ≡ true
unfolding save_builder_bid
saved_up = refl

builder_block_last-save_run : builder_block_last board 7 bob two_bids ≡ ok (pos 101)
builder_block_last-save_run =
    builder_block_last-save board board_laws 7 bob proposer 101 (header 9) one_bid save_again_runs
      (omega arith) saved_up

abbrev api : GetPayloadUtils ℕ
api = record {
  version = codes "capella";
  header = 3;
  api = codes "http://builder";
  builder_wallet_address = alice;
}

abbrev block : Text
block = codes "0xbb"

utils_runs : (save_payload_utils board 7 block api start).0 ≡ ok tt
unfolding save_payload_utils
utils_runs = refl

utils_up : board.redis.up (save_payload_utils board 7 block api start).1.store ≡ true
unfolding save_payload_utils
utils_up = refl

payload_utils-save_run :
    payload_utils board 7 block (save_payload_utils board 7 block api start).1 ≡ ok api
payload_utils-save_run = payload_utils-save board board_laws 7 block api start utils_runs utils_up

bounty_runs : (set_bounty_bid_for_slot board 7 alice start).0 ≡ ok true
unfolding set_bounty_bid_for_slot text_eq show_ℕ hash_at
bounty_runs = refl

bounty_up : board.redis.up (set_bounty_bid_for_slot board 7 alice start).1.store ≡ true
unfolding set_bounty_bid_for_slot text_eq show_ℕ hash_at
bounty_up = refl

alice_named : text_eq alice [] ≡ false
unfolding text_eq
alice_named = refl

bounty_once_example :
    (get_bounty_bid_for_slot board 7 (set_bounty_bid_for_slot board 7 alice start).1 ≡ ok alice)
    × (set_bounty_bid_for_slot board 7 bob (set_bounty_bid_for_slot board 7 alice start).1
        ≡ (ok false, (set_bounty_bid_for_slot board 7 alice start).1))
bounty_once_example =
    bounty_once board memory_laws 7 alice bob start alice_named bounty_runs bounty_up

delivered_runs : (put_payload_delivered board 7 alice start).0 ≡ ok tt
unfolding put_payload_delivered
delivered_runs = refl

delivered_up : board.redis.up (put_payload_delivered board 7 alice start).1.store ≡ true
unfolding put_payload_delivered
delivered_up = refl

payload_delivered_run :
    (get_payload_delivered board 7 (put_payload_delivered board 7 alice start).1 ≡ ok alice)
    × (board.redis.hash
          (put_payload_delivered board 7 alice start).1.store
          slot_proposer_delivered_key
          (show_ℕ 8)
        ≡ (if 7 == 8
            then some alice
            else board.redis.hash start.store slot_proposer_delivered_key (show_ℕ 8)))
payload_delivered_run =
    payload_delivered board memory_laws 7 8 alice start delivered_runs delivered_up

abbrev forwards : List (Text × Text)
forwards = (alice, codes "5") ∷ (bob, codes "9") ∷ []

abbrev backwards : List (Text × Text)
backwards = (bob, codes "9") ∷ (alice, codes "5") ∷ []

same_map : SameMap forwards backwards
unfolding field_value
same_map f = ground (arith, text_eq_iff alice f, text_eq_iff bob f)

forwards-Distinct : Distinct forwards
unfolding field_value text_eq
forwards-Distinct = (refl, (refl, tt))

backwards-Distinct : Distinct backwards
unfolding field_value text_eq
backwards-Distinct = (refl, (refl, tt))

auction_order_example :
    top_value (auction_loop forwards (pos 0) []) ≡ top_value (auction_loop backwards (pos 0) [])
auction_order_example =
    auction_order forwards backwards same_map forwards-Distinct backwards-Distinct

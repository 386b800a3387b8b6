-- ===== src/Bids.antt =====
-- `BidBoard` (bids/bids.go, bids/types.go): the bids of each slot in Redis, the auction among them,
-- the header that a proposer is given, delivered payloads and bounty bids.
pub mod Keys
pub mod Loop
pub mod Order
pub mod Auction
pub mod Storage
pub mod Winner
pub mod Keeps
pub mod Bounty
use proof_relay.Base.{
  ℕ, ◌<◌, ◌≡◌, Bool, true, false, Option, none, some, List, [], ◌∷◌, ◌++◌, Error, Result, ok, err,
  nil_reply, failed, Action, ◌>>=◌, ◌>>◌, pure, fail, reads, if◌then◌else◌,
}
use proof_relay.Text.{Text, text_eq}
use proof_relay.Text.Decimal.{ℤ, pos, negsuc, ltb_ℤ, show_ℕ, show_ℤ, parse_ℤ, parse_int}
use proof_relay.Redis.{Redis, RedisLaws, hset_obj, get_obj}
use Keys.{
  Kind, builder_key_bid, builder_time_key_bid, builder_value_key_bid, builder_highest_key_bid,
  bid_key_builder_utils, slot_key, slot_proposer_delivered_key, slot_bounty_bid_winner_key,
}

-- `utils.GetHeaderResponse`; `SignedBid` is `relayTypes.SignedBuilderBlockBid`.
pub record GetHeaderResponse (SignedBid : Type 0) : Type 0 where
  pub version : Text
  pub signed_bid : SignedBid

-- `utils.ProposerHeaderResponse`
pub record ProposerHeaderResponse (SignedBid : Type 0) : Type 0 where
  pub slot : ℕ
  pub proposer_pub_key_hex : Text
  pub bid : GetHeaderResponse SignedBid

-- `utils.GetPayloadUtils`; `PayloadHeader` is `commonTypes.VersionedExecutionPayloadHeader`.
pub record GetPayloadUtils (PayloadHeader : Type 0) : Type 0 where
  pub version : Text
  pub header : PayloadHeader
  pub api : Text
  pub builder_wallet_address : Text

-- `bulletinBoardTypes.RelayHighestBid`
pub record RelayHighestBid : Type 0 where
  pub slot : ℕ
  pub builder_public_key : Text
  pub amount : Text

-- What a `BidBoard` is made with, and the types and encodings of packages outside the repository.
pub record Board : Type 1 where
  pub redis : Redis
  pub bid_timeout : ℕ
  pub SignedBid : Type 0
  pub PayloadHeader : Type 0
  -- `.Message.Value`
  pub bid_value : SignedBid → ℤ
  -- `json.Marshal` and `json.Unmarshal`
  pub encode_bid : ProposerHeaderResponse SignedBid → Result Text
  pub decode_bid : Text → Result (ProposerHeaderResponse SignedBid)
  pub encode_utils : GetPayloadUtils PayloadHeader → Result Text
  pub decode_utils : Text → Result (GetPayloadUtils PayloadHeader)

-- What the board relies on.
pub record BoardLaws (B : Board) : Type 0 where
  pub laws : RedisLaws B.redis
  pub timeout_positive : 0 < B.bid_timeout
  pub decode-encode_bid :
      (b : ProposerHeaderResponse B.SignedBid) (t : Text)
      → B.encode_bid b ≡ ok t
      → B.decode_bid t ≡ ok b
  pub decode-encode_utils :
      (u : GetPayloadUtils B.PayloadHeader) (t : Text)
      → B.encode_utils u ≡ ok t
      → B.decode_utils t ≡ ok u

-- Redis, and what was sent on `HighestBidChannel`, the latest last.
pub record BoardState (Store : Type 0) : Type 0 where
  pub store : Store
  pub highest_bids : List RelayHighestBid

module _ {Store : Type 0} where
  -- a Redis command, as an action of the board
  abbrev pub on_store : {A : Type 0} → Action Store A → Action (BoardState Store) A
  on_store m s = let (r, t) = m s.store in (r, record s { store = t })

  abbrev pub send_highest : RelayHighestBid → Action (BoardState Store) (Unit {0})
  send_highest b s = (ok tt, record s { highest_bids = s.highest_bids ++ b ∷ [] })

-- The loop over the reply of `HGETALL` in `AuctionBid`, in the order in which Go ranges over the
-- map. `none` is the early `return` at a value that is no number.
unfoldable pub auction_loop : List (Text × Text) → ℤ → Text → Option (ℤ × Text)
auction_loop [] top_value top_builder = some (top_value, top_builder)
auction_loop ((builder, bid_value) ∷ rest) top_value top_builder = elim (parse_ℤ bid_value) [
  | none ↦ none
  | some v ↦
      let higher = ltb_ℤ top_value v in
      auction_loop rest (if higher then v else top_value) (if higher then builder else top_builder)
]

module _ (B : Board) where
  open B use {redis, bid_timeout, SignedBid, PayloadHeader}
  open redis use {Store, hget, hget_all, hset, set, expire}

  unfoldable pub save_builder_bid :
      ℕ → Text → Text → ℕ → GetHeaderResponse SignedBid → Action (BoardState Store) (Unit {0})
  unfolding hset_obj
  save_builder_bid slot builder proposer received_at header = do
    let bid : ProposerHeaderResponse SignedBid = record {
      slot = slot;
      proposer_pub_key_hex = proposer;
      bid = header;
    }
    on_store (hset_obj redis (slot_key builder_key_bid slot) builder (B.encode_bid bid) bid_timeout)
    on_store (hset (slot_key builder_time_key_bid slot) builder (show_ℕ received_at))
    on_store (expire (slot_key builder_time_key_bid slot) bid_timeout)
    on_store (
        hset (slot_key builder_value_key_bid slot) builder (show_ℤ (B.bid_value header.signed_bid)))
    on_store (expire (slot_key builder_value_key_bid slot) bid_timeout)

  unfoldable pub save_payload_utils :
      ℕ → Text → GetPayloadUtils PayloadHeader → Action (BoardState Store) (Unit {0})
  unfolding hset_obj
  save_payload_utils slot blockhash u = on_store (
      hset_obj redis (slot_key bid_key_builder_utils slot) blockhash (B.encode_utils u) bid_timeout)

  unfoldable pub payload_utils :
      ℕ → Text → BoardState Store → Result (GetPayloadUtils PayloadHeader)
  payload_utils slot blockhash s =
      elim (hget (slot_key bid_key_builder_utils slot) blockhash s.store) [
        | ok value ↦ B.decode_utils value
        | err e ↦ err e
      ]

  -- The part of `AuctionBid` after its loop.
  unfoldable pub announce : ℕ → ℤ → Text → Action (BoardState Store) (Text × ℤ)
  announce slot top_value top_builder = do
    bid ← reads (λ s. hget (slot_key builder_key_bid slot) top_builder s.store)
    on_store (set (slot_key builder_highest_key_bid slot) bid bid_timeout)
    send_highest
        (record { slot = slot; builder_public_key = top_builder; amount = show_ℤ top_value })
    pure (top_builder, top_value)

  -- After the loop: an early return at a bad value has `err == nil`, an empty builder and 0.
  unfoldable pub after_loop : ℕ → Option (ℤ × Text) → Action (BoardState Store) (Text × ℤ)
  unfolding announce
  after_loop slot none = pure ([], pos 0)
  after_loop slot (some (top_value, top_builder)) =
      if text_eq top_builder [] then fail failed else announce slot top_value top_builder

  unfoldable pub auction_bid : ℕ → Action (BoardState Store) (Text × ℤ)
  unfolding after_loop auction_loop
  auction_bid slot = do
    bid_values ← reads (λ s. hget_all (slot_key builder_value_key_bid slot) s.store)
    after_loop slot (auction_loop bid_values (pos 0) [])

  unfoldable pub winning_bid : ℕ → BoardState Store → Result (ProposerHeaderResponse SignedBid)
  unfolding get_obj
  winning_bid slot s = get_obj redis (slot_key builder_highest_key_bid slot) B.decode_bid s.store

  unfoldable pub get_payload_delivered : ℕ → BoardState Store → Result Text
  get_payload_delivered slot s = hget slot_proposer_delivered_key (show_ℕ slot) s.store

  unfoldable pub put_payload_delivered : ℕ → Text → Action (BoardState Store) (Unit {0})
  put_payload_delivered slot builder =
      on_store (hset slot_proposer_delivered_key (show_ℕ slot) builder)

  unfoldable pub builder_block_last : ℕ → Text → BoardState Store → Result ℤ
  builder_block_last slot builder s =
      elim (hget (slot_key builder_time_key_bid slot) builder s.store) [
        | ok t ↦ elim (parse_int t) [ some z ↦ ok z | none ↦ err failed ]
        | err e ↦ err e
      ]

  -- A missing winner is the empty text, and no error.
  unfoldable pub get_bounty_bid_for_slot : ℕ → BoardState Store → Result Text
  get_bounty_bid_for_slot slot s = elim (hget slot_bounty_bid_winner_key (show_ℕ slot) s.store) [
    | ok winner ↦ ok winner
    | err nil_reply ↦ ok []
    | err failed ↦ err failed
  ]

  unfoldable pub get_open_auction_highest_bid : ℕ → BoardState Store → Result ℤ
  unfolding winning_bid
  get_open_auction_highest_bid slot s = elim (winning_bid slot s) [
    | ok b ↦ ok (B.bid_value b.bid.signed_bid)
    | err nil_reply ↦ ok (pos 0)
    | err failed ↦ err failed
  ]

  -- A failed write is reported as a lost bounty, with no error.
  unfoldable pub record_winner : ℕ → Text → Action (BoardState Store) Bool
  record_winner slot builder s =
      let (r, t) = hset slot_bounty_bid_winner_key (show_ℕ slot) builder s.store in
      elim r [
        | ok _ ↦ (ok true, record s { store = t })
        | err _ ↦ (ok false, record s { store = t })
      ]

  unfoldable pub set_bounty_bid_for_slot : ℕ → Text → Action (BoardState Store) Bool
  unfolding get_bounty_bid_for_slot record_winner
  set_bounty_bid_for_slot slot builder = do
    winner ← reads (get_bounty_bid_for_slot slot)
    if text_eq winner [] then record_winner slot builder else pure false

-- ===== src/Bids/Winner.antt =====
-- From the auction to the header that a proposer is given, and the payload that belongs to it.
use proof_relay.Base.{ℕ, ◌≡◌, ◌≢◌, true, [], arith, ◌∙◌, ap, ok}
use proof_relay.Text.{Text, text_eq_refl}
use proof_relay.Text.Decimal.{ℤ, parse_ℤ-show_ℤ}
use proof_relay.Redis.{hset_obj, get_obj}
use proof_relay.Bids.{
  Board, BoardLaws, BoardState, ProposerHeaderResponse, GetPayloadUtils, auction_bid, winning_bid,
  save_payload_utils, payload_utils,
}
use proof_relay.Bids.Keys.{builder_highest_key_bid, bid_key_builder_utils, slot_key}
use proof_relay.Bids.Auction.{auction_bid-IsAuctioned}
use proof_relay.Bids.Storage.{IsConsistent, put_hash}

winning_found :
    (B : Board) (slot : ℕ) (s : BoardState B.redis.Store) (j : Text)
    (w : ProposerHeaderResponse B.SignedBid)
    → B.redis.get (slot_key builder_highest_key_bid slot) s.store ≡ ok j
    → B.decode_bid j ≡ ok w
    → winning_bid B slot s ≡ ok w
unfolding winning_bid get_obj
winning_found B slot s j w found decoded = ground arith

-- On a consistent board, the header that a proposer is given after an auction that named a builder
-- is a header for that slot, and its value is the value that the auction returned, if the server
-- answers.
pub winning_bid-auction_bid :
    (B : Board) (laws : BoardLaws B) (slot : ℕ) (s : BoardState B.redis.Store) (b : Text) (v : ℤ)
    → IsConsistent B s.store
    → (auction_bid B slot s).0 ≡ ok (b, v)
    → b ≢ []
    → B.redis.up (auction_bid B slot s).1.store ≡ true
    → (w : ProposerHeaderResponse B.SignedBid) × (winning_bid B slot (auction_bid B slot s).1
        ≡ ok w)
      × (w.slot ≡ slot)
      × (B.bid_value w.bid.signed_bid ≡ v)
winning_bid-auction_bid B laws slot s b v inv h named up =
    let done = auction_bid-IsAuctioned B slot s b v laws.laws h named in
    let (t, held, parsed) = done.own_bid in
    let (j, kept, highest) = done.header in
    let (json, w, stored, decoded, same_slot, same_value) = inv.at_field slot b t held in
    let same : j ≡ json = cc in
    let value = parse_ℤ-show_ℤ (B.bid_value w.bid.signed_bid) in
    (w, winning_found B slot _ j w (laws.laws.get_some _ j _ up highest) (cc), same_slot, cc)

module _ (B : Board) (laws : BoardLaws B) (slot : ℕ) (blockhash : Text)
    (u : GetPayloadUtils B.PayloadHeader) (s : BoardState B.redis.Store) where
  pub utils_ok :
      (save_payload_utils B slot blockhash u s).0 ≡ ok tt
      → (json : Text) × (B.encode_utils u ≡ ok json)
        × ((B.redis.hset (slot_key bid_key_builder_utils slot) blockhash json s.store).0 ≡ ok tt)
        × ((B.redis.expire
              (slot_key bid_key_builder_utils slot)
              B.bid_timeout
              (B.redis.hset (slot_key bid_key_builder_utils slot) blockhash json s.store).1).0
            ≡ ok tt)
        × ((save_payload_utils B slot blockhash u s).1.store
            ≡ (B.redis.expire
                (slot_key bid_key_builder_utils slot)
                B.bid_timeout
                (B.redis.hset (slot_key bid_key_builder_utils slot) blockhash json s.store).1).1)
  unfolding save_payload_utils hset_obj
  utils_ok h = ground arith

  utils_found :
      (json : Text) (t : BoardState B.redis.Store)
      → B.redis.hget (slot_key bid_key_builder_utils slot) blockhash t.store ≡ ok json
      → B.decode_utils json ≡ ok u
      → payload_utils B slot blockhash t ≡ ok u
  unfolding payload_utils
  utils_found json t found decoded = ground arith

  -- The builder's address and API that were saved for a block are the ones that are read for its
  -- slot and hash, if the server answers.
  pub payload_utils-save :
      (save_payload_utils B slot blockhash u s).0 ≡ ok tt
      → B.redis.up (save_payload_utils B slot blockhash u s).1.store ≡ true
      → payload_utils B slot blockhash (save_payload_utils B slot blockhash u s).1 ≡ ok u
  payload_utils-save done up =
      let (json, encoded, p, q, whole) = utils_ok done in
      let held =
        put_hash B.redis laws.laws B.bid_timeout laws.timeout_positive
          (slot_key bid_key_builder_utils slot) blockhash json s.store (p, q)
          (slot_key bid_key_builder_utils slot) blockhash in
      utils_found json _
        (laws.laws.hget_some _ blockhash json _ up (
          ap (λ (t : B.redis.Store). B.redis.hash t (slot_key bid_key_builder_utils slot) blockhash)
            whole
          ∙ held
          ∙ rw (text_eq_refl (slot_key bid_key_builder_utils slot)) (rw text_eq_refl)))
        (laws.decode-encode_utils u json encoded)

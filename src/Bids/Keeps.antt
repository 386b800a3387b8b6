-- ===== src/Bids/Keeps.antt =====
-- The other writes of a request keep the board consistent too.
use proof_relay.Base.{ℕ, ◌≡◌, ◌≢◌, refl, [], ◌∙◌, sym, ok}
use proof_relay.Text.{Text}
use proof_relay.Text.Decimal.{ℤ}
use proof_relay.Bids.{
  Board, BoardLaws, BoardState, GetPayloadUtils, save_payload_utils, auction_bid,
}
use proof_relay.Bids.Keys.{
  builder_key_bid, builder_value_key_bid, builder_highest_key_bid, bid_key_builder_utils, slot_key,
  text_eq-slot_key,
}
use proof_relay.Bids.Auction.{store-auction_bid}
use proof_relay.Bids.Storage.{IsConsistent, put_hash}
use proof_relay.Bids.Winner.{utils_ok}

module _ (B : Board) (laws : BoardLaws B) where
  -- Consistency reads two families of keys only.
  IsConsistent-same :
      (store store' : B.redis.Store)
      → ((m : ℕ) (f : Text)
          → B.redis.hash store' (slot_key builder_value_key_bid m) f
            ≡ B.redis.hash store (slot_key builder_value_key_bid m) f)
      → ((m : ℕ) (f : Text)
          → B.redis.hash store' (slot_key builder_key_bid m) f
            ≡ B.redis.hash store (slot_key builder_key_bid m) f)
      → IsConsistent B store
      → IsConsistent B store'
  IsConsistent-same store store' values bids inv = record {
    at_field = λ m f t held.
        let (json, b, stored, decoded, same_slot, same_value) =
          inv.at_field m f t (sym (values m f) ∙ held) in
        (json, b, bids m f ∙ stored, decoded, same_slot, same_value);
  }

  pub save_payload_utils-IsConsistent :
      (slot : ℕ) (blockhash : Text) (u : GetPayloadUtils B.PayloadHeader)
      (s : BoardState B.redis.Store)
      → (save_payload_utils B slot blockhash u s).0 ≡ ok tt
      → IsConsistent B s.store
      → IsConsistent B (save_payload_utils B slot blockhash u s).1.store
  save_payload_utils-IsConsistent slot blockhash u s done inv =
      let (json, _, p, q, whole) = utils_ok B laws slot blockhash u s done in
      let key = slot_key bid_key_builder_utils slot in
      let kept =
        put_hash B.redis laws.laws B.bid_timeout laws.timeout_positive key blockhash json s.store
          (p, q) in
      rw whole (
        IsConsistent-same s.store _
          (λ m f.
            kept (slot_key builder_value_key_bid m) f
            ∙ rw (text_eq-slot_key bid_key_builder_utils builder_value_key_bid slot m) refl)
          (λ m f.
            kept (slot_key builder_key_bid m) f
            ∙ rw (text_eq-slot_key bid_key_builder_utils builder_key_bid slot m) refl)
          inv)

  pub auction_bid-IsConsistent :
      (slot : ℕ) (s : BoardState B.redis.Store) (b : Text) (v : ℤ)
      → (auction_bid B slot s).0 ≡ ok (b, v)
      → b ≢ []
      → IsConsistent B s.store
      → IsConsistent B (auction_bid B slot s).1.store
  auction_bid-IsConsistent slot s b v done named inv =
      let (bid, stored, whole) = store-auction_bid B slot s b v done named in
      let kept =
        laws.laws.set_hash (slot_key builder_highest_key_bid slot) bid B.bid_timeout s.store
          stored in
      rw whole (
        IsConsistent-same s.store _
          (λ m f.
            kept (slot_key builder_value_key_bid m) f
              (text_eq-slot_key builder_highest_key_bid builder_value_key_bid slot m))
          (λ m f.
            kept (slot_key builder_key_bid m) f
              (text_eq-slot_key builder_highest_key_bid builder_key_bid slot m))
          inv)

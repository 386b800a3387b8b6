-- ===== src/Bids/Auction.antt =====
-- `AuctionBid` as a whole: what a successful auction has done.
use proof_relay.Base.{
  ℕ, ◌≡◌, ◌≢◌, true, Option, none, some, List, [], ◌∷◌, ◌++◌, arith, inl, inr, sym, ◌∙◌, ap, ok,
  Result-cases, Bool-cases,
}
use proof_relay.Text.{Text, text_eq, text_eq_refl}
use proof_relay.Text.Decimal.{ℤ, pos, ltb_ℤ, parse_ℤ, show_ℤ}
use proof_relay.Redis.{Redis, RedisLaws, field_value}
use proof_relay.Bids.{Board, BoardState, auction_loop, auction_bid, after_loop, announce}
use proof_relay.Bids.Keys.{
  builder_key_bid, builder_value_key_bid, builder_highest_key_bid, slot_key,
}
use proof_relay.Bids.Loop.{From, IsBelow, auction_loop-IsTop}
use proof_relay.Bids.Order.{All-field_value}

module _ (B : Board) (slot : ℕ) (v : ℤ) (b : Text) where
  announce_ok :
      (s : BoardState B.redis.Store) {r : Text × ℤ}
      → (announce B slot v b s).0 ≡ ok r
      → (bid : Text) × (B.redis.hget (slot_key builder_key_bid slot) b s.store ≡ ok bid)
        × ((B.redis.set (slot_key builder_highest_key_bid slot) bid B.bid_timeout s.store).0
            ≡ ok tt)
        × (r ≡ (b, v))
        × ((announce B slot v b s).1.store
            ≡ (B.redis.set (slot_key builder_highest_key_bid slot) bid B.bid_timeout s.store).1)
        × ((announce B slot v b s).1.highest_bids
            ≡ s.highest_bids
              ++ (record { slot = slot; builder_public_key = b; amount = show_ℤ v }) ∷ [])
  unfolding announce
  announce_ok s h = ground arith

-- What a successful auction of a slot has done: the builder holds the highest bid, which is
-- positive; its stored header is the one that proposers will be given; and the result was sent to
-- the bulletin board.
pub record IsAuctioned (B : Board) (slot : ℕ) (s s' : BoardState B.redis.Store) (b : Text) (v : ℤ)
    : Type 0 where
  pub highest :
      (f t : Text)
      → B.redis.hash s.store (slot_key builder_value_key_bid slot) f ≡ some t
      → IsBelow v t
  pub own_bid :
      (t : Text) × (B.redis.hash s.store (slot_key builder_value_key_bid slot) b ≡ some t)
      × (parse_ℤ t ≡ some v)
  pub positive : ltb_ℤ (pos 0) v ≡ true
  pub header :
      (j : Text) × (B.redis.hash s.store (slot_key builder_key_bid slot) b ≡ some j)
      × (B.redis.string s'.store (slot_key builder_highest_key_bid slot) ≡ some j)
  pub sent :
      s'.highest_bids
      ≡ s.highest_bids ++ (record { slot = slot; builder_public_key = b; amount = show_ℤ v }) ∷ []

-- A builder with a name is no start of the loop.
named_source :
    (kvs : List (Text × Text)) (v : ℤ) (b : Text)
    → From kvs (pos 0) [] v b
    → b ≢ []
    → (t : Text) × (field_value b kvs ≡ some t) × (parse_ℤ t ≡ some v) × (ltb_ℤ (pos 0) v ≡ true)
named_source kvs v b (inl (_, empty)) named = absurd (named empty)
named_source kvs v b (inr found) named = found

written_string :
    (R : Redis)
    → RedisLaws R
    → (k v : Text) (ttl : ℕ) (s : R.Store) → (R.set k v ttl s).0 ≡ ok tt
    → R.string (R.set k v ttl s).1 k ≡ some v
written_string R laws k v ttl s done = rw (laws.set_string k v ttl s done k) (rw text_eq_refl)

module _ (B : Board) (slot : ℕ) (s : BoardState B.redis.Store) (b : Text) (v : ℤ) where
  after_loop_ok :
      (o : Option (ℤ × Text))
      → (after_loop B slot o s).0 ≡ ok (b, v)
      → b ≢ []
      → (o ≡ some (v, b)) × (after_loop B slot o s ≡ announce B slot v b s)
  unfolding after_loop
  after_loop_ok none h named = absurd (named (cc))
  after_loop_ok (some (w, c)) h named = elim (Bool-cases (text_eq c [])) [
    | inl empty ↦ absurd (cc (rw empty at h))
    | inr full ↦
        let (_, _, _, same, _, _) = announce_ok B slot w c s (rw full at h) in
        let value : v ≡ w = ap (λ r. r.1) same in
        let builder : b ≡ c = ap (λ r. r.0) same in (rw (value, builder), rw (full, value, builder))
  ]

  auction_ok :
      (auction_bid B slot s).0 ≡ ok (b, v)
      → (kvs : List (Text × Text)) × (B.redis.hget_all (slot_key builder_value_key_bid slot) s.store
          ≡ ok kvs)
        × (auction_bid B slot s ≡ after_loop B slot (auction_loop kvs (pos 0) []) s)
  unfolding auction_bid
  auction_ok h =
      elim (Result-cases (B.redis.hget_all (slot_key builder_value_key_bid slot) s.store)) [
        | inl (kvs, e) ↦ (kvs, e, rw e)
        | inr (x, e) ↦ absurd (cc (rw e at h))
      ]

  -- The store after an auction that named a builder.
  pub store-auction_bid :
      (auction_bid B slot s).0 ≡ ok (b, v)
      → b ≢ []
      → (bid : Text) × ((B.redis.set
            (slot_key builder_highest_key_bid slot)
            bid
            B.bid_timeout
            s.store).0
          ≡ ok tt)
        × ((auction_bid B slot s).1.store
            ≡ (B.redis.set (slot_key builder_highest_key_bid slot) bid B.bid_timeout s.store).1)
  store-auction_bid h named =
      let (kvs, _, whole) = auction_ok h in
      let (_, rest) = after_loop_ok (auction_loop kvs (pos 0) []) (rw whole at h) named in
      let (bid, _, stored, _, store, _) = announce_ok B slot v b s (rw (whole, rest) at h) in
      (bid, stored, rw (whole ∙ rest) store)

  -- When an auction returns a builder, that builder holds a positive bid that is as high as every
  -- other builder's bid for the slot, its stored header has become the slot's winning header, and
  -- the result was sent to the bulletin board.
  pub auction_bid-IsAuctioned :
      RedisLaws B.redis
      → (auction_bid B slot s).0 ≡ ok (b, v)
      → b ≢ []
      → IsAuctioned B slot s (auction_bid B slot s).1 b v
  auction_bid-IsAuctioned laws h named =
      let (kvs, replied, whole) = auction_ok h in
      let (looped, rest) = after_loop_ok (auction_loop kvs (pos 0) []) (rw whole at h) named in
      let (bid, found, stored, _, store, sent) = announce_ok B slot v b s (rw (whole, rest) at h) in
      let top =
        auction_loop-IsTop kvs (pos 0) [] v b (laws.hget_all_distinct _ kvs s.store replied)
          looped in
      let (t, listed, parsed, above) = named_source kvs v b top.source named in
      rw (whole ∙ rest) (record {
        highest = λ f t held.
            All-field_value v f t kvs top.below
              (laws.hget_all_sound _ kvs s.store replied f ∙ held);
        own_bid = (t, sym (laws.hget_all_sound _ kvs s.store replied b) ∙ listed, parsed);
        positive = above;
        header = (
          bid,
          laws.hget_sound _ b bid s.store found,
          rw store (
              written_string B.redis laws (slot_key builder_highest_key_bid slot) bid B.bid_timeout
                s.store stored),
        );
        sent = sent;
      })

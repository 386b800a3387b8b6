-- ===== src/Bids/Storage.antt =====
-- What `SaveBuilderBid` and `SavePayloadUtils` leave in Redis, and what the readers find there.
use proof_relay.Base.{
  ℕ, ◌<◌, ◌^◌, ◌≡◌, refl, true, some, arith, inl, inr, sym, ◌∙◌, ap, ok, Bool-cases, if◌then◌else◌,
  ◌&&◌, ◌==◌, ==_refl,
}
use proof_relay.Text.{Text, text_eq, text_eq_refl}
use proof_relay.Text.Decimal.{ℤ, pos, show_ℤ, show_ℕ, parse_int, parse_int-show_ℕ}
use proof_relay.Redis.{Redis, RedisLaws, hset_obj}
use proof_relay.Bids.{
  Board, BoardLaws, BoardState, GetHeaderResponse, ProposerHeaderResponse, save_builder_bid,
  builder_block_last,
}
use proof_relay.Bids.Keys.{
  builder_key_bid, builder_value_key_bid, builder_time_key_bid, slot_key, text_eq-slot_key,
}

-- A write and the timeout of its key, as every save does them.
abbrev pub put : (R : Redis) → ℕ → Text → Text → Text → R.Store → R.Store
put R ttl k f v s = (R.expire k ttl (R.hset k f v s).1).1

abbrev pub Put : (R : Redis) → ℕ → Text → Text → Text → R.Store → Type 0
Put R ttl k f v s = ((R.hset k f v s).0 ≡ ok tt) × ((R.expire k ttl (R.hset k f v s).1).0 ≡ ok tt)

module _ (R : Redis) (laws : RedisLaws R) (ttl : ℕ) (positive : 0 < ttl) (k f v : Text) where
  pub put_hash :
      (s : R.Store)
      → Put R ttl k f v s
      → (j g : Text)
      → R.hash (put R ttl k f v s) j g
        ≡ (if text_eq k j && text_eq f g then some v else R.hash s j g)
  put_hash s (written, timed) j g =
      laws.expire_hash k ttl (R.hset k f v s).1 positive timed j g
      ∙ laws.hset_hash k f v s written j g

  put_string :
      (s : R.Store) → Put R ttl k f v s → (j : Text) → R.string (put R ttl k f v s) j ≡ R.string s j
  put_string s (written, timed) j =
      laws.expire_string k ttl (R.hset k f v s).1 positive timed j
      ∙ laws.hset_string k f v s written j

block_last_found :
    (B : Board) (slot : ℕ) (builder : Text) (s : BoardState B.redis.Store) (t : Text) (z : ℤ)
    → B.redis.hget (slot_key builder_time_key_bid slot) builder s.store ≡ ok t
    → parse_int t ≡ some z
    → builder_block_last B slot builder s ≡ ok z
unfolding builder_block_last
block_last_found B slot builder s t z found parsed = ground arith

module _ (B : Board) (slot : ℕ) (builder proposer : Text) (received_at : ℕ)
    (header : GetHeaderResponse B.SignedBid) (s : BoardState B.redis.Store) where
  abbrev bid : ProposerHeaderResponse B.SignedBid
  bid = record { slot = slot; proposer_pub_key_hex = proposer; bid = header }

  -- The stores after each of the three writes.
  abbrev with_bid : Text → B.redis.Store
  with_bid json = put B.redis B.bid_timeout (slot_key builder_key_bid slot) builder json s.store

  abbrev with_time : Text → B.redis.Store
  with_time json =
      put B.redis B.bid_timeout (slot_key builder_time_key_bid slot) builder (show_ℕ received_at)
        (with_bid json)

  abbrev with_value : Text → B.redis.Store
  with_value json =
      put B.redis B.bid_timeout (slot_key builder_value_key_bid slot) builder
        (show_ℤ (B.bid_value header.signed_bid)) (with_time json)

  save_ok :
      (save_builder_bid B slot builder proposer received_at header s).0 ≡ ok tt
      → (json : Text) × (B.encode_bid bid ≡ ok json)
        × Put B.redis B.bid_timeout (slot_key builder_key_bid slot) builder json s.store
        × Put B.redis B.bid_timeout
            (slot_key builder_time_key_bid slot)
            builder
            (show_ℕ received_at)
            (with_bid json)
        × Put B.redis B.bid_timeout
            (slot_key builder_value_key_bid slot)
            builder
            (show_ℤ (B.bid_value header.signed_bid))
            (with_time json)
        × ((save_builder_bid B slot builder proposer received_at header s).1
            ≡ record s { store = with_value json })
  unfolding save_builder_bid hset_obj
  save_ok h = ground arith

-- What is found after a save: the new entries at the builder's field of the slot, and nothing else
-- has changed. The keys of two families or two slots never clash.
module _ (B : Board) (laws : BoardLaws B) (slot : ℕ) (builder proposer : Text) (received_at : ℕ)
    (header : GetHeaderResponse B.SignedBid) (s : BoardState B.redis.Store)
    (done : (save_builder_bid B slot builder proposer received_at header s).0 ≡ ok tt) where
  abbrev saved : B.redis.Store
  saved = (save_builder_bid B slot builder proposer received_at header s).1.store

  abbrev json : Text
  json = (save_ok B slot builder proposer received_at header s done).0

  saved_hash :
      (k : Text) (f : Text)
      → B.redis.hash saved k f ≡ (
          if text_eq (slot_key builder_value_key_bid slot) k && text_eq builder f
          then some (show_ℤ (B.bid_value header.signed_bid))
          else if text_eq (slot_key builder_time_key_bid slot) k && text_eq builder f
          then some (show_ℕ received_at)
          else if text_eq (slot_key builder_key_bid slot) k && text_eq builder f
          then some json
          else B.redis.hash s.store k f)
  saved_hash k f =
      let (json, encoded, p1, p2, p3, whole) =
        save_ok B slot builder proposer received_at header s done in
      let rule = put_hash B.redis laws.laws B.bid_timeout laws.timeout_positive in
      ap (λ (t : BoardState B.redis.Store). B.redis.hash t.store k f) whole
      ∙ rw (rule (slot_key builder_value_key_bid slot) builder _ _ p3 k f) (
          rw (rule (slot_key builder_time_key_bid slot) builder _ _ p2 k f)
            (rw (rule (slot_key builder_key_bid slot) builder _ _ p1 k f)))

  saved_value :
      (m : ℕ) (f : Text)
      → B.redis.hash saved (slot_key builder_value_key_bid m) f ≡ (
          if (slot == m) && text_eq builder f
          then some (show_ℤ (B.bid_value header.signed_bid))
          else B.redis.hash s.store (slot_key builder_value_key_bid m) f)
  saved_value m f = simp (saved_hash (slot_key builder_value_key_bid m) f, text_eq-slot_key) refl

  saved_bid :
      (m : ℕ) (f : Text)
      → B.redis.hash saved (slot_key builder_key_bid m) f ≡ (
          if (slot == m) && text_eq builder f
          then some json
          else B.redis.hash s.store (slot_key builder_key_bid m) f)
  saved_bid m f = simp (saved_hash (slot_key builder_key_bid m) f, text_eq-slot_key) refl

  saved_time :
      (m : ℕ) (f : Text)
      → B.redis.hash saved (slot_key builder_time_key_bid m) f ≡ (
          if (slot == m) && text_eq builder f
          then some (show_ℕ received_at)
          else B.redis.hash s.store (slot_key builder_time_key_bid m) f)
  saved_time m f = simp (saved_hash (slot_key builder_time_key_bid m) f, text_eq-slot_key) refl

  -- After a save the builder's last submission of the slot is the time of that save, if it is a
  -- time that `int64` holds and the server answers.
  pub builder_block_last-save :
      received_at < 2 ^ 63
      → B.redis.up saved ≡ true
      → builder_block_last B slot builder
          (save_builder_bid B slot builder proposer received_at header s).1
        ≡ ok (pos received_at)
  builder_block_last-save fits up =
      let found =
        laws.laws.hget_some _ builder (show_ℕ received_at) saved up
          (saved_time slot builder ∙ rw (==_refl slot) (rw text_eq_refl)) in
      block_last_found B slot builder _ (show_ℕ received_at) (pos received_at) found
        (parse_int-show_ℕ received_at fits)

-- Every listed value belongs to a stored bid of the same builder, with that value.
pub record IsConsistent (B : Board) (store : B.redis.Store) : Type 0 where
  pub at_field :
      (slot : ℕ) (f t : Text)
      → B.redis.hash store (slot_key builder_value_key_bid slot) f ≡ some t
      → (json : Text) × (b : ProposerHeaderResponse B.SignedBid) × (B.redis.hash store
            (slot_key builder_key_bid slot)
            f
          ≡ some json)
        × (B.decode_bid json ≡ ok b)
        × (b.slot ≡ slot)
        × (t ≡ show_ℤ (B.bid_value b.bid.signed_bid))

-- A save that succeeds keeps the values and the stored bids of every slot and builder consistent.
pub save_builder_bid-IsConsistent :
    (B : Board) (laws : BoardLaws B) (slot : ℕ) (builder proposer : Text) (received_at : ℕ)
    (header : GetHeaderResponse B.SignedBid) (s : BoardState B.redis.Store)
    → (save_builder_bid B slot builder proposer received_at header s).0 ≡ ok tt
    → IsConsistent B s.store
    → IsConsistent B (save_builder_bid B slot builder proposer received_at header s).1.store
save_builder_bid-IsConsistent B laws slot builder proposer received_at header s done inv = record {
  at_field = λ m f t held.
      let value = saved_value B laws slot builder proposer received_at header s done m f in
      let stored_bid = saved_bid B laws slot builder proposer received_at header s done m f in
      elim (Bool-cases ((slot == m) && text_eq builder f)) [
        | inl here ↦
            let (json, encoded, _, _, _, _) =
              save_ok B slot builder proposer received_at header s done in
            let value' : some (show_ℤ (B.bid_value header.signed_bid)) ≡ some t =
              sym (rw here at value) ∙ held in
            (
              json,
              record { slot = slot; proposer_pub_key_hex = proposer; bid = header },
              rw here at stored_bid,
              laws.decode-encode_bid _ json encoded,
              ground arith,
              cc,
            )
        | inr elsewhere ↦
            let (json, b, stored, decoded, same_slot, same_value) =
              inv.at_field m f t (sym (rw elsewhere at value) ∙ held) in
            (json, b, (rw elsewhere at stored_bid) ∙ stored, decoded, same_slot, same_value)
      ];
}

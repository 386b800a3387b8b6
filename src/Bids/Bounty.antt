-- ===== src/Bids/Bounty.antt =====
-- Delivered payloads and the bounty bid of a slot: who is on record after a write.
use proof_relay.Base.{
  ℕ, ◌≡◌, Bool, true, false, some, [], arith, ◌∙◌, ap, Result, ok, Result-cases, Bool-cases, inl,
  inr, if◌then◌else◌, ◌==◌,
}
use proof_relay.Text.{Text, text_eq, text_eq→eq, text_eq_refl}
use proof_relay.Text.Decimal.{show_ℕ, text_eq-show_ℕ}
use proof_relay.Redis.{RedisLaws}
use proof_relay.Bids.{
  Board, BoardState, get_bounty_bid_for_slot, set_bounty_bid_for_slot, record_winner,
  put_payload_delivered, get_payload_delivered,
}
use proof_relay.Bids.Keys.{slot_bounty_bid_winner_key, slot_proposer_delivered_key}

module _ (B : Board) (laws : RedisLaws B.redis) (slot : ℕ) where
  -- `HSET` of a field, read back.
  written :
      (k f v : Text) (s : B.redis.Store)
      → (B.redis.hset k f v s).0 ≡ ok tt
      → B.redis.up (B.redis.hset k f v s).1 ≡ true
      → B.redis.hget k f (B.redis.hset k f v s).1 ≡ ok v
  written k f v s done up =
      laws.hget_some k f v _ up
        (laws.hset_hash k f v s done k f ∙ rw (text_eq_refl k) (rw text_eq_refl))

  winner_found :
      (s : BoardState B.redis.Store) (w : Text)
      → B.redis.hget slot_bounty_bid_winner_key (show_ℕ slot) s.store ≡ ok w
      → get_bounty_bid_for_slot B slot s ≡ ok w
  unfolding get_bounty_bid_for_slot
  winner_found s w found = ground arith

  recorded :
      (b : Text) (s : BoardState B.redis.Store)
      → (record_winner B slot b s).0 ≡ ok true
      → ((B.redis.hset slot_bounty_bid_winner_key (show_ℕ slot) b s.store).0 ≡ ok tt)
        × ((record_winner B slot b s).1.store
            ≡ (B.redis.hset slot_bounty_bid_winner_key (show_ℕ slot) b s.store).1)
  unfolding record_winner
  recorded b s won = ground arith

  set_when_won :
      (b : Text) (s : BoardState B.redis.Store)
      → (set_bounty_bid_for_slot B slot b s).0 ≡ ok true
      → (set_bounty_bid_for_slot B slot b s ≡ record_winner B slot b s)
        × (get_bounty_bid_for_slot B slot s ≡ ok [])
  unfolding set_bounty_bid_for_slot
  set_when_won b s won = elim (Result-cases (get_bounty_bid_for_slot B slot s)) [
    | inl (w, e) ↦ elim (Bool-cases (text_eq w [])) [
      | inl empty ↦ (rw e (rw empty), rw e (ap ok (text_eq→eq w [] empty)))
      | inr taken ↦ absurd (cc (rw taken at (rw e at won)))
    ]
    | inr (x, e) ↦ absurd (cc (rw e at won))
  ]

  set_when_taken :
      (c w : Text) (s : BoardState B.redis.Store)
      → get_bounty_bid_for_slot B slot s ≡ ok w
      → text_eq w [] ≡ false
      → set_bounty_bid_for_slot B slot c s ≡ (ok false, s)
  unfolding set_bounty_bid_for_slot
  set_when_taken c w s e taken = rw e (rw taken)

  -- When `SetBountyBidForSlot` tells a builder that it won the bounty of a slot and the server answers,
  -- `GetBountyBidForSlot` names that builder in the state that is left, and whoever asks for the bounty
  -- of the slot in that state is told that it lost, and changes nothing.
  pub bounty_once :
      (b c : Text) (s : BoardState B.redis.Store)
      → text_eq b [] ≡ false
      → (set_bounty_bid_for_slot B slot b s).0 ≡ ok true
      → B.redis.up (set_bounty_bid_for_slot B slot b s).1.store ≡ true
      → (get_bounty_bid_for_slot B slot (set_bounty_bid_for_slot B slot b s).1 ≡ ok b)
        × (set_bounty_bid_for_slot B slot c (set_bounty_bid_for_slot B slot b s).1
            ≡ (ok false, (set_bounty_bid_for_slot B slot b s).1))
  bounty_once b c s named won up =
      let (whole, _) = set_when_won b s won in
      let (done, store) = recorded b s (rw whole at won) in
      let all = ap (λ (r : Result Bool × BoardState B.redis.Store). r.1.store) whole ∙ store in
      let reply = written slot_bounty_bid_winner_key (show_ℕ slot) b s.store done (rw all at up) in
      let found = winner_found (set_bounty_bid_for_slot B slot b s).1 b (rw all reply) in
      (found, set_when_taken c b _ found named)

  -- Recording a delivered payload puts the builder on record for that slot, and leaves the record of
  -- every other slot as it was.
  pub payload_delivered :
      (m : ℕ) (b : Text) (s : BoardState B.redis.Store)
      → (put_payload_delivered B slot b s).0 ≡ ok tt
      → B.redis.up (put_payload_delivered B slot b s).1.store ≡ true
      → (get_payload_delivered B slot (put_payload_delivered B slot b s).1 ≡ ok b)
        × (B.redis.hash
              (put_payload_delivered B slot b s).1.store
              slot_proposer_delivered_key
              (show_ℕ m)
            ≡ (if slot == m
                then some b
                else B.redis.hash s.store slot_proposer_delivered_key (show_ℕ m)))
  unfolding put_payload_delivered get_payload_delivered
  payload_delivered m b s done up = (
    written slot_proposer_delivered_key (show_ℕ slot) b s.store done up,
    laws.hset_hash slot_proposer_delivered_key (show_ℕ slot) b s.store done
          slot_proposer_delivered_key (show_ℕ m)
        ∙ rw (text_eq_refl slot_proposer_delivered_key) (rw (text_eq-show_ℕ slot m)),
  )

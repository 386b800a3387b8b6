-- ===== src/Relay/BountyBids.antt =====
-- `handleBountyBids` (relay/relay.go).
use proof_relay.Base.{
  ℕ, ◌+◌, ◌*◌, ◌%◌, ◌^◌, Bool, not, ◌||◌, [], ◌++◌, Result, ok, err, nil_reply, failed, ◌>>=◌, ◌>>◌,
  pure, ltb,
}
use proof_relay.Text.{Text, codes, text_eq}
use proof_relay.Text.Decimal.{ℤ, pos, negsuc, show_ℤ, ltb_ℤ}
use proof_relay.Beacon.{Reply}
use proof_relay.Bids.{
  Board, get_bounty_bid_for_slot, get_open_auction_highest_bid, set_bounty_bid_for_slot,
  builder_block_last,
}
use proof_relay.Relay.{
  BaseHeader, Outside, ok_bid, Handler, respond, require, or_refuse, read_board, on_board, deferred,
  block_slot_timestamp,
}
use proof_relay.Relay.Submit.{
  Block, bad, broken, check_base_header, check_status, check_timestamp, check_not_delivered,
  check_slot, check_sanity, check_rpbs, check_signer, sign_bid, store_bid, db_block, put_submission,
}
use proof_relay.Relay.Header.{uint64}

-- `big.NewInt(0).Mul(v, big.NewInt(2))`
abbrev pub double : ℤ → ℤ
double (pos n) = pos (n * 2)
double (negsuc n) = negsuc (n * 2 + 1)

-- `blockTimestamp > slot_time+3 || blockTimestamp < slot_time+2`, on `uint64`
abbrev pub is_bounty_time : ℕ → ℕ → Bool
is_bounty_time time slot_time =
    not (ltb ((slot_time + 3) % 2 ^ 64) time || ltb time ((slot_time + 2) % 2 ^ 64))

-- An error of `GetOpenAuctionHighestBid` is not looked at: the value beside it is 0.
abbrev pub value_or_zero : Result ℤ → ℤ
value_or_zero (ok v) = v
value_or_zero (err _) = pos 0

module _ (B : Board) (E : Outside B) where
  unfoldable pub check_bounty_time : ℕ → Block B E → Handler E (Unit {0})
  check_bounty_time time b =
      require (is_bounty_time time (block_slot_timestamp E b.slot))
        (bad B E (codes "Bounty Bid Sent Wrong Time"))

  -- Nobody has won the bounty of the slot.
  unfoldable pub check_no_winner : Block B E → Handler E (Unit {0})
  check_no_winner b = do
    winner ←
        read_board (get_bounty_bid_for_slot B b.slot)
          (λ _. bad B E (codes "could not get bounty bid winner"))
    require (text_eq winner []) (bad B E (codes "Bounty Bid Already Accepted"))

  -- The bid is at least twice the highest bid of the open auction.
  unfoldable pub check_amount : Block B E → Handler E (Unit {0})
  check_amount b s =
      let needed = double (value_or_zero (get_open_auction_highest_bid B b.slot s.board)) in
      require (not (ltb_ℤ b.value needed))
        (bad B E (codes "Bounty Amount Not Sufficient, Expecting " ++ show_ℤ needed)) s

  -- The signature is read once more, as ASN.1, and verified.
  unfoldable pub check_signature : Block B E → Text × E.PublicKey → Handler E (Unit {0})
  check_signature b (root, key) = do
    signature ←
        or_refuse (E.asn1_signature b.ecdsa_signature)
          (λ _. bad B E (codes "Failed to parse ECDSA signature"))
    require (E.ecdsa_verify key root signature) (bad B E (codes "ECDSA Signature Invalid"))

  -- As in the other handler, with the times compared as `uint64`.
  unfoldable pub check_newest_bounty : ℕ → Block B E → Handler E (Unit {0})
  check_newest_bounty time b s =
      elim (builder_block_last B b.slot b.builder_wallet_address s.board) [
        | ok last_bid ↦
            require (not (ltb time (uint64 last_bid)))
              (bad B E (codes "Using newer bid for Builder " ++ b.builder_wallet_address)) s
        | err nil_reply ↦ pure tt s
        | err failed ↦
            respond (broken B E (codes "failed getting latest payload receivedAt from redis")) s
      ]

  -- The terms of a bounty bid: its times, that there is no winner yet, and the amount.
  unfoldable pub bounty_terms : ℕ → Block B E → Handler E BaseHeader
  unfolding check_bounty_time check_no_winner check_amount
  bounty_terms time b = do
    base ← check_base_header B E b
    check_timestamp B E b base
    check_bounty_time time b
    check_no_winner b
    check_amount b
    pure base

  -- The builder, the slot and the block.
  unfoldable pub bounty_block : Block B E → Handler E (Unit {0})
  bounty_block b = do
    check_status B E b
    check_not_delivered B E b
    check_slot B E b
    check_sanity B E b
    check_rpbs B E b

  unfoldable pub bounty_signer : Block B E → Handler E (Unit {0})
  unfolding check_signature
  bounty_signer b = do signer ← check_signer B E b; check_signature b signer

  unfoldable pub bounty_checks : ℕ → Block B E → Handler E BaseHeader
  unfolding bounty_terms bounty_block bounty_signer
  bounty_checks time b = do base ← bounty_terms time b; bounty_block b; bounty_signer b; pure base

  unfoldable pub win_bounty : Block B E → Handler E (Unit {0})
  win_bounty b = do
    won ←
        on_board (set_bounty_bid_for_slot B b.slot b.builder_wallet_address)
          (λ _. bad B E (codes "Could Not Set Bounty Bid"))
    require won (bad B E (codes "Bounty Bid Won By Other Builder"))

  abbrev finish_bounty : Block B E → BaseHeader → Text × ℤ → Text → Handler E (Unit {0})
  finish_bounty b base top rpbs =
      let d = db_block B E b base rpbs in
      deferred
        (respond (
          ok_bid (record {
            bid_id = E.hash_submission d;
            highest_bid_value = top.1;
            highest_bid_builder = top.0;
          })))
        (put_submission B E d)

  -- From the signing of the bid on.
  unfoldable pub bounty_rest : ℕ → Block B E → BaseHeader → Handler E (Unit {0})
  unfolding check_newest_bounty win_bounty
  bounty_rest time b base = do
    check_newest_bounty time b
    entries ← sign_bid B E (broken B E) b
    win_bounty b
    top ← store_bid B E time b entries.0 entries.1
    rpbs ← or_refuse (E.marshal_rpbs b.rpbs) (λ _. bad B E (codes "Couldn't Get RPBS String"))
    finish_bounty b base top rpbs

  unfoldable pub handle_bounty_bids : ℕ → Reply (Block B E) → Handler E (Unit {0})
  unfolding bounty_checks bounty_rest
  handle_bounty_bids time body = do
    b ← or_refuse body (bad B E)
    base ← bounty_checks time b
    bounty_rest time b base

-- ===== src/Relay/Bound.antt =====
-- The bid values that `handleProposerHeader` can deliver (relay/relay.go): the row for the database
-- takes them as `uint64`, of which `database/sql` takes the lower half.
use proof_relay.Base.{
  ℕ, ◌^◌, ◌≤◌, ◌≡◌, refl, false, arith, [], ◌∷◌, ◌++◌, ok, err, failed, Bool-cases, inl, inr,
  if◌then◌else◌, ◌&&◌,
}
use proof_relay.Text.{codes}
use proof_relay.Beacon.{answer}
use proof_relay.Database.{high_bit, is_int64}
use proof_relay.Database.Write.{put_validator_delivered_header}
use proof_relay.Bids.{Board, ProposerHeaderResponse, winning_bid}
use proof_relay.Relay.{BaseHeader, Outside, RelayState}
use proof_relay.Relay.Submit.{bad}
use proof_relay.Relay.Header.{
  ProposerReqParams, append_twice, find_bid, is_as_requested, warn_mismatch, block_hash_of,
  put_header, header_row, deliver_header,
}

module _ (B : Board) (E : Outside B) where
  -- Where the winning bid of the slot has a value whose `Uint64` is 2 ^ 63 wei (about 9.22 ether) or
  -- more, no header is delivered to anybody: the request ends with the status 400 and the error of
  -- the database, after a warning if another proposer asks, and board, database and messages are as
  -- they were.
  pub large_bid_stuck :
      (now : ℕ) (p : ProposerReqParams) (s : RelayState E) (w : ProposerHeaderResponse B.SignedBid)
      (base : BaseHeader)
      → winning_bid B p.slot s.board ≡ ok w
      → E.to_base_header (E.signed_header w.bid.signed_bid) ≡ answer base
      → 2 ^ 63 ≤ E.value_uint64 (B.bid_value w.bid.signed_bid)
      → ((deliver_header B E now p s).0 ≡ err failed)
        × ((deliver_header B E now p s).1 ≡ record s {
          responses =
              s.responses
              ++ (if is_as_requested B E p w
                  then bad B E high_bit ∷ []
                  else bad B E (codes "Parameters Not As Per Winning Bid") ∷ bad B E high_bit ∷ []);
        })
  unfolding deliver_header find_bid warn_mismatch block_hash_of put_header
      put_validator_delivered_header
  large_bid_stuck now p s w base found readable large =
      let row = header_row B E p w base.block_hash in
      let high : (is_int64 p.slot && is_int64 row.bid_value) ≡ false = ground arith in
      elim (Bool-cases (is_as_requested B E p w)) [
        | inl same ↦
            rw
              (
                found, same, readable, high, deliver_header, find_bid, warn_mismatch, block_hash_of,
                put_header, put_validator_delivered_header,
              )
              (refl, refl)
        | inr other ↦
            rw
              (
                found, other, readable, high, deliver_header, find_bid, warn_mismatch,
                block_hash_of, put_header, put_validator_delivered_header,
              )
              (
                refl,
                λ i. record s {
                  responses =
                      append_twice s.responses (bad B E (codes "Parameters Not As Per Winning Bid"))
                        (bad B E high_bit) i;
                },
              )
      ]

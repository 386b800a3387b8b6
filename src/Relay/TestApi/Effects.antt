-- ===== src/Relay/TestApi/Effects.antt =====
-- What the requests of relay/relay_test_api.go leave behind.
use proof_relay.Base.{
  ℕ, ◌≡◌, refl, ap, sym, ◌∙◌, true, [], ◌∷◌, ◌++◌, ok, arith, inl, inr, Bool-cases, if◌then◌else◌,
}
use proof_relay.Text.{codes}
use proof_relay.Beacon.{answer}
use proof_relay.Redis.{RedisLaws}
use proof_relay.Database.{done}
use proof_relay.Database.Write.{put_validator_delivered_header}
use proof_relay.Bids.{
  Board, GetPayloadUtils, payload_utils, put_payload_delivered, get_payload_delivered,
  ProposerHeaderResponse, winning_bid,
}
use proof_relay.Bids.Bounty.{payload_delivered}
use proof_relay.Relay.{BlindedBlock, Outside, ok_header, RelayState}
use proof_relay.Relay.Submit.{Block, bad, handle_submit_block}
use proof_relay.Relay.Steps.{Stops}
use proof_relay.Relay.Checked.{submit_checked}
use proof_relay.Relay.Header.{
  ProposerReqParams, find_bid, warn_mismatch, put_header, is_as_requested, log_delivered,
  append_twice,
}
use proof_relay.Database.Shown.Proposer.{put_header_done}
use proof_relay.Relay.TestApi.{
  test_slot, test_block_hash, put_test_block, record_test_delivery, answer_test_payload,
  release_test_payload, handle_proposer_test_payload, test_header_row, deliver_test_header,
}

module _ {B : Board} {E : Outside B} where
  board-release_test :
      (payload : E.Blinded) (block : BlindedBlock) (entry : GetPayloadUtils B.PayloadHeader)
      (s : RelayState E)
      → (release_test_payload B E (payload, block, entry) s).0 ≡ ok tt
      → (release_test_payload B E (payload, block, entry) s).1.board
        ≡ (put_payload_delivered B test_slot entry.builder_wallet_address s.board).1
  unfolding release_test_payload put_test_block record_test_delivery answer_test_payload
  board-release_test payload block entry s e = ground arith

  -- A block that a request for a test payload has, with no condition on its slot, its signature and its
  -- proposer, closes the slot of the test: when the board has an entry for it and the request ends without
  -- an error, and the delivery is written to the board, any bid for that slot that comes in the state which
  -- the request leaves is refused with board and database as they are, if the server answers.
  pub test_closes_slot :
      (laws : RedisLaws B.redis) (payload : E.Blinded) (block : BlindedBlock)
      (entry : GetPayloadUtils B.PayloadHeader) (s : RelayState E) (time : ℕ) (b : Block B E)
      → E.to_base_blinded payload ≡ answer block
      → payload_utils B test_slot test_block_hash s.board ≡ ok entry
      → (handle_proposer_test_payload B E (answer payload) s).0 ≡ ok tt
      → b.slot ≡ test_slot
      → (put_payload_delivered B test_slot entry.builder_wallet_address s.board).0 ≡ ok tt
      → B.redis.up (put_payload_delivered B test_slot entry.builder_wallet_address s.board).1.store
        ≡ true
      → Stops
          (handle_submit_block B E time (answer b))
          (handle_proposer_test_payload B E (answer payload) s).1
  unfolding handle_proposer_test_payload
  test_closes_slot laws payload block entry s time b unpacked stored answered same written up =
      let run = handle_proposer_test_payload B E (answer payload) s in
      let as_released : run ≡ release_test_payload B E (payload, block, entry) s =
        rw (unpacked, stored, handle_proposer_test_payload) refl in
      let board =
        ap (λ x. x.1.board) as_released
        ∙ board-release_test payload block entry s (sym (ap (λ x. x.0) as_released) ∙ answered) in
      let found : get_payload_delivered B b.slot run.1.board ≡ ok entry.builder_wallet_address =
        rw same (
          rw board
            (payload_delivered B laws test_slot 0 entry.builder_wallet_address s.board written
              up).0) in
      elim (submit_checked b run.1 time) [
        | inl all ↦ absurd (cc (sym found ∙ all.not_delivered))
        | inr stops ↦ stops
      ]

  -- When the slot has a winning bid and the database takes the row, a request for a test header is
  -- answered like one for a header, with the header of the winning bid as the last response, whoever asks;
  -- but the row that it leaves among the delivered headers has the value 0 and no block hash.
  pub test_header_lem :
      (now : ℕ) (p : ProposerReqParams) (s : RelayState E) (w : ProposerHeaderResponse B.SignedBid)
      → winning_bid B p.slot s.board ≡ ok w
      → (put_validator_delivered_header (test_header_row B E p) s.db).0 ≡ done
      → ((deliver_test_header B E now p s).1.responses
          ≡ s.responses
            ++ (if is_as_requested B E p w
                then ok_header w.bid ∷ []
                else bad B E (codes "Parameters Not As Per Winning Bid") ∷ ok_header w.bid ∷ []))
        × ((deliver_test_header B E now p s).1.db.tables.headers
            ≡ s.db.tables.headers ++ test_header_row B E p ∷ [])
  unfolding deliver_test_header find_bid warn_mismatch put_header
  test_header_lem now p s w found stored =
      let row = put_header_done (test_header_row B E p) s.db stored in
      elim (Bool-cases (is_as_requested B E p w)) [
        | inl same ↦
            rw
              (
                found, same, stored, deliver_test_header, find_bid, warn_mismatch, put_header,
                log_delivered,
              )
              (refl, row)
        | inr other ↦
            rw
              (
                found, other, stored, deliver_test_header, find_bid, warn_mismatch, put_header,
                log_delivered,
              )
              (append_twice s.responses _ _, row)
      ]

-- ===== src/Relay/Release.antt =====
-- What a proposer has shown when its payload is asked for, and what a delivered payload does to later
-- bids.
use proof_relay.Base.{
  ℕ, ◌≡◌, refl, Bool, true, false, arith, ok, inl, inr, ◌⊎◌, Result-cases, Bool-cases, ◌∙◌, sym,
}
use proof_relay.Text.{Text}
use proof_relay.Beacon.{Reply, answer, failure}
use proof_relay.Beacon.FirstAnswer.{Reply-cases}
use proof_relay.Redis.{RedisLaws}
use proof_relay.Bids.{
  Board, GetPayloadUtils, payload_utils, get_payload_delivered, put_payload_delivered,
}
use proof_relay.Bids.Bounty.{payload_delivered}
use proof_relay.Relay.{BlindedBlock, Outside, RelayState}
use proof_relay.Relay.Submit.{Block, handle_submit_block}
use proof_relay.Relay.Steps.{Stops, Checks}
use proof_relay.Relay.Checked.{submit_checked}
use proof_relay.Relay.Payload.{
  validator_index_to_pubkey, find_proposer, verify_payload, signature_ok, payload_checks,
  release_payload, handle_proposer_payload, put_returned, record_delivery, answer_payload,
}

-- What the relay has checked of a request for a payload.
pub record Entitled (B : Board) (E : Outside B) (payload : E.Blinded) (s : RelayState E)
    : Type 0 where
  pub block : BlindedBlock
  pub unpacked : E.to_base_blinded payload ≡ answer block
  pub proposer : Text
  pub known_key :
      validator_index_to_pubkey B E block.proposer_index s.validator_index_pubkey ≡ answer proposer
  pub version : Text
  pub version_of : E.blinded_version payload ≡ answer version
  pub signed : verify_payload B E version payload block proposer ≡ answer true
  pub entry : GetPayloadUtils B.PayloadHeader
  pub stored : payload_utils B block.slot block.block_hash s.board ≡ ok entry

signature-answer : (r : Reply Bool) → signature_ok r ≡ true → r ≡ answer true
signature-answer (answer true) e = refl
signature-answer (answer false) e = absurd (cc e)
signature-answer (failure t) e = absurd (cc e)

module _ {B : Board} {E : Outside B} (payload : E.Blinded) (s : RelayState E) where
  Checks-payload_checks :
      Checks (λ _. Entitled B E payload s) (payload_checks B E (answer payload)) s
  unfolding payload_checks find_proposer
  Checks-payload_checks = elim (Reply-cases (E.to_base_blinded payload)) [
    | inr (_, e) ↦ inr (rw (e, payload_checks) (refl, refl, refl))
    | inl (block, e) ↦
        elim (Reply-cases
          (validator_index_to_pubkey B E block.proposer_index s.validator_index_pubkey)) [
            | inr (_, f) ↦ inr (rw (e, f, payload_checks, find_proposer) (refl, refl, refl))
            | inl (proposer, f) ↦ elim (Reply-cases (E.blinded_version payload)) [
              | inr (_, g) ↦ inr (rw (e, f, g, payload_checks, find_proposer) (refl, refl, refl))
              | inl (version, g) ↦
                  elim (Bool-cases
                    (signature_ok (verify_payload B E version payload block proposer))) [
                      | inr h ↦
                          inr (rw (e, f, g, h, payload_checks, find_proposer) (refl, refl, refl))
                      | inl h ↦
                          elim (Result-cases
                            (payload_utils B block.slot block.block_hash s.board)) [
                              | inr (_, k) ↦ inr (
                                  rw (e, f, g, h, k, payload_checks, find_proposer)
                                    (refl, refl, refl))
                              | inl (entry, k) ↦ inl (
                                (payload, block, proposer, entry),
                                rw (e, f, g, h, k, payload_checks, find_proposer) refl,
                                record {
                                  block = block;
                                  unpacked = e;
                                  proposer = proposer;
                                  known_key = f;
                                  version = version;
                                  version_of = g;
                                  signed = signature-answer _ h;
                                  entry = entry;
                                  stored = k;
                                },
                              )
                            ]
                    ]
            ]
          ]
  ]

  refused_request :
      Stops (payload_checks B E (answer payload)) s
      → Stops (handle_proposer_payload B E (answer payload)) s
  unfolding handle_proposer_payload
  refused_request (r, same, db) = rw r (refl, same, db)

  -- `handleProposerPayload` goes on to the builder and to the first write only for a block that the
  -- proposer with that index has signed, under a key that the relay knows, and for which a builder's
  -- entry is stored. Otherwise it returns early, with board and database as they were.
  pub payload_checked :
      Entitled B E payload s ⊎ Stops (handle_proposer_payload B E (answer payload)) s
  payload_checked = elim Checks-payload_checks [
    | inl (_, _, all) ↦ inl all
    | inr stops ↦ inr (refused_request stops)
  ]

module _ {B : Board} {E : Outside B} where
  board-release :
      (payload : E.Blinded) (block : BlindedBlock) (proposer : Text)
      (entry : GetPayloadUtils B.PayloadHeader) (s : RelayState E)
      → (release_payload B E (payload, block, proposer, entry) s).0 ≡ ok tt
      → (release_payload B E (payload, block, proposer, entry) s).1.board
        ≡ (put_payload_delivered B block.slot entry.builder_wallet_address s.board).1
  unfolding release_payload put_returned record_delivery answer_payload
  board-release payload block proposer entry s e = ground arith

  -- In the state in which the release of a payload leaves the relay, when the delivery was written to
  -- the board and the server answers, any bid for that slot is refused with board and database as
  -- they are.
  pub delivered_closes_slot :
      (laws : RedisLaws B.redis) (payload : E.Blinded) (block : BlindedBlock) (proposer : Text)
      (entry : GetPayloadUtils B.PayloadHeader) (s : RelayState E) (time : ℕ) (b : Block B E)
      → b.slot ≡ block.slot
      → (release_payload B E (payload, block, proposer, entry) s).0 ≡ ok tt
      → (put_payload_delivered B block.slot entry.builder_wallet_address s.board).0 ≡ ok tt
      → B.redis.up (put_payload_delivered B block.slot entry.builder_wallet_address s.board).1.store
        ≡ true
      → Stops
          (handle_submit_block B E time (answer b))
          (release_payload B E (payload, block, proposer, entry) s).1
  delivered_closes_slot laws payload block proposer entry s time b same released written up =
      let after = (release_payload B E (payload, block, proposer, entry) s).1 in
      let found : get_payload_delivered B b.slot after.board ≡ ok entry.builder_wallet_address =
        rw same (
          rw (board-release payload block proposer entry s released)
            (payload_delivered B laws block.slot 0 entry.builder_wallet_address s.board written
              up).0) in
      elim (submit_checked b after time) [
        | inl all ↦ absurd (cc (sym found ∙ all.not_delivered))
        | inr stops ↦ stops
      ]

-- ===== src/Relay/TestApi.antt =====
-- The handlers of relay/relay_test_api.go, which the relay serves beside the others.
pub mod Effects
use proof_relay.Base.{
  ℕ, ◌≡◌, refl, ap, sym, ◌∙◌, Bool, true, Option, none, some, [], ◌∷◌, ◌++◌, ok, err, nil_reply,
  failed, ◌>>=◌, ◌>>◌, pure, not, ◌==◌, arith, inl, inr, Error, Result, Bool-cases, if◌then◌else◌,
}
use proof_relay.Text.{Text, codes}
use proof_relay.Beacon.{Reply, answer, failure}
use proof_relay.Redis.{RedisLaws}
use proof_relay.Database.{
  Database, Executed, done, refused, panicked, ValidatorDeliveredHeaderDatabase,
}
use proof_relay.Database.Write.{put_validator_returned_block, put_validator_delivered_header}
use proof_relay.Bids.{
  Board, GetPayloadUtils, payload_utils, put_payload_delivered, get_payload_delivered,
  ProposerHeaderResponse, winning_bid,
}
use proof_relay.Bids.Bounty.{payload_delivered}
use proof_relay.Relay.{
  BlindedBlock, Outside, Response, ok_header, ok_payload, RelayState, Handler, respond, refuse,
  require, or_refuse, read_board, deferred,
}
use proof_relay.Relay.Network.{zero_root}
use proof_relay.Relay.Submit.{Block, bad, broken, handle_submit_block}
use proof_relay.Relay.Steps.{Stops}
use proof_relay.Relay.Checked.{submit_checked}
use proof_relay.Relay.Header.{
  ProposerReqParams, proposer_parameters, find_bid, warn_mismatch, put_header, send_request,
  is_as_requested, log_delivered, append_twice,
}
use proof_relay.Database.Shown.Proposer.{put_header_done}

abbrev pub test_slot : ℕ
test_slot = 5861242

abbrev pub test_block_hash : Text
test_block_hash = codes "0x176faae852d13bef85c7a1a6eae46829f87be174727d248e4c588cd5feb089b5"

abbrev pub test_proposer : Text
test_proposer =
    codes
      "0x876789362d262b86dbc70f295f4e367843335eadf2c7a15268c643c7e26da01c14c8ebbec16c1fd52665ec555ffcd8b9"

module _ (B : Board) (E : Outside B) where
  abbrev pub no_entry : Error → Response E
  no_entry nil_reply = bad B E (codes "No Bid Available")
  no_entry failed = bad B E (codes "failed getting builder API")

  abbrev pub log_test_block : Executed × Database → Handler E (Unit {0})
  log_test_block (done, db) s = (ok tt, record s { db = db })
  log_test_block (panicked, db) s = (err failed, record s { db = db })
  log_test_block (refused e, db) s = refuse (broken B E e) (record s { db = db })

  -- The row has the signature of the request, and the slot, the hash and the proposer of the test.
  unfoldable pub put_test_block : BlindedBlock → Handler E (Unit {0})
  put_test_block block s =
      log_test_block
        (put_validator_returned_block
          (record {
            signature = block.signature;
            slot = test_slot;
            block_hash = test_block_hash;
            proposer_pubkey = test_proposer;
          })
          s.db)
        s

  abbrev send_test_request : ℕ → Handler E (Unit {0})
  send_test_request slot s =
      (ok tt, record s { payload_requests = s.payload_requests ++ (slot, test_proposer) ∷ [] })

  unfoldable pub record_test_delivery : Text → RelayState E → RelayState E
  record_test_delivery builder s = record s {
    board = (put_payload_delivered B test_slot builder s.board).1;
  }

  unfoldable pub answer_test_payload : BlindedBlock → E.Payload → Handler E (Unit {0})
  answer_test_payload block payload = do send_test_request block.slot; respond (ok_payload payload)

  -- From the entry of the board on.
  unfoldable pub release_test_payload :
      E.Blinded × BlindedBlock × GetPayloadUtils B.PayloadHeader → Handler E (Unit {0})
  unfolding put_test_block record_test_delivery answer_test_payload
  release_test_payload (payload, block, entry) = do
    put_test_block block
    (status, body) ← or_refuse (E.http_post entry.api payload) (broken B E)
    require (status == 200) (bad B E body)
    released ← or_refuse (E.decode_payload body) (bad B E)
    deferred (answer_test_payload block released)
        (record_test_delivery entry.builder_wallet_address)

  unfoldable pub handle_proposer_test_payload : Reply E.Blinded → Handler E (Unit {0})
  unfolding release_test_payload
  handle_proposer_test_payload body = do
    payload ←
        or_refuse body (λ e. bad B E (codes "Proposer payload request failed to decode. " ++ e))
    block ← or_refuse (E.to_base_blinded payload) (λ e. bad B E (
        codes
          "could not convert versioned signed blinded beacon block to base signed blinded beacon block. "
        ++ e))
    entry ← read_board (payload_utils B test_slot test_block_hash) no_entry
    release_test_payload (payload, block, entry)

  -- The row of a header: no value and no hash.
  abbrev pub test_header_row : ProposerReqParams → ValidatorDeliveredHeaderDatabase
  test_header_row p = record {
    slot = p.slot;
    block_hash = [];
    proposer_pubkey = p.proposer_pub_key_hex;
    bid_value = 0;
  }

  -- The result is the slot for which `testBuilderCall` runs in the background.
  unfoldable pub deliver_test_header : ℕ → ProposerReqParams → Handler E ℕ
  unfolding find_bid warn_mismatch put_header
  deliver_test_header now p = do
    bid ← find_bid B E p.slot
    warn_mismatch B E p bid
    put_header B E (test_header_row p)
    send_request B E p.slot p.proposer_pub_key_hex now
    respond (ok_header bid.bid)
    pure bid.slot

  unfoldable pub test_handle_proposer_header : ℕ → Text → Text → Text → Handler E ℕ
  unfolding proposer_parameters deliver_test_header
  test_handle_proposer_header now slot_str parent_hash pubkey = do
    p ← or_refuse (proposer_parameters B E slot_str parent_hash pubkey) (bad B E)
    deliver_test_header now p

  -- What is sent to which builder; what comes back is only logged.
  unfoldable pub test_builder_call : ℕ → RelayState E → Option (Text × E.Blinded)
  test_builder_call slot s = elim (payload_utils B slot zero_root s.board) [
    | ok entry ↦ some (entry.api, E.blank_block slot zero_root)
    | err _ ↦ none
  ]

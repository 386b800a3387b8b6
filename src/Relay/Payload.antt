-- ===== src/Relay/Payload.antt =====
-- `handleProposerPayload` (relay/relay.go) and `ValidatorIndexToPubkey` (utils/relayUtils.go).
use proof_relay.Base.{
  ℕ, Bool, false, not, length, [], ◌∷◌, ◌++◌, ok, err, failed, ◌>>=◌, ◌>>◌, pure, ◌==◌,
  if◌then◌else◌,
}
use proof_relay.Text.{Text, codes}
use proof_relay.Text.Decimal.{show_ℕ}
use proof_relay.Map.{Map, lookup, nat_key}
use proof_relay.Beacon.{Reply, answer, failure}
use proof_relay.Registry.{or_empty_text}
use proof_relay.Signing.{verify_signature}
use proof_relay.Database.{Database, Executed, done, refused, panicked}
use proof_relay.Database.Write.{put_validator_returned_block, put_validator_delivered_payload}
use proof_relay.Bids.{Board, GetPayloadUtils, payload_utils, put_payload_delivered}
use proof_relay.Relay.{
  BlindedBlock, Outside, ok_payload, RelayState, Handler, respond, refuse, require, or_refuse,
  read_board, deferred,
}
use proof_relay.Relay.Request.{send_http_request}
use proof_relay.Relay.Submit.{bad, broken}

-- The validators of the custom test network.
unfoldable pub custom_validator : ℕ → Text → Text
custom_validator index validator =
    if index == 0
    then codes
        "0xa99a76ed7796f7be22d5b7e85deeb7c5677e88e511e0b337618f8c4eb61349b4bf2d153f649f7b53359fe8b94a38e44c"
    else if index == 1
    then codes
        "0xb89bebc699769726a318c8e9971bd3171297c61aea4a6578a7a4f94b547dcba5bac16a89108b6b6a1fe3695d1a874a0b"
    else if index == 2
    then codes
        "0xa3a32b0f8b4ddb83f1a0a853d81dd725dfe577d4f4c3db8ece52ce2b026eca84815c1a7e8e92a4de3d755733bf7e4a9b"
    else if index == 3
    then codes
        "0x88c141df77cd9d8d7a71a75c826c41a9c9f03c6ee1b180f3e7852f6a280099ded351b58d66e653af8e42816a4d8f532e"
    else validator

-- `!ok || err != nil` does not hold.
abbrev pub signature_ok : Reply Bool → Bool
signature_ok (answer b) = b
signature_ok (failure _) = false

module _ (B : Board) (E : Outside B) where
  -- `PublicKey.FromSlice`
  unfoldable pub public_key_from_slice : Text → Reply Text
  public_key_from_slice x =
      if not (length x == 48) then failure (codes "Wrong Length") else answer x

  abbrev pub sliced : Reply Text → Reply Text
  unfolding public_key_from_slice
  sliced (failure e) = failure e
  sliced (answer b) = public_key_from_slice b

  -- `PublicKey.UnmarshalText`
  unfoldable pub unmarshal_text : Text → Reply Text
  unfolding public_key_from_slice
  unmarshal_text input = sliced (E.unmarshal_hex input)

  -- `PublicKey.String`
  abbrev pub public_key_string : Text → Text
  public_key_string key = codes "0x" ++ E.encode_hex key

  -- A validator that is not in the map is the empty text, which does not parse as a key.
  unfoldable pub validator_index_to_pubkey : ℕ → Map ℕ Text → Reply Text
  unfolding custom_validator unmarshal_text
  validator_index_to_pubkey index validators =
      let validator = or_empty_text (lookup index validators) in
      unmarshal_text
        (if E.network.network == 2 then custom_validator index validator else validator)

  -- The signature of the block's message, under the domain of beacon blocks.
  unfoldable pub verify_payload : Text → E.Blinded → BlindedBlock → Text → Reply Bool
  unfolding verify_signature
  verify_payload version payload block proposer =
      verify_signature E.hashing E.blst (E.blinded_root version payload)
        E.network.domain_beacon_capella proposer block.signature_bytes

  abbrev pub unknown_proposer : ℕ → Text
  unknown_proposer index = codes "Could Not Get Proposer Public Key For Proposer " ++ show_ℕ index

  unfoldable pub find_proposer : BlindedBlock → Handler E Text
  unfolding validator_index_to_pubkey
  find_proposer block s =
      or_refuse (validator_index_to_pubkey block.proposer_index s.validator_index_pubkey)
        (λ _. bad B E (unknown_proposer block.proposer_index)) s

  -- The request as far as nothing is written: the block, its proposer's key, the signature, and what
  -- the builder left for the block.
  unfoldable pub payload_checks :
      Reply E.Blinded
      → Handler E (E.Blinded × BlindedBlock × Text × GetPayloadUtils B.PayloadHeader)
  unfolding find_proposer verify_payload
  payload_checks body = do
    payload ←
        or_refuse body (λ e. bad B E (codes "Proposer payload request failed to decode. " ++ e))
    block ← or_refuse (E.to_base_blinded payload) (λ e. bad B E (
        codes
          "could not convert versioned signed blinded beacon block to base signed blinded beacon block. "
        ++ e))
    proposer ← find_proposer block
    version ←
        or_refuse (E.blinded_version payload)
          (λ e. bad B E (codes "could not get fork version of signed blinded beacon block. " ++ e))
    require (signature_ok (verify_payload version payload block proposer))
        (bad B E (codes "could not verify payload signature"))
    entry ←
        read_board (payload_utils B block.slot block.block_hash)
          (λ _. bad B E (codes "failed getting builder API"))
    pure (payload, block, proposer, entry)

  abbrev pub log_returned : Executed × Database → Handler E (Unit {0})
  log_returned (done, db) s = (ok tt, record s { db = db })
  log_returned (panicked, db) s = (err failed, record s { db = db })
  log_returned (refused e, db) s =
      refuse (broken B E (codes "Error Putting Proposer Returned Block In DB. " ++ e))
        (record s { db = db })

  unfoldable pub put_returned : BlindedBlock → Text → Handler E (Unit {0})
  put_returned block proposer s =
      log_returned
        (put_validator_returned_block
          (record {
            signature = block.signature;
            slot = block.slot;
            block_hash = block.block_hash;
            proposer_pubkey = public_key_string proposer;
          })
          s.db)
        s

  -- The three deferred calls, the last one first: Discord, the board, the database. Their errors are
  -- logged and no more.
  unfoldable pub record_delivery :
      BlindedBlock → Text → Text → Text → E.Payload → RelayState E → RelayState E
  record_delivery block proposer builder hash payload s = record s {
    discord = s.discord ++ (block.slot, builder, public_key_string proposer) ∷ [];
    board = (put_payload_delivered B block.slot builder s.board).1;
    db =
        (put_validator_delivered_payload
          (record {
            slot = block.slot;
            proposer_pubkey = public_key_string proposer;
            block_hash = hash;
            payload = E.payload_json payload;
          })
          s.db).1;
  }

  abbrev send_payload_request : ℕ → Text → Handler E (Unit {0})
  send_payload_request slot proposer s =
      (ok tt, record s { payload_requests = s.payload_requests ++ (slot, proposer) ∷ [] })

  unfoldable pub answer_payload : BlindedBlock → Text → E.Payload → Handler E (Unit {0})
  answer_payload block proposer payload = do
    named ←
        or_refuse (E.with_version_name payload)
          (λ e. bad B E (codes "could not get payload version name. " ++ e))
    respond (ok_payload named)
    send_payload_request block.slot (public_key_string proposer)

  -- From the write to the database on: the payload comes from the builder of the bid.
  unfoldable pub release_payload :
      E.Blinded × BlindedBlock × Text × GetPayloadUtils B.PayloadHeader → Handler E (Unit {0})
  unfolding put_returned record_delivery answer_payload send_http_request
  release_payload (payload, block, proposer, entry) = do
    put_returned block proposer
    resp ←
        or_refuse (send_http_request E entry.api payload)
          (λ e. broken B E (codes "getPayload request to builder failed. " ++ e))
    released ←
        or_refuse (E.decode_payload resp)
          (λ e. bad B E (codes "getPayload request from builder failed to decode. " ++ e))
    hash ← or_refuse (E.payload_block_hash released) (λ e.
        bad B E
          (codes "could not convert versioned execution payload to base execution payload. " ++ e))
    deferred (answer_payload block proposer released)
        (record_delivery block proposer entry.builder_wallet_address hash released)

  unfoldable pub handle_proposer_payload : Reply E.Blinded → Handler E (Unit {0})
  unfolding payload_checks release_payload
  handle_proposer_payload body = do request ← payload_checks body; release_payload request

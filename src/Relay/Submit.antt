-- ===== src/Relay/Submit.antt =====
-- `handleSubmitBlock` (relay/relay.go).
use proof_relay.Base.{
  ℕ, ◌+◌, ◌%◌, ◌^◌, Bool, not, ◌||◌, none, some, ◌++◌, Error, ok, err, nil_reply, failed, ◌>>=◌,
  ◌>>◌, pure, ◌==◌,
}
use proof_relay.Text.{Text, codes, text_eq}
use proof_relay.Text.Decimal.{ℤ, pos, show_ℕ, ltb_ℤ}
use proof_relay.Beacon.{Reply}
use proof_relay.Registry.{builder_status}
use proof_relay.Database.{BuilderBlockDatabase}
use proof_relay.Database.Write.{put_builder_block_submission}
use proof_relay.Rpbs.Decode.{Decoded, verify}
use proof_relay.Bids.{
  Board, GetHeaderResponse, GetPayloadUtils, save_builder_bid, save_payload_utils, auction_bid,
  get_payload_delivered, builder_block_last,
}
use proof_relay.Relay.{
  BuilderBlockBid, BaseHeader, Outside, Response, ok_bid, error_response, RelayState, Handler,
  respond, refuse, require, or_refuse, or_panic, read_board, on_board, deferred,
  block_slot_timestamp,
}
use proof_relay.Relay.Bid.{sanity_builder_block, signed_builder_bid}

module _ (B : Board) (E : Outside B) where
  abbrev pub Block : Type 0
  Block = BuilderBlockBid B.PayloadHeader

  abbrev pub bad : Text → Response E
  bad t = error_response 400 t

  abbrev pub broken : Text → Response E
  broken t = error_response 500 t

  abbrev pub check_base_header : Block → Handler E BaseHeader
  check_base_header b = or_refuse (E.to_base_header b.execution_payload_header) bad

  -- The builder is active in the pool.
  unfoldable pub check_status : Block → Handler E (Unit {0})
  check_status b = do
    status ←
        read_board (λ s. builder_status B.redis b.builder_wallet_address s.store)
          (λ _. bad (codes "Failed To Get Builder"))
    require status (bad (codes "Builder Not Active In PON"))

  unfoldable pub check_timestamp : Block → BaseHeader → Handler E (Unit {0})
  check_timestamp b base =
      require (base.timestamp == block_slot_timestamp E b.slot)
        (bad (codes "incorrect timestamp. got " ++ show_ℕ base.timestamp))

  -- No payload was delivered for the slot: only the reply `redis.Nil` lets the bid pass.
  unfoldable pub check_not_delivered : Block → Handler E (Unit {0})
  check_not_delivered b s = elim (get_payload_delivered B b.slot s.board) [
    | ok builder ↦
        refuse
          (bad (
            codes "Payload For Slot "
            ++ show_ℕ b.slot
            ++ codes " Delivered For Builder "
            ++ builder))
          s
    | err nil_reply ↦ pure tt s
    | err failed ↦ refuse (bad (codes "failed to get delivered payload slot from redis")) s
  ]

  -- The slot is the relay's or the next one, on `uint64`.
  abbrev pub is_open_slot : ℕ → ℕ → Bool
  is_open_slot current slot = slot == current || slot == (current + 1) % 2 ^ 64

  unfoldable pub check_slot : Block → Handler E (Unit {0})
  check_slot b s =
      require (is_open_slot s.current_slot b.slot)
        (bad (
          codes "submission for wrong slot, Expected "
          ++ show_ℕ s.current_slot
          ++ codes " or "
          ++ show_ℕ ((s.current_slot + 1) % 2 ^ 64)
          ++ codes ", Got "
          ++ show_ℕ b.slot))
        s

  unfoldable pub check_sanity : Block → Handler E (Unit {0})
  unfolding sanity_builder_block
  check_sanity b = elim (sanity_builder_block B E b) [ none ↦ pure tt | some e ↦ refuse (bad e) ]

  -- `rpbs.Verify` on the bid
  abbrev pub rpbs_verify : Block → Decoded Bool
  rpbs_verify b =
      verify E.curve E.unmarshal_point E.search_fuel b.builder_wallet_address b.slot b.value
        b.payout_pool_transaction b.rpbs_pubkey b.rpbs

  unfoldable pub check_rpbs : Block → Handler E (Unit {0})
  check_rpbs b = do
    builder_rpbs ← or_panic (rpbs_verify b) (λ _. broken (codes "RPBS Verify Error"))
    require builder_rpbs (bad (codes "RPBS Verify Failed"))

  -- The key that signed the bid belongs to the wallet: the root that was signed, and the key.
  unfoldable pub check_signer : Block → Handler E (Text × E.PublicKey)
  check_signer b = do
    root ←
        or_refuse (E.hash_tree_root b)
          (λ _. bad (codes "could get block bid message hash tree root"))
    pubkey ←
        or_refuse (E.ecrecover root b.ecdsa_signature)
          (λ _. broken (codes "Could not recover ECDSA pubkey"))
    key ←
        or_refuse (E.unmarshal_pubkey pubkey) (λ _. broken (codes "Could not recover ECDSA pubkey"))
    require (text_eq (E.to_lower (E.pubkey_to_address key)) (E.to_lower b.builder_wallet_address))
        (bad (codes "ECDSA pubkey does not match wallet address"))
    pure (root, key)

  abbrev pub db_block : Block → BaseHeader → Text → BuilderBlockDatabase
  db_block b base rpbs = record {
    slot = b.slot;
    builder_pubkey = b.builder_wallet_address;
    builder_signature = b.ecdsa_signature;
    builder_bid_hash = base.block_hash;
    rpbs = rpbs;
    rpbs_public_key = b.rpbs_pubkey;
    transaction_byte = E.encode_hex b.payout_pool_transaction;
    bid_value = b.value;
  }

  -- An error of the database is logged and no more.
  unfoldable pub put_submission : BuilderBlockDatabase → RelayState E → RelayState E
  put_submission d s = record s {
    db = (put_builder_block_submission (E.hash_submission d) d s.db).1;
  }

  -- After an error other than `redis.Nil` the response is written, and the handler goes on.
  unfoldable pub check_newest : ℕ → Block → Handler E (Unit {0})
  check_newest time b s = elim (builder_block_last B b.slot b.builder_wallet_address s.board) [
    | ok last_bid ↦
        require (not (ltb_ℤ (pos time) last_bid))
          (bad (codes "Using newer bid for Builder " ++ b.builder_wallet_address)) s
    | err nil_reply ↦ pure tt s
    | err failed ↦ respond (broken (codes "failed getting latest payload receivedAt from redis")) s
  ]

  abbrev pub payload_entry : Block → Text → GetPayloadUtils B.PayloadHeader
  payload_entry b version = record {
    version = version;
    header = b.execution_payload_header;
    api = b.endpoint;
    builder_wallet_address = b.builder_wallet_address;
  }

  abbrev pub error_of : Error → Response E
  error_of e = broken (E.board_error e)

  -- From `SavePayloadUtils` to `AuctionBid`, the same code in both handlers.
  unfoldable pub store_bid :
      ℕ
      → Block
      → GetHeaderResponse B.SignedBid
      → GetPayloadUtils B.PayloadHeader
      → Handler E (Text × ℤ)
  store_bid time b header entry = do
    on_board (save_payload_utils B b.slot b.block_hash entry) error_of
    on_board (save_builder_bid B b.slot b.builder_wallet_address b.proposer_pubkey time header)
        error_of
    on_board (auction_bid B b.slot) error_of

  -- Signing, the version of the header, and the two entries that are stored.
  unfoldable pub sign_bid :
      (Text → Response E)
      → Block
      → Handler E (GetHeaderResponse B.SignedBid × GetPayloadUtils B.PayloadHeader)
  unfolding signed_builder_bid
  sign_bid sign_error b = do
    signed ← or_refuse (signed_builder_bid B E b) sign_error
    version ←
        or_refuse (E.header_version b.execution_payload_header)
          (λ e. broken (codes "could not get fork version of buuilder payload header: " ++ e))
    pure (record { version = version; signed_bid = signed }, payload_entry b version)

  -- All that comes before the submission is due for the database.
  unfoldable pub submit_checks : Block → Handler E BuilderBlockDatabase
  unfolding check_status check_timestamp check_not_delivered check_slot check_sanity check_rpbs
      check_signer
  submit_checks b = do
    base ← check_base_header b
    check_status b
    check_timestamp b base
    check_not_delivered b
    check_slot b
    check_sanity b
    check_rpbs b
    check_signer b
    rpbs ← or_refuse (E.marshal_rpbs b.rpbs) (λ _. bad (codes "Couldn't Get RPBS String"))
    pure (db_block b base rpbs)

  -- The rest, until the handler returns and the deferred write to the database runs.
  unfoldable pub submit_rest : ℕ → Block → BuilderBlockDatabase → Handler E (Unit {0})
  unfolding check_newest sign_bid store_bid
  submit_rest time b d = do
    check_newest time b
    entries ← sign_bid bad b
    top ← store_bid time b entries.0 entries.1
    respond (
        ok_bid (record {
          bid_id = E.hash_submission d;
          highest_bid_value = top.1;
          highest_bid_builder = top.0;
        }))

  -- `time` is the Unix time of the request, and `body` what its body decodes to.
  unfoldable pub handle_submit_block : ℕ → Reply Block → Handler E (Unit {0})
  unfolding submit_checks submit_rest put_submission
  handle_submit_block time body = do
    b ← or_refuse body bad
    d ← submit_checks b
    deferred (submit_rest time b d) (put_submission d)

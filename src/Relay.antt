-- ===== src/Relay.antt =====
-- The relay's HTTP handlers (relay/relay.go): their state, the code that they call from outside, and
-- how they answer. A handler's steps are an `Action`: its error is a `return` from the handler, and
-- every response that was written until then stays written.
pub mod Bid
pub mod Submit
pub mod Steps
pub mod Checked
pub mod BountyBids
pub mod Header
pub mod Payload
pub mod Release
pub mod Bounty
pub mod Stored
pub mod Reported
pub mod Bound
pub mod Network
pub mod Signed
pub mod TestApi
pub mod Info
pub mod Request
pub mod Staked
use proof_relay.Base.{
  ℕ, ◌+◌, ◌*◌, ◌%◌, ◌^◌, Bool, true, false, Option, none, some, List, [], ◌∷◌, ◌++◌, Error, Result,
  ok, err, failed, Action, ◌>>=◌, ◌>>◌, pure, fail, reads, if◌then◌else◌,
}
use proof_relay.Text.{Text}
use proof_relay.Text.Decimal.{ℤ}
use proof_relay.Map.{Map}
use proof_relay.Database.{BuilderBlockDatabase, Database}
use proof_relay.Rpbs.Signature.{Curve}
use proof_relay.Rpbs.Decode.{EncodedRpbsSignature, Decoded, decoded, refused, panicked, running}
use proof_relay.Beacon.{Reply, answer, failure}
use proof_relay.Bls.{Blst}
use proof_relay.Signing.{Hashing}
use proof_relay.Relay.Network.{EthNetwork}
use proof_relay.Bids.{Board, BoardState, GetHeaderResponse}

-- `builderTypes.BuilderBlockBid` with its message: the texts are what `String()` gives.
pub record BuilderBlockBid (PayloadHeader : Type 0) : Type 0 where
  pub slot : ℕ
  pub proposer_pubkey : Text
  pub block_hash : Text
  pub parent_hash : Text
  pub builder_wallet_address : Text
  pub value : ℤ
  pub endpoint : Text
  pub rpbs : EncodedRpbsSignature
  pub rpbs_pubkey : Text
  pub payout_pool_transaction : Text
  pub execution_payload_header : PayloadHeader
  pub ecdsa_signature : Text

-- The fields of a base execution payload header that are read.
pub record BaseHeader : Type 0 where
  pub timestamp : ℕ
  pub block_hash : Text
  pub parent_hash : Text

-- A signed blinded block as `ToBaseSignedBlindedBeaconBlock` gives it, with the fields that are read.
pub record BlindedBlock : Type 0 where
  pub slot : ℕ
  pub block_hash : Text
  pub proposer_index : ℕ
  pub signature : Text
  pub signature_bytes : Text

-- What the handlers call outside of this model: SSZ, elliptic curves, JSON and the
-- builder's HTTP interface.
pub record Outside (B : Board) : Type 1 where
  pub PublicKey : Type 0
  pub Payload : Type 0
  pub Blinded : Type 0
  pub network : EthNetwork
  pub broker : Text
  pub port : ℕ
  pub hashing : Hashing
  pub blst : Blst
  pub bls_sk : blst.SecretKey
  pub parse_int_error : Text → Text
  pub board_error : Error → Text
  pub to_base_header : B.PayloadHeader → Reply BaseHeader
  -- the block hash of what comes beside an error, `none` for a nil pointer
  pub beside_error : B.PayloadHeader → Option Text
  pub header_version : B.PayloadHeader → Reply Text
  -- the group and the hash under RPBS, `Unmarshal` of a point, and how far the search for a point goes
  pub curve : Curve
  pub unmarshal_point : Text → Option curve.Point
  pub search_fuel : ℕ
  pub hash_tree_root : BuilderBlockBid B.PayloadHeader → Reply Text
  pub ecrecover : Text → Text → Reply Text
  pub unmarshal_pubkey : Text → Reply PublicKey
  pub pubkey_to_address : PublicKey → Text
  pub to_lower : Text → Text
  pub asn1_signature : Text → Reply (ℤ × ℤ)
  pub ecdsa_verify : PublicKey → Text → ℤ × ℤ → Bool
  pub marshal_rpbs : EncodedRpbsSignature → Reply Text
  pub encode_hex : Text → Text
  pub hash_submission : BuilderBlockDatabase → Text
  -- `HashTreeRoot` of a bid with its value, its public key and its header, and the bid with a signature
  pub bid_root : ℤ → Text → B.PayloadHeader → Reply Text
  pub signed_bid : ℤ → Text → B.PayloadHeader → Text → B.SignedBid
  pub signed_header : B.SignedBid → B.PayloadHeader
  pub value_uint64 : ℤ → ℕ
  pub to_base_blinded : Blinded → Reply BlindedBlock
  pub blinded_version : Blinded → Reply Text
  -- `HashTreeRoot` of the message of a blinded block, under a version
  pub blinded_root : Text → Blinded → Reply Text
  -- `UnmarshalText` of `hexutil.Bytes`
  pub unmarshal_hex : Text → Reply Text
  -- `json.Marshal` of a block, and of `http`: a new request with a body, and what `Do` gives, the status
  -- and the body of the response
  pub marshal_blinded : Blinded → Reply Text
  pub new_request : Text → Text → Reply (Unit {0})
  pub client_do : Text → Text → Reply (ℕ × Text)
  -- `http.Post` of a block, with the status and the body of the response
  pub http_post : Text → Blinded → Reply (ℕ × Text)
  -- a blinded block with a slot and a block hash, and nothing else
  pub blank_block : ℕ → Text → Blinded
  pub decode_payload : Text → Reply Payload
  pub payload_block_hash : Payload → Reply Text
  pub payload_json : Payload → Text
  pub with_version_name : Payload → Reply Payload

-- `RelayConfig`
pub record RelayConfig : Type 0 where
  pub mqtt_broker : Text
  pub mqtt_port : ℕ
  pub public_key : Text
  pub chain : ℕ
  pub slot : ℕ

-- `BuilderWinningBid`
pub record BuilderWinningBid : Type 0 where
  pub bid_id : Text
  pub highest_bid_value : ℤ
  pub highest_bid_builder : Text

module _ {B : Board} where
  -- One write to the response: `RespondOK`, `RespondError` with its status, or a bare status 204 or 200.
  pub data Response (E : Outside B) : Type 0 where
    ok_bid : BuilderWinningBid → Response E
    ok_header : GetHeaderResponse B.SignedBid → Response E
    ok_payload : E.Payload → Response E
    error_response : ℕ → Text → Response E
    no_content : Response E
    ok_text : Text → Response E
    ok_config : RelayConfig → Response E
    bare_ok : Response E

  -- What a handler works on: the board with its store, the database, the slot and the look-up of
  -- validators as others keep them, the messages for the bulletin board and the responses.
  pub record RelayState (E : Outside B) : Type 0 where
    pub board : BoardState B.redis.Store
    pub db : Database
    pub current_slot : ℕ
    pub validator_index_pubkey : Map ℕ Text
    pub header_requests : List (ℕ × Text × ℕ)
    pub payload_requests : List (ℕ × Text)
    pub discord : List (ℕ × Text × Text)
    pub responses : List (Response E)

abbrev pub Handler : {B : Board} → Outside B → Type 0 → Type 0
Handler E A = Action (RelayState E) A

module _ {B : Board} {E : Outside B} where
  abbrev pub respond : Response E → Handler E (Unit {0})
  respond r s = (ok tt, record s { responses = s.responses ++ r ∷ [] })

  -- A response, and the handler returns.
  abbrev pub refuse : {A : Type 0} → Response E → Handler E A
  refuse r s = (err failed, record s { responses = s.responses ++ r ∷ [] })

  abbrev pub require : Bool → Response E → Handler E (Unit {0})
  require true r s = (ok tt, s)
  require false r s = (err failed, record s { responses = s.responses ++ r ∷ [] })

  -- `if err != nil { respond; return }`
  abbrev pub or_refuse : {A : Type 0} → Reply A → (Text → Response E) → Handler E A
  or_refuse (answer a) r s = (ok a, s)
  or_refuse (failure e) r s = (err failed, record s { responses = s.responses ++ r e ∷ [] })

  -- A panic ends the request without a response, as `net/http` recovers it. A search without end
  -- would hold it for ever.
  abbrev pub or_panic : {A : Type 0} → Decoded A → (Text → Response E) → Handler E A
  or_panic (decoded a) r s = (ok a, s)
  or_panic (refused e) r s = (err failed, record s { responses = s.responses ++ r e ∷ [] })
  or_panic panicked r s = (err failed, s)
  or_panic running r s = (err failed, s)

  abbrev pub result_or_refuse : {A : Type 0} → Result A → (Error → Response E) → Handler E A
  result_or_refuse (ok a) r s = (ok a, s)
  result_or_refuse (err e) r s = (err failed, record s { responses = s.responses ++ r e ∷ [] })

  -- A call that reads the board.
  abbrev pub read_board :
      {A : Type 0} → (BoardState B.redis.Store → Result A) → (Error → Response E) → Handler E A
  read_board f r s = result_or_refuse (f s.board) r s

  -- A call that changes the board, an error of it included.
  abbrev pub on_board :
      {A : Type 0} → Action (BoardState B.redis.Store) A → (Error → Response E) → Handler E A
  on_board m r s =
      let (result, board) = m s.board in result_or_refuse result r (record s { board = board })

  -- A deferred call: it runs when the handler returns, however it does.
  abbrev pub deferred : {A : Type 0} → Handler E A → (RelayState E → RelayState E) → Handler E A
  deferred m d s = let (r, t) = m s in (r, d t)

-- `BlockSlotTimestamp`, on `uint64`
abbrev pub block_slot_timestamp : {B : Board} → Outside B → ℕ → ℕ
block_slot_timestamp E slot = (E.network.genesis_time + slot * 12) % 2 ^ 64

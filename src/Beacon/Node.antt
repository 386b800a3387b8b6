-- ===== src/Beacon/Node.antt =====
-- The HTTP side of one beacon node (beaconinterface/client): fetchBeacon and postBeacon (utils.go), the
-- calls over them (fetchBeacon.go, postBeacon.go) and the subscriptions (beaconclientSub.go).
pub mod Served
pub mod Forks
pub mod Subscribed
use proof_relay.Base.{
  ℕ, ◌+◌, Bool, true, false, not, Option, none, some, List, [], ◌∷◌, ◌++◌, leb, ◌&&◌, if◌then◌else◌,
}
use proof_relay.Text.{Text, codes}
use proof_relay.Text.Decimal.{show_ℕ}
use proof_relay.Map.{Map, lookup, insert, nat_key, text_key}
use proof_relay.Beacon.{
  Reply, answer, failure, BeaconTypes, SyncStatusData, ProposerDutyData, BlockHeaderData,
}

-- A response of `net/http`; `body` is what `io.ReadAll` gives.
pub record HttpResponse : Type 0 where
  pub status_code : ℕ
  pub body : Reply Text

-- What a call returns, or that it panics.
pub data Called {ℓ} (A : Type ℓ) : Type ℓ where
  returned : Reply A → Called A
  nil_pointer : Called A

-- What the client calls: `net/url`, `net/http`, and `encoding/json` for the types that it decodes. A
-- decoder for a pointer to a pointer gives `none` for `null`, which sets the pointer to nil.
pub record Http (T : BeaconTypes) : Type 1 where
  pub SignedBlock : Type 0
  pub endpoint : Text
  -- the endpoint with another path and another query
  pub url_string : Text → Text → Text
  pub encode_query : List (Text × Text) → Text
  pub new_request : Text → Reply (Unit {0})
  pub do_get : Text → Reply HttpResponse
  pub do_post : Text → Text → Reply HttpResponse
  -- the member `message` of an error response
  pub unmarshal_error : Text → Reply Text
  pub unmarshal_duties : Text → Reply (List ProposerDutyData)
  pub unmarshal_sync_status : Text → Reply (Option SyncStatusData)
  pub unmarshal_validators : Text → Reply (List T.ValidatorData)
  pub unmarshal_validators_pointer : Text → Reply (Option (List T.ValidatorData))
  pub unmarshal_genesis : Text → Reply (Option (Option T.GenesisData))
  pub unmarshal_withdrawals : Text → Reply (Option (Option T.Withdrawals))
  pub unmarshal_randao : Text → Reply (Option T.Hash)
  pub unmarshal_block_header : Text → Reply (Option (Option BlockHeaderData))
  pub unmarshal_spec : Text → Reply (Option (Map Text Text))
  pub unmarshal_fork : Text → Reply (Option Text)
  pub block_json : SignedBlock → Reply Text

-- An error in its context: `fmt.Errorf("... %s: %w", u, err)`, and with the body.
abbrev pub wrapped : Text → Text → Text → Text
wrapped context u e = context ++ u ++ codes ": " ++ e

abbrev pub wrapped_body : Text → Text → Text → Text → Text
wrapped_body context u body e = context ++ u ++ codes " from " ++ body ++ codes ": " ++ e

abbrev pub error_reply : Text → Text → Reply Text → Text
error_reply u body (failure e) =
    wrapped_body (codes "could not unmarshal error response from beacon node for ") u body e
error_reply u body (answer message) =
    wrapped (codes "error response from beacon node for ") u message

module _ {T : BeaconTypes} (h : Http T) where
  module _ {ℓ} {A : Type ℓ} (unmarshal : Text → Reply A) where
    abbrev pub decoded_body : Text → Text → Reply A → Reply A
    decoded_body u body (answer a) = answer a
    decoded_body u body (failure e) =
        failure (wrapped_body (codes "could not unmarshal response for ") u body e)

    abbrev pub read_body : Text → ℕ → Reply Text → Reply A
    read_body u status (failure e) =
        failure (wrapped (codes "could not read response body for ") u e)
    read_body u status (answer body) =
        if leb 300 status
        then failure (error_reply u body (h.unmarshal_error body))
        else decoded_body u body (unmarshal body)

    abbrev pub read_response : Text → Reply HttpResponse → Reply A
    read_response u (failure e) = failure (wrapped (codes "client refused for ") u e)
    read_response u (answer r) = read_body u r.status_code r.body

    abbrev pub send_get : Text → Reply (Unit {0}) → Reply A
    send_get u (failure e) = failure (wrapped (codes "invalid request for ") u e)
    send_get u (answer _) = read_response u (h.do_get u)

    unfoldable pub fetch_beacon : Text → Reply A
    fetch_beacon u = send_get u (h.new_request u)

  -- What is posted: bytes as they are, or a value with what `json.Marshal` makes of it.
  pub data Body : Type 0 where
    bytes : Text → Body
    value : Reply Text → Body

  abbrev pub body_bytes : Body → Reply Text
  body_bytes (bytes b) = answer b
  body_bytes (value (answer b)) = answer b
  body_bytes (value (failure e)) = failure (codes "could not marshal payload: " ++ e)

  abbrev pub posted_error : Text → Reply Text → Option Text
  posted_error u (failure e) = some (codes "failed to read error response body: " ++ e)
  posted_error u (answer body) = elim (h.unmarshal_error body) [
    | failure e ↦ some (codes "failed to unmarshal error response: " ++ e)
    | answer message ↦ some (wrapped (codes "error response from beacon node for ") u message)
  ]

  abbrev pub posted_response : Text → Reply HttpResponse → Option Text
  posted_response u (failure e) = some (codes "failed to post request: " ++ e)
  posted_response u (answer r) = if leb 300 r.status_code then posted_error u r.body else none

  abbrev pub send_post : Text → Text → Reply (Unit {0}) → Option Text × List (Text × Text)
  send_post u b (failure e) = (some (wrapped (codes "invalid request for ") u e), [])
  send_post u b (answer _) = (posted_response u (h.do_post u b), (u, b) ∷ [])

  abbrev pub post_bytes : Text → Reply Text → Option Text × List (Text × Text)
  post_bytes u (failure e) = (some e, [])
  post_bytes u (answer b) = send_post u b (h.new_request u)

  -- The error, and what went to `Do`.
  unfoldable pub post_beacon : Text → Body → Option Text × List (Text × Text)
  post_beacon u src = post_bytes u (body_bytes src)

  abbrev pub post_block : Text → Reply Text → Option Text × List (Text × Text)
  unfolding post_beacon
  post_block u (failure e) = (some e, [])
  post_block u (answer b) = post_beacon u (bytes b)

  unfoldable pub publish_block : h.SignedBlock → Option Text × List (Text × Text)
  unfolding post_beacon
  publish_block block =
      post_block (h.url_string (codes "/eth/v1/beacon/blocks") []) (h.block_json block)

  abbrev pub duties_map : List ProposerDutyData → Map ℕ ProposerDutyData → Map ℕ ProposerDutyData
  unfolding insert
  duties_map [] m = m
  duties_map (d ∷ ds) m = duties_map ds (insert d.slot d m)

  abbrev pub proposers_of : Reply (List ProposerDutyData) → Reply (Map ℕ ProposerDutyData)
  proposers_of (failure e) = failure e
  proposers_of (answer ds) = answer (duties_map ds [])

  unfoldable pub get_slot_proposer_map : ℕ → Reply (Map ℕ ProposerDutyData)
  unfolding fetch_beacon
  get_slot_proposer_map epoch = proposers_of (
      fetch_beacon h.unmarshal_duties
        (h.url_string (codes "/eth/v1/validator/duties/proposer/" ++ show_ℕ epoch) []))

  unfoldable pub sync_status : Reply (Option SyncStatusData)
  unfolding fetch_beacon
  sync_status =
      fetch_beacon h.unmarshal_sync_status (h.url_string (codes "/eth/v1/node/syncing") [])

  unfoldable pub get_validator_list : ℕ → Reply (List T.ValidatorData)
  unfolding fetch_beacon
  get_validator_list head_slot = fetch_beacon h.unmarshal_validators (
      h.url_string (codes "/eth/v1/beacon/states/" ++ show_ℕ head_slot ++ codes "/validators")
        (h.encode_query ((codes "status", codes "active,pending") ∷ [])))

  abbrev pub id_query : List Text → List (Text × Text)
  id_query [] = []
  id_query (v ∷ vs) = (codes "id", v) ∷ id_query vs

  -- `none`: the pointer is nil.
  unfoldable pub get_validator_index : List Text → Reply (Option (List T.ValidatorData))
  unfolding fetch_beacon
  get_validator_index validators = fetch_beacon h.unmarshal_validators_pointer (
      h.url_string (codes "/eth/v1/beacon/states/head/validators")
        (h.encode_query (id_query validators)))

  -- `resp.Data`, for a response that may be nil.
  abbrev pub data_of {ℓ} : {A : Type ℓ} → Reply (Option A) → Called A
  data_of (failure e) = returned (failure e)
  data_of (answer none) = nil_pointer
  data_of (answer (some a)) = returned (answer a)

  unfoldable pub genesis : Called (Option T.GenesisData)
  unfolding fetch_beacon
  genesis =
      data_of (fetch_beacon h.unmarshal_genesis (h.url_string (codes "/eth/v1/beacon/genesis") []))

  unfoldable pub get_withdrawals : ℕ → Called (Option T.Withdrawals)
  unfolding fetch_beacon
  get_withdrawals slot = data_of (
      fetch_beacon h.unmarshal_withdrawals (
        h.url_string
          (codes "/eth/v1/builder/states/" ++ show_ℕ slot ++ codes "/expected_withdrawals") []))

  unfoldable pub randao : ℕ → Called T.Hash
  unfolding fetch_beacon
  randao slot = data_of (
      fetch_beacon h.unmarshal_randao
        (h.url_string (codes "/eth/v1/beacon/states/" ++ show_ℕ slot ++ codes "/randao") []))

  unfoldable pub get_block_header : ℕ → Called (Option BlockHeaderData)
  unfolding fetch_beacon
  get_block_header slot = data_of (
      fetch_beacon h.unmarshal_block_header
        (h.url_string (codes "/eth/v1/beacon/headers/" ++ show_ℕ slot) []))

  unfoldable pub get_current_block_header : Called (Option BlockHeaderData)
  unfolding fetch_beacon
  get_current_block_header = data_of (
      fetch_beacon h.unmarshal_block_header (h.url_string (codes "/eth/v1/beacon/headers/head") []))

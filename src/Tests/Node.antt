-- ===== src/Tests/Node.antt =====
-- One beacon node that answers over HTTP.
use proof_relay.Base.{◌≡◌, ◌≢◌, ◌↔◌, refl, Bool, not, true, false, none, some, List, [], ◌∷◌}
use proof_relay.Text.{Text, codes, text_eq}
use proof_relay.Map.{insert}
use proof_relay.Beacon.{Reply, answer, failure}
use proof_relay.Beacon.Node.{Http, fetch_beacon, returned, nil_pointer, publish_block, genesis}
use proof_relay.Beacon.Node.Served.{Served, fetch_beacon_lem, genesis_nil}
use proof_relay.Beacon.Node.Forks.{get_fork_version, known_specs}
use proof_relay.Beacon.Node.Forks.Order.{names_of, get_fork_version_lem}
use proof_relay.Beacon.Node.Subscribed.{
  context_done, broken, Session, subscribe_to_head_events, subscribe_to_payload_attributes_events,
  subscribe_to_head_events_lem, subscribe_to_payload_attributes_events_lem,
}
use proof_relay.Tests.Beacon.{types}

abbrev specification : List (Text × Text)
specification =
    (codes "SECONDS_PER_SLOT", codes "12")
    ∷ (codes "BELLATRIX_FORK_VERSION", codes "0x02000000")
    ∷ (codes "CAPELLA_FORK_VERSION", codes "0x03000000")
    ∷ []

-- The body of a response is the path that was asked.
abbrev node : Http types
node = record {
  SignedBlock = Text;
  endpoint = codes "http://node";
  url_string = λ path query. path;
  encode_query = λ q. [];
  new_request = λ u. answer tt;
  do_get = λ u. answer (record { status_code = 200; body = answer u });
  do_post = λ u b. answer (record { status_code = 202; body = answer [] });
  unmarshal_error = λ t. answer t;
  unmarshal_duties = λ t. answer [];
  unmarshal_sync_status = λ t. answer none;
  unmarshal_validators = λ t. answer [];
  unmarshal_validators_pointer = λ t. answer none;
  unmarshal_genesis = λ t. answer none;
  unmarshal_withdrawals = λ t. answer none;
  unmarshal_randao = λ t. answer none;
  unmarshal_block_header = λ t. answer none;
  unmarshal_spec = λ t. answer (some specification);
  unmarshal_fork = λ t. answer (some (codes "0x03000000"));
  block_json = λ b. answer b;
}

get_fork_version_lem_example :
    get_fork_version node 0 true ≡ returned (answer (codes "capella", codes "0x03000000"))
unfolding names_of fetch_beacon
get_fork_version_lem_example =
    get_fork_version_lem node 0 true specification (codes "0x03000000") (codes "capella") refl refl
      (refl, tt)

-- Two forks with one version: the name depends on the order of the range.
abbrev two_names : List (Text × Text)
two_names =
    (codes "ALTAIR_FORK_VERSION", codes "0x01") ∷ (codes "GENESIS_FORK_VERSION", codes "0x01") ∷ []

two_names_run :
    (known_specs two_names [] ≡ (codes "0x01", codes "genesis") ∷ [])
    × (known_specs
          ((codes "GENESIS_FORK_VERSION", codes "0x01")
            ∷ (codes "ALTAIR_FORK_VERSION", codes "0x01")
            ∷ [])
          []
        ≡ (codes "0x01", codes "altair") ∷ [])
unfolding known_specs insert text_eq
two_names_run = (refl, refl)

publish_block_run :
    publish_block node (codes "{}") ≡ (none, (codes "/eth/v1/beacon/blocks", codes "{}") ∷ [])
unfolding publish_block
publish_block_run = refl

fetch_beacon_lem_example :
    (fetch_beacon node node.unmarshal_fork (codes "/fork") ≡ answer (some (codes "0x03000000")))
    ↔ Served node node.unmarshal_fork (codes "/fork") (some (codes "0x03000000"))
fetch_beacon_lem_example =
    fetch_beacon_lem node node.unmarshal_fork (codes "/fork") (some (codes "0x03000000"))

genesis_nil_run :
    (genesis node ≡ nil_pointer)
    ↔ Served node node.unmarshal_genesis (codes "/eth/v1/beacon/genesis") none
genesis_nil_run = genesis_nil node

abbrev read : Text → Reply Text
read [] = failure (codes "unexpected end of JSON input")
read (c ∷ t) = answer (c ∷ t)

abbrev canceled : Session
canceled = record { messages = codes "c" ∷ []; ending = context_done }

abbrev dropped : Session
dropped = record { messages = codes "a" ∷ [] ∷ codes "b" ∷ []; ending = broken }

subscribe_to_head_events_run :
    subscribe_to_head_events read (dropped ∷ canceled ∷ dropped ∷ [])
    ≡ record { forwarded = codes "a" ∷ codes "b" ∷ codes "c" ∷ []; returned = true }
subscribe_to_head_events_run =
    subscribe_to_head_events_lem read (dropped ∷ []) canceled (dropped ∷ []) (lasts, tt) refl
  where
    lasts : broken ≢ context_done
    lasts e = absurd (cc e)

-- The event b has no data.
abbrev with_data : Text → Bool
with_data t = not (text_eq t (codes "b"))

subscribe_to_payload_attributes_events_lem_example :
    subscribe_to_payload_attributes_events read with_data (dropped ∷ canceled ∷ [])
    ≡ record { forwarded = codes "a" ∷ codes "c" ∷ []; returned = false }
unfolding text_eq
subscribe_to_payload_attributes_events_lem_example =
    subscribe_to_payload_attributes_events_lem read with_data (dropped ∷ canceled ∷ [])

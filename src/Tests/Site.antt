-- ===== src/Tests/Site.antt =====
-- A concrete relay: what it calls from outside, its state, and the bid of a builder.
use proof_relay.Base.{some, ℕ, true, none, [], ◌∷◌}
use proof_relay.Text.{Text, codes}
use proof_relay.Text.Decimal.{ℤ, pos, negsuc}
use proof_relay.Beacon.{answer}
use proof_relay.Database.{Database}
use proof_relay.Database.Keys.Reach.{empty}
use proof_relay.Bids.{BoardState}
use proof_relay.Registry.{set_builder_status}
use proof_relay.Relay.Submit.{Block}
use proof_relay.Relay.{Outside, RelayState}
use proof_relay.Rpbs.Decode.{EncodedRpbsSignature}
use proof_relay.Signing.{Hashing}
use proof_relay.Tests.Bls.{scheme, repeated}
use proof_relay.Tests.Rpbs.{curve}
use proof_relay.Tests.Fixture.{board, empty_store}

abbrev pub uint : ℤ → ℕ
uint (pos n) = n
uint (negsuc n) = 0

abbrev pub alice : Text
alice = codes "0xa1"

-- Every root is the same 32 bytes.
abbrev pub hashing : Hashing
hashing = record {
  merkleize = λ chunks. answer (repeated 32 1);
  hex_to_hash = λ t. repeated 32 0;
  hexutil_decode = λ t. answer (repeated 4 3);
}

abbrev pub outside : Outside board
outside = record {
  PublicKey = Text;
  Payload = ℕ;
  Blinded = ℕ;
  network = record {
    network = 1;
    genesis_time = 0;
    domain_builder = codes "builder";
    domain_beacon_capella = codes "capella";
  };
  broker = codes "broker";
  port = 1883;
  hashing = hashing;
  blst = scheme;
  bls_sk = 7;
  parse_int_error = λ t. codes "invalid syntax";
  board_error = λ e. codes "redis";
  to_base_header =
      λ h. answer (record { timestamp = h; block_hash = codes "0xbb"; parent_hash = codes "0xaa" });
  beside_error = λ h. none;
  header_version = λ h. answer (codes "capella");
  curve = curve;
  unmarshal_point = λ t. some true;
  search_fuel = 3;
  hash_tree_root = λ b. answer (codes "root");
  ecrecover = λ root s. answer s;
  unmarshal_pubkey = λ t. answer t;
  pubkey_to_address = λ k. k;
  to_lower = λ t. t;
  asn1_signature = λ t. answer (pos 1, pos 2);
  ecdsa_verify = λ k t s. true;
  marshal_rpbs = λ r. answer [];
  encode_hex = λ t. t;
  hash_submission = λ d. codes "0123456789abcdef0123456789abcdef";
  bid_root = λ v k h. answer (codes "bid");
  signed_bid = λ v k h s. uint v;
  signed_header = λ v. 84;
  value_uint64 = uint;
  to_base_blinded = λ n. answer (record {
    slot = 7;
    block_hash = codes "0xbb";
    proposer_index = 5;
    signature_bytes = repeated 96 7;
    signature = codes "0x0123456789abcdef0123456789abcdef0123456789abcdef";
  });
  blinded_version = λ n. answer (codes "capella");
  blinded_root = λ v n. answer (codes "block");
  unmarshal_hex = λ t. answer (repeated 48 7);
  marshal_blinded = λ n. answer [];
  new_request = λ api b. answer tt;
  client_do = λ api b. answer (200, []);
  http_post = λ api n. answer (200, []);
  blank_block = λ slot hash. slot;
  decode_payload = λ t. answer 1;
  payload_block_hash = λ p. answer (codes "0xbb");
  payload_json = λ p. [];
  with_version_name = λ p. answer p;
}

abbrev pub nothing_stored : Database
nothing_stored = record { tables = empty; outcomes = [] }

abbrev pub relay_with : BoardState board.redis.Store → RelayState outside
relay_with b = record {
  board = b;
  db = nothing_stored;
  current_slot = 6;
  validator_index_pubkey = (5, codes "0xcc") ∷ [];
  header_requests = [];
  payload_requests = [];
  discord = [];
  responses = [];
}

-- Alice is an active builder.
abbrev pub start : BoardState board.redis.Store
start = record {
  store = (set_builder_status board.redis alice true empty_store).1;
  highest_bids = [];
}

abbrev pub proof : EncodedRpbsSignature
proof = record {
  z1_hat = codes "0004";
  c1_hat = codes "1";
  s1_hat = codes "a";
  c2_hat = codes "1";
  s2_hat = codes "3";
  m1_hat = codes "0004";
}

abbrev pub bid : Block board outside
bid = record {
  slot = 7;
  proposer_pubkey = codes "0xcc";
  block_hash = codes "0xbb";
  parent_hash = codes "0xaa";
  builder_wallet_address = alice;
  value = pos 9;
  endpoint = codes "http://builder";
  rpbs = proof;
  rpbs_pubkey = codes "0004";
  payout_pool_transaction = [];
  execution_payload_header = 84;
  ecdsa_signature = alice;
}

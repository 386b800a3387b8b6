-- ===== src/Tests/Fixture.antt =====
-- A board over the store in memory, whose JSON is a list of numbers.
use proof_relay.Base.{
  ℕ, ◌≡◌, refl, true, [], ◌∷◌, ◌++◌, arith, Result, ok, err, failed, length, take, drop, ap, ◌∙◌,
}
use mathlib.Core.Path.{subst}
use proof_relay.Text.{Text}
use proof_relay.Text.Decimal.{pos}
use proof_relay.Memory.{Memory, memory, memory_laws}
use proof_relay.Bids.{Board, BoardLaws, ProposerHeaderResponse, GetPayloadUtils}

take-append_self : (xs ys : Text) → take (length xs) (xs ++ ys) ≡ xs
take-append_self [] ys = refl
take-append_self (x ∷ xs) ys = ap (λ (l : Text). x ∷ l) (take-append_self xs ys)

drop-append_self : (xs ys : Text) → drop (length xs) (xs ++ ys) ≡ ys
drop-append_self [] ys = refl
drop-append_self (x ∷ xs) ys = drop-append_self xs ys

abbrev pack_bid : ProposerHeaderResponse ℕ → Result Text
pack_bid b = ok (
    b.slot
    ∷ b.bid.signed_bid
    ∷ length b.proposer_pub_key_hex
    ∷ (b.proposer_pub_key_hex ++ b.bid.version))

abbrev unpack_bid : Text → Result (ProposerHeaderResponse ℕ)
unpack_bid (slot ∷ v ∷ n ∷ rest) = ok (record {
  slot = slot;
  proposer_pub_key_hex = take n rest;
  bid = record { version = drop n rest; signed_bid = v };
})
unpack_bid _ = err failed

abbrev pack_utils : GetPayloadUtils ℕ → Result Text
pack_utils u = ok (
    u.header ∷ length u.version ∷ length u.api ∷ (u.version ++ (u.api ++ u.builder_wallet_address)))

abbrev unpack_utils : Text → Result (GetPayloadUtils ℕ)
unpack_utils (h ∷ n ∷ m ∷ rest) = ok (record {
  version = take n rest;
  header = h;
  api = take m (drop n rest);
  builder_wallet_address = drop m (drop n rest);
})
unpack_utils _ = err failed

abbrev pub board : Board
board = record {
  redis = memory;
  bid_timeout = 60;
  SignedBid = ℕ;
  PayloadHeader = ℕ;
  bid_value = pos;
  encode_bid = pack_bid;
  decode_bid = unpack_bid;
  encode_utils = pack_utils;
  decode_utils = unpack_utils;
}

unpack-pack_bid :
    (b : ProposerHeaderResponse ℕ) (t : Text) → pack_bid b ≡ ok t → unpack_bid t ≡ ok b
unpack-pack_bid b t e =
    let p = b.proposer_pub_key_hex in
    let same : b.slot ∷ b.bid.signed_bid ∷ length p ∷ (p ++ b.bid.version) ≡ t = cc in
    subst (λ u. unpack_bid u ≡ ok b) same
      (λ i. ok (record {
        slot = b.slot;
        proposer_pub_key_hex = take-append_self p b.bid.version i;
        bid = record {
          version = drop-append_self p b.bid.version i;
          signed_bid = b.bid.signed_bid;
        };
      }))

unpack-pack_utils : (u : GetPayloadUtils ℕ) (t : Text) → pack_utils u ≡ ok t → unpack_utils t ≡ ok u
unpack-pack_utils u t e =
    let rest = u.api ++ u.builder_wallet_address in
    let same : u.header ∷ length u.version ∷ length u.api ∷ (u.version ++ rest) ≡ t = cc in
    let tail = drop-append_self u.version rest in
    subst (λ w. unpack_utils w ≡ ok u) same
      (λ i. ok (record {
        version = take-append_self u.version rest i;
        header = u.header;
        api = (ap (take (length u.api)) tail ∙ take-append_self u.api u.builder_wallet_address) i;
        builder_wallet_address =
            (ap (drop (length u.api)) tail ∙ drop-append_self u.api u.builder_wallet_address) i;
      }))

pub board_laws : BoardLaws board
board_laws = record {
  laws = memory_laws;
  timeout_positive = omega arith;
  decode-encode_bid = unpack-pack_bid;
  decode-encode_utils = unpack-pack_utils;
}

abbrev pub empty_store : Memory
empty_store = record { hashes = []; strings = []; is_up = true }

-- ===== src/Relay/Header.antt =====
-- `handleProposerHeader` (relay/relay.go) and `proposerParameters` (relay/utils.go).
use proof_relay.Base.{
  ℕ, suc, ◌-◌, ◌^◌, ◌≡◌, refl, Bool, ◌&&◌, none, some, List, [], ◌∷◌, ◌++◌, ok, err, nil_reply,
  failed, ◌>>=◌, ◌>>◌, pure, fail, length, ap, Bool-cases, inl, inr, ◌==◌, if◌then◌else◌,
}
use proof_relay.Text.{Text, codes, text_eq}
use proof_relay.Text.Decimal.{ℤ, pos, negsuc, parse_int}
use proof_relay.Beacon.{Reply, answer, failure}
use proof_relay.Database.{
  ValidatorDeliveredHeaderDatabase, Database, Executed, done, refused, panicked,
}
use proof_relay.Database.Write.{put_validator_delivered_header}
use proof_relay.Bids.{Board, ProposerHeaderResponse, winning_bid}
use proof_relay.Relay.{
  BaseHeader, Outside, ok_header, no_content, RelayState, Handler, respond, refuse, or_refuse,
}
use proof_relay.Relay.Submit.{bad}

-- `ProposerReqParams`
pub record ProposerReqParams : Type 0 where
  pub slot : ℕ
  pub proposer_pub_key_hex : Text
  pub parent_hash_hex : Text

-- `uint64(slot)` of an `int64`
abbrev pub uint64 : ℤ → ℕ
uint64 (pos n) = n
uint64 (negsuc n) = 2 ^ 64 - suc n

pub append_twice {ℓ} :
    {A : Type ℓ} (l : List A) (x y : A) → (l ++ x ∷ []) ++ y ∷ [] ≡ l ++ x ∷ y ∷ []
append_twice [] x y = refl
append_twice (z ∷ l) x y = ap (λ t. z ∷ t) (append_twice l x y)

module _ (B : Board) (E : Outside B) where
  unfoldable pub proposer_parameters : Text → Text → Text → Reply ProposerReqParams
  proposer_parameters slot_str parent_hash pubkey = elim (parse_int slot_str) [
    | none ↦ failure (E.parse_int_error slot_str)
    | some slot ↦
        if length pubkey == 98
        then (if length parent_hash == 66
            then answer (record {
              slot = uint64 slot;
              proposer_pub_key_hex = pubkey;
              parent_hash_hex = parent_hash;
            })
            else failure (codes "Parent Hash Wrong Length"))
        else failure (codes "Proposer Pubkey Wrong Length")
  ]

  -- The winning bid of the slot; with no bid the status is 204.
  unfoldable pub find_bid : ℕ → Handler E (ProposerHeaderResponse B.SignedBid)
  find_bid slot s = elim (winning_bid B slot s.board) [
    | ok bid ↦ pure bid s
    | err nil_reply ↦ refuse no_content s
    | err failed ↦ refuse (bad B E (E.board_error failed)) s
  ]

  abbrev pub is_as_requested : ProposerReqParams → ProposerHeaderResponse B.SignedBid → Bool
  is_as_requested p bid =
      bid.slot == p.slot && text_eq bid.proposer_pub_key_hex p.proposer_pub_key_hex

  -- A mismatch is answered with an error, and the handler goes on.
  unfoldable pub warn_mismatch :
      ProposerReqParams → ProposerHeaderResponse B.SignedBid → Handler E (Unit {0})
  warn_mismatch p bid =
      if is_as_requested p bid
      then pure tt
      else respond (bad B E (codes "Parameters Not As Per Winning Bid"))

  -- The block hash of the header. After an error the handler goes on with what came beside it, and
  -- panics at a nil pointer.
  unfoldable pub block_hash_of : ProposerHeaderResponse B.SignedBid → Handler E Text
  block_hash_of bid = elim (E.to_base_header (E.signed_header bid.bid.signed_bid)) [
    | answer base ↦ pure base.block_hash
    | failure e ↦
        respond (bad B E e) >> elim (E.beside_error (E.signed_header bid.bid.signed_bid)) [
          | some hash ↦ pure hash
          | none ↦ fail failed
        ]
  ]

  abbrev pub log_delivered : Executed × Database → Handler E (Unit {0})
  log_delivered (done, db) s = (ok tt, record s { db = db })
  log_delivered (refused e, db) s = refuse (bad B E e) (record s { db = db })
  log_delivered (panicked, db) s = (err failed, record s { db = db })

  unfoldable pub put_header : ValidatorDeliveredHeaderDatabase → Handler E (Unit {0})
  put_header d s = log_delivered (put_validator_delivered_header d s.db) s

  abbrev pub send_request : ℕ → Text → ℕ → Handler E (Unit {0})
  send_request slot proposer now s =
      (ok tt, record s { header_requests = s.header_requests ++ (slot, proposer, now) ∷ [] })

  abbrev pub header_row :
      ProposerReqParams
      → ProposerHeaderResponse B.SignedBid
      → Text
      → ValidatorDeliveredHeaderDatabase
  header_row p bid hash = record {
    slot = p.slot;
    block_hash = hash;
    proposer_pubkey = p.proposer_pub_key_hex;
    bid_value = E.value_uint64 (B.bid_value bid.bid.signed_bid);
  }

  -- All that follows once the request is read, `now` being the Unix time of the answer.
  unfoldable pub deliver_header : ℕ → ProposerReqParams → Handler E (Unit {0})
  unfolding find_bid warn_mismatch block_hash_of put_header
  deliver_header now p = do
    bid ← find_bid p.slot
    warn_mismatch p bid
    hash ← block_hash_of bid
    put_header (header_row p bid hash)
    send_request p.slot p.proposer_pub_key_hex now
    respond (ok_header bid.bid)

  unfoldable pub handle_proposer_header : ℕ → Text → Text → Text → Handler E (Unit {0})
  unfolding proposer_parameters deliver_header
  handle_proposer_header now slot_str parent_hash pubkey = do
    p ← or_refuse (proposer_parameters slot_str parent_hash pubkey) (bad B E)
    deliver_header now p

  -- Where the slot has a winning bid, its header can be read and the database takes the row, the
  -- request ends with the header of the winning bid as its last response, whoever asks: for another
  -- proposer than the bid's, an error response stands in front of it. The board is as it was.
  pub header_for_anyone :
      (now : ℕ) (p : ProposerReqParams) (s : RelayState E) (w : ProposerHeaderResponse B.SignedBid)
      (base : BaseHeader)
      → winning_bid B p.slot s.board ≡ ok w
      → E.to_base_header (E.signed_header w.bid.signed_bid) ≡ answer base
      → (put_validator_delivered_header (header_row p w base.block_hash) s.db).0 ≡ done
      → ((deliver_header now p s).1.responses
          ≡ s.responses
            ++ (if is_as_requested p w
                then ok_header w.bid ∷ []
                else bad B E (codes "Parameters Not As Per Winning Bid") ∷ ok_header w.bid ∷ []))
        × ((deliver_header now p s).1.board ≡ s.board)
  unfolding deliver_header find_bid warn_mismatch block_hash_of put_header
  header_for_anyone now p s w base found readable stored = elim (Bool-cases (is_as_requested p w)) [
    | inl same ↦
        rw
          (
            found, same, readable, stored, deliver_header, find_bid, warn_mismatch, block_hash_of,
            put_header, log_delivered,
          )
          (refl, refl)
    | inr other ↦
        rw
          (
            found, other, readable, stored, deliver_header, find_bid, warn_mismatch, block_hash_of,
            put_header, log_delivered,
          )
          (append_twice s.responses _ _, refl)
  ]

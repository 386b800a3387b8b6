-- ===== src/Relay/Stored.antt =====
-- From an accepted bid to the header that proposers are given.
use proof_relay.Base.{
  ℕ, ◌≡◌, ◌≢◌, refl, true, List, [], ◌∷◌, ◌++◌, arith, ◌∙◌, ok, inl, inr, ◌⊎◌, Result-cases,
}
use proof_relay.Text.{Text}
use proof_relay.Text.Decimal.{ℤ}
use proof_relay.Beacon.{answer}
use proof_relay.Database.{BuilderBlockDatabase}
use proof_relay.Bids.{
  Board, BoardLaws, BoardState, GetHeaderResponse, GetPayloadUtils, ProposerHeaderResponse,
  save_payload_utils, save_builder_bid, auction_bid, winning_bid,
}
use proof_relay.Bids.Storage.{IsConsistent, save_builder_bid-IsConsistent}
use proof_relay.Bids.Winner.{winning_bid-auction_bid}
use proof_relay.Bids.Keeps.{save_payload_utils-IsConsistent, auction_bid-IsConsistent}
use proof_relay.Relay.{Outside, RelayState, Response, ok_bid}
use proof_relay.Relay.Submit.{
  Block, bad, store_bid, submit_rest, check_newest, sign_bid, handle_submit_block, put_submission,
}
use proof_relay.Relay.Checked.{Checks-submit_checks}

module _ {B : Board} {E : Outside B} (time : ℕ) (b : Block B E) where
  module _ (header : GetHeaderResponse B.SignedBid) (entry : GetPayloadUtils B.PayloadHeader)
      (s : RelayState E) where
    abbrev with_utils : BoardState B.redis.Store
    with_utils = (save_payload_utils B b.slot b.block_hash entry s.board).1

    abbrev with_bid : BoardState B.redis.Store
    with_bid =
        (save_builder_bid B b.slot b.builder_wallet_address b.proposer_pubkey time header
          with_utils).1

    store_bid_ok :
        (top : Text × ℤ)
        → (store_bid B E time b header entry s).0 ≡ ok top
        → ((save_payload_utils B b.slot b.block_hash entry s.board).0 ≡ ok tt)
          × ((save_builder_bid B b.slot b.builder_wallet_address b.proposer_pubkey time header
                with_utils).0
              ≡ ok tt)
          × ((auction_bid B b.slot with_bid).0 ≡ ok top)
          × ((store_bid B E time b header entry s).1.board ≡ (auction_bid B b.slot with_bid).1)
    unfolding store_bid
    store_bid_ok top h = ground arith

  board-check_newest : (s : RelayState E) → (check_newest B E time b s).1.board ≡ s.board
  unfolding check_newest
  board-check_newest s = ground arith

  -- What signing gives, and that it changes nothing when it succeeds.
  sign_ok :
      (t : RelayState E) (r : GetHeaderResponse B.SignedBid × GetPayloadUtils B.PayloadHeader)
      → (sign_bid B E (bad B E) b t).0 ≡ ok r
      → (sign_bid B E (bad B E) b t).1 ≡ t
  unfolding sign_bid
  sign_ok t r h = ground arith

  -- The response that a bid is answered with.
  abbrev pub answered : BuilderBlockDatabase → Text × ℤ → Response E
  answered d top = ok_bid (record {
    bid_id = E.hash_submission d;
    highest_bid_value = top.1;
    highest_bid_builder = top.0;
  })

  module _ (d : BuilderBlockDatabase) (s : RelayState E) where
    abbrev newest : RelayState E
    newest = (check_newest B E time b s).1

    rest_ok :
        (submit_rest B E time b d s).0 ≡ ok tt
        → (r : GetHeaderResponse B.SignedBid × GetPayloadUtils B.PayloadHeader) × (top : Text × ℤ)
          × ((store_bid B E time b r.0 r.1 newest).0 ≡ ok top)
          × ((submit_rest B E time b d s).1.board ≡ (store_bid B E time b r.0 r.1 newest).1.board)
          × ((submit_rest B E time b d s).1.responses
              ≡ (store_bid B E time b r.0 r.1 newest).1.responses ++ answered d top ∷ [])
    unfolding submit_rest
    rest_ok h = elim (Result-cases (check_newest B E time b s).0) [
      | inr (_, e) ↦ absurd (cc (rw e at h))
      | inl (_, e) ↦ elim (Result-cases (sign_bid B E (bad B E) b newest).0) [
        | inr (_, f) ↦ absurd (cc (rw (e, f) at h))
        | inl (r, f) ↦
            let same = sign_ok newest r f in
            elim (Result-cases (store_bid B E time b r.0 r.1 newest).0) [
              | inr (_, g) ↦ absurd (cc (rw (e, f, same, g) at h))
              | inl (top, g) ↦ (
                r,
                top,
                g,
                rw (e, f, same, g, submit_rest) refl,
                rw (e, f, same, g, submit_rest) refl,
              )
            ]
      ]
    ]

-- What proposers are given for the slot is a header for that slot, whose value is the top one.
abbrev pub Wins : (B : Board) → ℕ → Text × ℤ → BoardState B.redis.Store → Type 0
Wins B slot top board =
    (w : ProposerHeaderResponse B.SignedBid) × (winning_bid B slot board ≡ ok w)
    × (w.slot ≡ slot)
    × (B.bid_value w.bid.signed_bid ≡ top.1)

empty_or_not : (t : Text) → (t ≡ []) ⊎ (t ≢ [])
empty_or_not [] = inl refl
empty_or_not (c ∷ t) = inr (λ e. cc)

module _ {B : Board} {E : Outside B} (laws : BoardLaws B) (time : ℕ) (b : Block B E) where
  stored_bid-Wins :
      (header : GetHeaderResponse B.SignedBid) (entry : GetPayloadUtils B.PayloadHeader)
      (s : RelayState E) (top : Text × ℤ)
      → IsConsistent B s.board.store
      → (store_bid B E time b header entry s).0 ≡ ok top
      → top.0 ≢ []
      → B.redis.up (store_bid B E time b header entry s).1.board.store ≡ true
      → IsConsistent B (store_bid B E time b header entry s).1.board.store
        × Wins B b.slot top (store_bid B E time b header entry s).1.board
  stored_bid-Wins header entry s top inv done named up =
      let (utils, saved, auctioned, board) = store_bid_ok time b header entry s top done in
      let inv1 =
        save_payload_utils-IsConsistent B laws b.slot b.block_hash entry s.board utils inv in
      let inv2 =
        save_builder_bid-IsConsistent B laws b.slot b.builder_wallet_address b.proposer_pubkey time
          header (with_utils time b header entry s) saved inv1 in
      rw board (
        auction_bid-IsConsistent B laws b.slot (with_bid time b header entry s) top.0 top.1
            auctioned named inv2,
        winning_bid-auction_bid B laws b.slot (with_bid time b header entry s) top.0 top.1 inv2
            auctioned named (rw board at up),
      )

  submit_ok :
      (s : RelayState E)
      → (handle_submit_block B E time (answer b) s).0 ≡ ok tt
      → (d : BuilderBlockDatabase) × ((submit_rest B E time b d s).0 ≡ ok tt)
        × ((handle_submit_block B E time (answer b) s).1.board
            ≡ (submit_rest B E time b d s).1.board)
        × ((handle_submit_block B E time (answer b) s).1.responses
            ≡ (submit_rest B E time b d s).1.responses)
  unfolding handle_submit_block put_submission
  submit_ok s h = elim (Checks-submit_checks b s) [
    | inr (r, _, _) ↦ absurd (cc (rw r at h))
    | inl (d, passed, _) ↦ (
      d,
      rw passed at h,
      rw (passed, handle_submit_block, put_submission) refl,
      rw (passed, handle_submit_block, put_submission) refl,
    )
  ]

  -- On a consistent board, when `handleSubmitBlock` runs to its end and the server still answers, the
  -- last response is the outcome of an auction. If it names a builder, the board is consistent
  -- again, and what a proposer is given for the slot in the state that the request leaves is a
  -- header for that slot whose value is the one in the response.
  pub submit-Wins :
      (s : RelayState E)
      → IsConsistent B s.board.store
      → (handle_submit_block B E time (answer b) s).0 ≡ ok tt
      → B.redis.up (handle_submit_block B E time (answer b) s).1.board.store ≡ true
      → (top : Text × ℤ) × (d : BuilderBlockDatabase) × (before : List (Response E))
        × ((handle_submit_block B E time (answer b) s).1.responses
            ≡ before ++ answered time b d top ∷ [])
        × ((top.0 ≡ [])
            ⊎ (IsConsistent B (handle_submit_block B E time (answer b) s).1.board.store
                × Wins B b.slot top (handle_submit_block B E time (answer b) s).1.board))
  submit-Wins s inv done up =
      let (d, rest, board, responses) = submit_ok s done in
      let (r, top, stored, last_board, last) = rest_ok time b d s rest in
      let inv' : IsConsistent B (newest time b d s).board.store =
        rw (board-check_newest time b s) inv in
      let whole = board ∙ last_board in
      (
        top,
        d,
        _,
        responses ∙ last,
        elim (empty_or_not top.0) [
          | inl empty ↦ inl empty
          | inr named ↦ inr (
              rw whole (
                stored_bid-Wins r.0 r.1 (newest time b d s) top inv' stored named (rw whole at up)))
        ],
      )

-- ===== src/Relay/Reported.antt =====
-- From the bid of a builder to what the reporter is shown: `handleSubmitBlock` and
-- `handleGetBlockSubmissionsReporter` over one database.
use mathlib.Core.List.{Perm}
use mathlib.Core.Path.{subst}
use proof_relay.Base.{
  arith, ℕ, ◌^◌, ◌<◌, ◌≤◌, ◌≡◌, refl, ap, sym, ◌∙◌, Result, ok, err, failed, nil_reply, Error, Bool,
  true, false, List, [], ◌∷◌, ◌++◌, ◌>>=◌, Action, Result-cases, inl, inr,
}
use proof_relay.Text.{Text, codes}
use proof_relay.Beacon.{Reply, answer, failure}
use proof_relay.Database.{BuilderBlockDatabase, done, Postgres}
use proof_relay.Database.Write.{put_builder_block_submission}
use proof_relay.Database.Read.{get_builder_blocks_reporter}
use proof_relay.Database.Shown.{PostgresLaws, Serves, IsAscending, submission_shown}
use proof_relay.Reporter.{
  ReporterSlot, ok_blocks, respond_rows, handle_get_block_submissions_reporter,
}
use proof_relay.Bids.{
  Board, BoardState, GetHeaderResponse, GetPayloadUtils, builder_block_last, save_payload_utils,
  save_builder_bid, auction_bid,
}
use proof_relay.Relay.{
  Outside, Response, RelayState, Handler, require, or_refuse, result_or_refuse, on_board,
}
use proof_relay.Relay.Bid.{signed_builder_bid}
use proof_relay.Relay.Submit.{
  Block, bad, broken, error_of, check_newest, sign_bid, store_bid, submit_checks, submit_rest,
  put_submission, handle_submit_block,
}
use proof_relay.Relay.Checked.{Records, Checks-submit_checks}

module _ {B : Board} {E : Outside B} where
  -- A part of a handler that leaves the database alone.
  abbrev KeepsDb : {A : Type 0} → Handler E A → Type 0
  KeepsDb m = (s : RelayState E) → (m s).1.db ≡ s.db

  KeepsDb-bind :
      {A C : Type 0} (m : Handler E A) (k : A → Handler E C)
      → KeepsDb m
      → ((a : A) → KeepsDb (k a))
      → KeepsDb (m >>= k)
  KeepsDb-bind m k first then_next s = elim (Result-cases ((m s).0)) [
    | inl (a, e) ↦ rw e (then_next a (m s).1 ∙ first s)
    | inr (x, e) ↦ rw e (first s)
  ]

  KeepsDb-or_refuse : {A : Type 0} (r : Reply A) (f : Text → Response E) → KeepsDb (or_refuse r f)
  KeepsDb-or_refuse (answer a) f s = refl
  KeepsDb-or_refuse (failure e) f s = refl

  KeepsDb-require : (c : Bool) (r : Response E) → KeepsDb (require c r)
  KeepsDb-require true r s = refl
  KeepsDb-require false r s = refl

  KeepsDb-result :
      {A : Type 0} (r : Result A) (f : Error → Response E) → KeepsDb (result_or_refuse r f)
  KeepsDb-result (ok a) f s = refl
  KeepsDb-result (err e) f s = refl

  KeepsDb-on_board :
      {A : Type 0} (m : Action (BoardState B.redis.Store) A) (f : Error → Response E)
      → KeepsDb (on_board m f)
  KeepsDb-on_board m f s = KeepsDb-result (m s.board).0 f (record s { board = (m s.board).1 })

  KeepsDb-check_newest : (time : ℕ) (b : Block B E) → KeepsDb (check_newest B E time b)
  unfolding check_newest
  KeepsDb-check_newest time b s =
      elim (Result-cases (builder_block_last B b.slot b.builder_wallet_address s.board)) [
        | inl (t, e) ↦ rw (e, check_newest) (KeepsDb-require _ _ s)
        | inr (nil_reply, e) ↦ rw (e, check_newest) refl
        | inr (failed, e) ↦ rw (e, check_newest) refl
      ]

  KeepsDb-sign_bid : (f : Text → Response E) (b : Block B E) → KeepsDb (sign_bid B E f b)
  unfolding sign_bid
  KeepsDb-sign_bid f b =
      let version_error = λ (e : Text).
        broken B E (codes "could not get fork version of buuilder payload header: " ++ e) in
      KeepsDb-bind (or_refuse (signed_builder_bid B E b) f) _
        (KeepsDb-or_refuse (signed_builder_bid B E b) f)
        λ signed.
          KeepsDb-bind (or_refuse (E.header_version b.execution_payload_header) version_error) _
            (KeepsDb-or_refuse (E.header_version b.execution_payload_header) version_error)
            λ version s. refl

  KeepsDb-store_bid :
      (time : ℕ) (b : Block B E) (header : GetHeaderResponse B.SignedBid)
      (entry : GetPayloadUtils B.PayloadHeader)
      → KeepsDb (store_bid B E time b header entry)
  unfolding store_bid
  KeepsDb-store_bid time b header entry =
      let utils = save_payload_utils B b.slot b.block_hash entry in
      let bid = save_builder_bid B b.slot b.builder_wallet_address b.proposer_pubkey time header in
      KeepsDb-bind (on_board utils (error_of B E)) _ (KeepsDb-on_board utils (error_of B E)) λ _.
        KeepsDb-bind (on_board bid (error_of B E)) _ (KeepsDb-on_board bid (error_of B E))
          λ _. KeepsDb-on_board (auction_bid B b.slot) (error_of B E)

  KeepsDb-submit_rest :
      (time : ℕ) (b : Block B E) (d : BuilderBlockDatabase) → KeepsDb (submit_rest B E time b d)
  unfolding submit_rest
  KeepsDb-submit_rest time b d =
      KeepsDb-bind (check_newest B E time b) _ (KeepsDb-check_newest time b) λ _.
        KeepsDb-bind (sign_bid B E (bad B E) b) _ (KeepsDb-sign_bid (bad B E) b) λ entries.
          KeepsDb-bind (store_bid B E time b entries.0 entries.1) _
            (KeepsDb-store_bid time b entries.0 entries.1) λ top s. refl

  db-handle_submit_block :
      (time : ℕ) (b : Block B E) (s : RelayState E) (d : BuilderBlockDatabase)
      → submit_checks B E b s ≡ (ok d, s)
      → (handle_submit_block B E time (answer b) s).1.db
        ≡ (put_builder_block_submission (E.hash_submission d) d s.db).1
  unfolding handle_submit_block put_submission
  db-handle_submit_block time b s d passed =
      rw (passed, handle_submit_block, put_submission)
        (ap (λ db. (put_builder_block_submission (E.hash_submission d) d db).1)
          (KeepsDb-submit_rest time b d s))

  -- A bid that passes the checks of `handleSubmitBlock` is on record for the reporter, even if it is
  -- then refused because a newer one is held: where the database takes the row and serves the query,
  -- `handleGetBlockSubmissionsReporter` answers, for a range with the slot of the bid, what it would
  -- have answered before the request and one entry more, with the slot, the builder, the signature and
  -- the value of the bid, by ascending slots.
  pub bid_reported :
      (P : Postgres) (laws : PostgresLaws P) (time : ℕ) (b : Block B E) (s : RelayState E)
      (d : BuilderBlockDatabase) (limit : ReporterSlot)
      → (submit_checks B E b s).0 ≡ ok d
      → (put_builder_block_submission (E.hash_submission d) d s.db).0 ≡ done
      → Serves (put_builder_block_submission (E.hash_submission d) d s.db).1.outcomes
      → limit.slot_lower ≤ b.slot
      → b.slot ≤ limit.slot_upper
      → limit.slot_upper < 2 ^ 63
      → Records b s d
        × (before : List BuilderBlockDatabase) × (after : List BuilderBlockDatabase)
        × ((handle_get_block_submissions_reporter P
              (answer limit)
              (record s.db { outcomes = [] })).0
            ≡ ok_blocks before)
        × ((handle_get_block_submissions_reporter P
              (answer limit)
              (handle_submit_block B E time (answer b) s).1.db).0
            ≡ ok_blocks after)
        × Perm after (d ∷ before)
        × IsAscending (λ r. r.slot) after
  unfolding handle_get_block_submissions_reporter
  bid_reported P laws time b s d limit passed put serves low high small =
      elim (Checks-submit_checks b s) [
        | inr (r, _, _) ↦ absurd (cc (sym r ∙ passed))
        | inl (d', whole, (_, records)) ↦
            let same : d' ≡ d = let e : ok d' ≡ ok d = sym (ap (λ p. p.0) whole) ∙ passed in cc in
            let recorded : Records b s d = subst (Records b s) same records in
            let full : submit_checks B E b s ≡ (ok d, s) = whole ∙ ap (λ x. (ok x, s)) same in
            let (before, after, earlier, later, order, ascending) =
              submission_shown P laws (E.hash_submission d) d limit.slot_lower limit.slot_upper s.db
                put serves (omega (arith, recorded.0)) (omega (arith, recorded.0)) small in
            let shown =
              ap (λ db. (get_builder_blocks_reporter P limit.slot_lower limit.slot_upper db).0)
                (db-handle_submit_block time b s d full) in
            (
              recorded,
              before,
              after,
              ap (respond_rows ok_blocks) earlier,
              ap (respond_rows ok_blocks) (shown ∙ later),
              order,
              ascending,
            )
      ]

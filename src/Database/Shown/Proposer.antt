-- ===== src/Database/Shown/Proposer.antt =====
-- What the reporter is shown of the proposers: the headers that they were given and the blinded
-- blocks that they returned (`GetValidatorDeliveredHeaderReporter`,
-- `GetValidatorReturnedBlocksReporter`, `GetValidatorDeliveredPayloadReporter`).
use mathlib.Core.List.{Perm}
use proof_relay.Base.{
  slice_to, ℕ, ◌^◌, ◌<◌, ◌≤◌, ◌≡◌, ap, sym, ◌∙◌, true, ◌&&◌, some, List, [], ◌∷◌, ◌++◌, arith,
  Option-cases, inl, inr,
}
use proof_relay.Text.{Text}
use proof_relay.Beacon.{answer}
use proof_relay.Database.{
  ValidatorDeliveredHeaderDatabase, ValidatorReturnedBlockDatabase, Tables, Database, done,
  Postgres, is_int64, query, between,
}
use proof_relay.Database.Write.{
  insert_header, insert_returned, put_validator_delivered_header, put_validator_returned_block,
}
use proof_relay.Database.Read.{
  or_no_rows, range_of, select_range, get_validator_delivered_header_reporter,
  get_validator_returned_blocks_reporter,
}
use proof_relay.Database.Shown.{
  PostgresLaws, Serves, IsAscending, IsDone-with_args, range-append, answers-fetch,
}

select_range_answer :
    {R : Type 0} (P : Postgres) (slot_of : R → ℕ) (rows : Tables → List R) (from to : ℕ)
    (db : Database)
    → from ≤ to
    → to < 2 ^ 63
    → Serves db.outcomes
    → (select_range P slot_of rows from to db).0
      ≡ answer (range_of P slot_of rows from to db.tables)
unfolding select_range query
select_range_answer P slot_of rows from to db ordered small serves =
    let from_fits : is_int64 from ≡ true = ground arith in
    let to_fits : is_int64 to ≡ true = ground arith in
    rw (from_fits, to_fits)
      (answers-fetch (range_of P slot_of rows from to) db.tables db.outcomes serves)

pub put_header_done :
    (d : ValidatorDeliveredHeaderDatabase) (db : Database)
    → (put_validator_delivered_header d db).0 ≡ done
    → (put_validator_delivered_header d db).1.tables.headers ≡ db.tables.headers ++ d ∷ []
unfolding put_validator_delivered_header
put_header_done d db put =
    let (_, (t', inserted, tables)) =
      IsDone-with_args (is_int64 d.slot && is_int64 d.bid_value) (insert_header d) db put in
    ap (λ t. t.headers) tables
    ∙ sym (
        let e : record db.tables { headers = db.tables.headers ++ d ∷ [] } ≡ t' = cc in
        ap (λ t. t.headers) e)

put_returned_done :
    (d : ValidatorReturnedBlockDatabase) (db : Database)
    → (put_validator_returned_block d db).0 ≡ done
    → (signature : Text) × (slice_to 48 d.signature ≡ some signature)
      × ((put_validator_returned_block d db).1.tables.returned
          ≡ db.tables.returned ++ record d { signature = signature } ∷ [])
unfolding put_validator_returned_block
put_returned_done d db put = elim (Option-cases (slice_to 48 d.signature)) [
  | inl short ↦ absurd (cc (rw (short, put_validator_returned_block) at put))
  | inr (signature, cut_off) ↦
      let row = record d { signature = signature } in
      let (_, (t', inserted, tables)) =
        IsDone-with_args (is_int64 d.slot) (insert_returned row) db
          (rw (cut_off, put_validator_returned_block) at put) in
      let e : record db.tables { returned = db.tables.returned ++ row ∷ [] } ≡ t' = cc in
      (
        signature,
        cut_off,
        rw (cut_off, put_validator_returned_block)
            (ap (λ t. t.returned) tables ∙ sym (ap (λ t. t.returned) e)),
      )
]

module _ (P : Postgres) (laws : PostgresLaws P) (from to : ℕ) (db : Database) where
  -- A header whose delivery is put without an error is shown to the reporter, if the query is served:
  -- for a range with its slot, `GetValidatorDeliveredHeaderReporter` answers what it would have
  -- answered before, and the header as it was given, by ascending slots.
  pub header_shown :
      (d : ValidatorDeliveredHeaderDatabase)
      → (put_validator_delivered_header d db).0 ≡ done
      → Serves (put_validator_delivered_header d db).1.outcomes
      → from ≤ d.slot
      → d.slot ≤ to
      → to < 2 ^ 63
      → (before : List ValidatorDeliveredHeaderDatabase) × (after : List
          ValidatorDeliveredHeaderDatabase)
        × ((get_validator_delivered_header_reporter P from to (record db { outcomes = [] })).0
            ≡ answer before)
        × ((get_validator_delivered_header_reporter P from to
              (put_validator_delivered_header d db).1).0
            ≡ answer after)
        × Perm after (d ∷ before)
        × IsAscending (λ r. r.slot) after
  unfolding get_validator_delivered_header_reporter
  header_shown d put serves low high small =
      let slot_of = λ (r : ValidatorDeliveredHeaderDatabase). r.slot in
      let db' = (put_validator_delivered_header d db).1 in
      let rows = λ (t : Tables). t.headers in
      (
        range_of P slot_of rows from to db.tables,
        range_of P slot_of rows from to db'.tables,
        ap or_no_rows (
            select_range_answer P slot_of rows from to (record db { outcomes = [] }) (omega arith)
              small tt),
        ap or_no_rows (select_range_answer P slot_of rows from to db' (omega arith) small serves),
        range-append slot_of P laws from to db.tables.headers db'.tables.headers d
            (put_header_done d db put) low high,
        laws.by_slot_ascending slot_of (between slot_of from to db'.tables.headers),
      )

  -- A blinded block that is put without an error is shown to the reporter, if the query is served, but
  -- not with its signature: the entry that comes to the answers of
  -- `GetValidatorReturnedBlocksReporter` has the first 48 bytes of it, and is else as it was given.
  pub returned_shown :
      (d : ValidatorReturnedBlockDatabase)
      → (put_validator_returned_block d db).0 ≡ done
      → Serves (put_validator_returned_block d db).1.outcomes
      → from ≤ d.slot
      → d.slot ≤ to
      → to < 2 ^ 63
      → (signature : Text) × (before : List ValidatorReturnedBlockDatabase) × (after : List
          ValidatorReturnedBlockDatabase)
        × (slice_to 48 d.signature ≡ some signature)
        × ((get_validator_returned_blocks_reporter P from to (record db { outcomes = [] })).0
            ≡ answer before)
        × ((get_validator_returned_blocks_reporter P from to
              (put_validator_returned_block d db).1).0
            ≡ answer after)
        × Perm after (record d { signature = signature } ∷ before)
        × IsAscending (λ r. r.slot) after
  unfolding get_validator_returned_blocks_reporter
  returned_shown d put serves low high small =
      let slot_of = λ (r : ValidatorReturnedBlockDatabase). r.slot in
      let db' = (put_validator_returned_block d db).1 in
      let rows = λ (t : Tables). t.returned in
      let (signature, cut_off, grown) = put_returned_done d db put in
      (
        signature,
        range_of P slot_of rows from to db.tables,
        range_of P slot_of rows from to db'.tables,
        cut_off,
        ap or_no_rows (
            select_range_answer P slot_of rows from to (record db { outcomes = [] }) (omega arith)
              small tt),
        ap or_no_rows (select_range_answer P slot_of rows from to db' (omega arith) small serves),
        range-append slot_of P laws from to db.tables.returned db'.tables.returned
            (record d { signature = signature }) grown low high,
        laws.by_slot_ascending slot_of (between slot_of from to db'.tables.returned),
      )

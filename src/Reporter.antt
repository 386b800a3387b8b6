-- ===== src/Reporter.antt =====
-- The server of the reporter (reporter/reporter.go): three handlers that answer with what the
-- database has for a range of slots.
use proof_relay.Base.{ℕ, List}
use proof_relay.Text.{Text, codes}
use proof_relay.Beacon.{Reply, answer, failure}
use proof_relay.Database.{
  BuilderBlockDatabase, ValidatorDeliveredHeaderDatabase, ValidatorReturnedBlockDatabase, Database,
  Postgres,
}
use proof_relay.Database.Read.{
  get_builder_blocks_reporter, get_validator_delivered_header_reporter,
  get_validator_returned_blocks_reporter,
}

-- `ReporterSlot`
pub record ReporterSlot : Type 0 where
  pub slot_lower : ℕ
  pub slot_upper : ℕ

-- `RespondOK` with what it is given, and `RespondError`
pub data ReporterResponse : Type 0 where
  ok_landing : Text → ReporterResponse
  ok_blocks : List BuilderBlockDatabase → ReporterResponse
  ok_headers : List ValidatorDeliveredHeaderDatabase → ReporterResponse
  ok_returned : List ValidatorReturnedBlockDatabase → ReporterResponse
  error_response : ℕ → Text → ReporterResponse

abbrev pub respond_rows : {A : Type 0} → (A → ReporterResponse) → Reply A → ReporterResponse
respond_rows respond_ok (answer a) = respond_ok a
respond_rows respond_ok (failure e) = error_response 400 e

unfoldable pub handle_landing : ReporterResponse
handle_landing = ok_landing (codes "PON Relay Reporter")

module _ (P : Postgres) where
  -- The body of a request is decoded, or its error is the response and no query is made.
  unfoldable pub handle_get_block_submissions_reporter :
      Reply ReporterSlot → Database → ReporterResponse × Database
  handle_get_block_submissions_reporter (failure e) db = (error_response 400 e, db)
  handle_get_block_submissions_reporter (answer limit) db =
      let (rows, db') = get_builder_blocks_reporter P limit.slot_lower limit.slot_upper db in
      (respond_rows ok_blocks rows, db')

  unfoldable pub handle_get_header_delivered_reporter :
      Reply ReporterSlot → Database → ReporterResponse × Database
  handle_get_header_delivered_reporter (failure e) db = (error_response 400 e, db)
  handle_get_header_delivered_reporter (answer limit) db =
      let (rows, db') =
        get_validator_delivered_header_reporter P limit.slot_lower limit.slot_upper db in
      (respond_rows ok_headers rows, db')

  unfoldable pub handle_blinded_beacon_block_reporter :
      Reply ReporterSlot → Database → ReporterResponse × Database
  handle_blinded_beacon_block_reporter (failure e) db = (error_response 400 e, db)
  handle_blinded_beacon_block_reporter (answer limit) db =
      let (rows, db') =
        get_validator_returned_blocks_reporter P limit.slot_lower limit.slot_upper db in
      (respond_rows ok_returned rows, db')

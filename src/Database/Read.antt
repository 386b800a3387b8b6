-- ===== src/Database/Read.antt =====
-- The queries of the reporter in database/database.go: what was recorded for the slots of a range.
use proof_relay.Base.{ℕ, ◌&&◌, Option, none, some, List, [], map, if◌then◌else◌}
use proof_relay.Text.{Text, codes, text_eq}
use proof_relay.Text.Decimal.{ℤ, pos, parse_ℤ}
use proof_relay.Beacon.{Reply, answer, failure}
use proof_relay.Database.{
  BuilderBlockDatabase, ValidatorDeliveredHeaderDatabase, ValidatorReturnedBlockDatabase,
  Submission, Tables, Database, Postgres, high_bit, is_int64, query, between,
}

-- `sql.ErrNoRows`
abbrev pub no_rows : Text
no_rows = codes "sql: no rows in result set"

abbrev pub or_no_rows : {R : Type 0} → Reply (List R) → Reply (List R)
or_no_rows (answer rows) = answer rows
or_no_rows (failure e) = if text_eq e no_rows then answer [] else failure e

-- `SetString` on the zero value: a text that is no numeral leaves no value.
abbrev pub or_zero : Option ℤ → ℤ
or_zero none = pos 0
or_zero (some z) = z

abbrev pub scanned : Submission → BuilderBlockDatabase
scanned r = record {
  slot = r.slot;
  builder_pubkey = r.builder_pubkey;
  builder_signature = r.builder_signature;
  builder_bid_hash = r.block_hash;
  rpbs = r.rpbs;
  rpbs_public_key = r.rpbs_public_key;
  transaction_byte = r.transaction_byte;
  bid_value = or_zero (parse_ℤ r.bid_value);
}

abbrev pub map_reply : {R S : Type 0} → (R → S) → Reply (List R) → Reply (List S)
map_reply f (answer rows) = answer (map f rows)
map_reply f (failure e) = failure e

module _ (P : Postgres) where
  module _ {R : Type 0} where
    -- The rows of a table in the range, by slot.
    abbrev pub range_of : (R → ℕ) → (Tables → List R) → ℕ → ℕ → Tables → List R
    range_of slot_of rows from to t = P.by_slot slot_of (between slot_of from to (rows t))

    -- The statement, whose `uint64` arguments have to be in range.
    unfoldable pub select_range :
        (R → ℕ) → (Tables → List R) → ℕ → ℕ → Database → Reply (List R) × Database
    unfolding query
    select_range slot_of rows from to db =
        if is_int64 from && is_int64 to
        then query (range_of slot_of rows from to) db
        else (failure high_bit, db)

  unfoldable pub get_builder_blocks_reporter :
      ℕ → ℕ → Database → Reply (List BuilderBlockDatabase) × Database
  unfolding select_range
  get_builder_blocks_reporter from to db =
      let (rows, db') = select_range (λ r. r.slot) (λ t. t.submissions) from to db in
      (map_reply scanned (or_no_rows rows), db')

  unfoldable pub get_validator_delivered_header_reporter :
      ℕ → ℕ → Database → Reply (List ValidatorDeliveredHeaderDatabase) × Database
  unfolding select_range
  get_validator_delivered_header_reporter from to db =
      let (rows, db') = select_range (λ r. r.slot) (λ t. t.headers) from to db in
      (or_no_rows rows, db')

  unfoldable pub get_validator_returned_blocks_reporter :
      ℕ → ℕ → Database → Reply (List ValidatorReturnedBlockDatabase) × Database
  unfolding select_range
  get_validator_returned_blocks_reporter from to db =
      let (rows, db') = select_range (λ r. r.slot) (λ t. t.returned) from to db in
      (or_no_rows rows, db')

  -- The query names validator_returned_blocks too.
  unfoldable pub get_validator_delivered_payload_reporter :
      ℕ → ℕ → Database → Reply (List ValidatorReturnedBlockDatabase) × Database
  unfolding select_range
  get_validator_delivered_payload_reporter from to db =
      let (rows, db') = select_range (λ r. r.slot) (λ t. t.returned) from to db in
      (or_no_rows rows, db')

-- ===== src/Database.antt =====
-- The database (database/database.go) as the tables of migrations/0001_initialize_tables.up.sql: the
-- state, how `database/sql` and Postgres run a statement, and their interface. Write has the `Put`
-- functions, Read the queries of the reporter.
pub mod Write
pub mod Read
pub mod Keys
pub mod Shown
use proof_relay.Base.{ℕ, ◌^◌, Bool, not, ◌&&◌, Option, List, [], ◌∷◌, take, ltb, if◌then◌else◌}
use proof_relay.Text.{Text, codes}
use proof_relay.Text.Decimal.{ℤ}
use proof_relay.Beacon.{Reply, answer, failure}

-- `databaseTypes.BuilderBlockDatabase`
pub record BuilderBlockDatabase : Type 0 where
  pub slot : ℕ
  pub builder_pubkey : Text
  pub builder_signature : Text
  pub builder_bid_hash : Text
  pub rpbs : Text
  pub rpbs_public_key : Text
  pub transaction_byte : Text
  pub bid_value : ℤ

-- `databaseTypes.ValidatorDeliveredHeaderDatabase`
pub record ValidatorDeliveredHeaderDatabase : Type 0 where
  pub slot : ℕ
  pub block_hash : Text
  pub proposer_pubkey : Text
  pub bid_value : ℕ

-- `databaseTypes.ValidatorReturnedBlockDatabase`
pub record ValidatorReturnedBlockDatabase : Type 0 where
  pub signature : Text
  pub slot : ℕ
  pub block_hash : Text
  pub proposer_pubkey : Text

-- `databaseTypes.ValidatorDeliveredPayloadDatabase`; in a row, the payload is the JSON of its bytes
pub record ValidatorDeliveredPayloadDatabase : Type 0 where
  pub slot : ℕ
  pub proposer_pubkey : Text
  pub block_hash : Text
  pub payload : Text

-- `ponPoolTypes.BuilderInterface`, `Reporter` and `Validator`, the fields that are stored
pub record BuilderInterface : Type 0 where
  pub builder_pubkey : Text
  pub balance_staked : Text
  pub status : Bool

pub record Reporter : Type 0 where
  pub reporter_pubkey : Text
  pub active : Bool
  pub report_count : ℕ

pub record Validator : Type 0 where
  pub validator_pubkey : Text
  pub status : Text
  pub report_count : ℕ

-- A row of builder_block_submissions.
pub record Submission : Type 0 where
  pub id : Text
  pub slot : ℕ
  pub builder_pubkey : Text
  pub builder_signature : Text
  pub block_hash : Text
  pub rpbs : Text
  pub rpbs_public_key : Text
  pub transaction_byte : Text
  pub bid_value : Text

-- Rows of block_builders, reporters and validators.
pub record BuilderRow : Type 0 where
  pub builder_stake : Text
  pub status : Bool

pub record ReporterRow : Type 0 where
  pub active : Bool
  pub report_count : ℕ

pub record ValidatorRow : Type 0 where
  pub status : ℤ
  pub report_count : ℕ

-- The tables, without the columns that Postgres fills in (ids and times). A table with a primary key
-- is a list of rows under their keys.
pub record Tables : Type 0 where
  pub submissions : List Submission
  pub payloads : List ValidatorDeliveredPayloadDatabase
  pub returned : List ValidatorReturnedBlockDatabase
  pub headers : List ValidatorDeliveredHeaderDatabase
  pub builders : List (Text × BuilderRow)
  pub reporters : List (Text × ReporterRow)
  pub validators : List (Text × ValidatorRow)

-- What the connection does with a statement: it serves it, it gives an error and the statement
-- changes nothing, or it breaks after so many rows of the answer.
pub data Outcome : Type 0 where
  served : Outcome
  lost : Text → Outcome
  cut : ℕ → Outcome

-- The tables, and the outcomes of the statements to come; after the last one all are served.
pub record Database : Type 0 where
  pub tables : Tables
  pub outcomes : List Outcome

-- How a `Put` function ends.
pub data Executed : Type 0 where
  done : Executed
  refused : Text → Executed
  panicked : Executed

-- What is Postgres's own: the order of an `ORDER BY slot ASC`, which is open among equal slots, and
-- how a text is read for an INTEGER column. Postgres may order equal slots otherwise when a query is run
-- again; what is stated of two answers is up to their order, and so does not rest on it.
pub record Postgres : Type 1 where
  pub by_slot : {R : Type 0} → (R → ℕ) → List R → List R
  pub integer : Text → Option ℤ

abbrev pub high_bit : Text
high_bit = codes "uint64 values with high bit set are not supported"

abbrev pub duplicate_key : Text
duplicate_key = codes "duplicate key value violates unique constraint"

abbrev pub too_long : Text
too_long = codes "value too long for type character varying"

abbrev pub out_of_range : Text
out_of_range = codes "integer out of range"

-- `database/sql` takes a `uint64` argument below 2 ^ 63 only.
abbrev pub is_int64 : ℕ → Bool
is_int64 n = ltb n (2 ^ 63)

abbrev pub settle : Reply Tables → Tables → List Outcome → Executed × Database
settle (answer t') t rest = (done, record { tables = t'; outcomes = rest })
settle (failure e) t rest = (refused e, record { tables = t; outcomes = rest })

abbrev pub apply : (Tables → Reply Tables) → Tables → List Outcome → Executed × Database
apply f t [] = settle (f t) t []
apply f t (lost e ∷ rest) = (refused e, record { tables = t; outcomes = rest })
apply f t (served ∷ rest) = settle (f t) t rest
apply f t (cut n ∷ rest) = settle (f t) t rest

-- `ExecContext`: `f` is the statement on the tables, with the error of a constraint.
unfoldable pub execute : (Tables → Reply Tables) → Database → Executed × Database
execute f db = apply f db.tables db.outcomes

module _ {R : Type 0} where
  abbrev pub fetch : (Tables → List R) → Tables → List Outcome → Reply (List R) × Database
  fetch f t [] = (answer (f t), record { tables = t; outcomes = [] })
  fetch f t (lost e ∷ rest) = (failure e, record { tables = t; outcomes = rest })
  fetch f t (served ∷ rest) = (answer (f t), record { tables = t; outcomes = rest })
  fetch f t (cut n ∷ rest) = (answer (take n (f t)), record { tables = t; outcomes = rest })

  -- `QueryContext` with the loop over `rows.Next()`, which ends at a broken connection as it does
  -- at the last row.
  unfoldable pub query : (Tables → List R) → Database → Reply (List R) × Database
  query f db = fetch f db.tables db.outcomes

  -- `WHERE slot BETWEEN from AND to`
  abbrev pub between : (R → ℕ) → ℕ → ℕ → List R → List R
  between slot_of from to [] = []
  between slot_of from to (r ∷ rs) =
      let rest = between slot_of from to rs in
      if not (ltb (slot_of r) from) && not (ltb to (slot_of r)) then r ∷ rest else rest

-- ===== src/Database/Keys/Reach.antt =====
-- The tables that the relay can come to, by any calls of the functions of database/database.go.
use proof_relay.Base.{ℕ, refl, List, [], ◌∷◌, Bool-cases, inl, inr, ◌&&◌, ◌≡◌}
use proof_relay.Text.{Text}
use proof_relay.Database.{
  BuilderBlockDatabase, ValidatorDeliveredHeaderDatabase, ValidatorReturnedBlockDatabase,
  ValidatorDeliveredPayloadDatabase, BuilderInterface, Reporter, Validator, Tables, Outcome, served,
  lost, cut, Database, Postgres, is_int64, execute, query, fetch,
}
use proof_relay.Database.Write.{
  with_args, put_validator_delivered_payload, put_validator_returned_block,
  put_validator_delivered_header, put_builder_block_submission, upsert_reporter, put_reporters,
  upsert_builder, put_builders, upsert_validator, put_validators,
}
use proof_relay.Database.Read.{
  range_of, select_range, get_builder_blocks_reporter, get_validator_delivered_header_reporter,
  get_validator_returned_blocks_reporter, get_validator_delivered_payload_reporter,
}
use proof_relay.Database.Keys.{
  IsWellFormed, KeepsAll-execute, KeepsAll-with_args, KeepsAll-put_each,
}
use proof_relay.Database.Keys.Statements.{
  KeepsAll-delivered_payload, KeepsAll-returned_block, KeepsAll-delivered_header,
  KeepsAll-submission, Keeps-upsert_reporter, Keeps-upsert_builder, Keeps-status_of,
}

abbrev pub empty : Tables
empty = record {
  submissions = [];
  payloads = [];
  returned = [];
  headers = [];
  builders = [];
  reporters = [];
  validators = [];
}

module _ (P : Postgres) where
  -- One call, whatever it returns.
  pub data Step : Database → Database → Type 0 where
    submission :
        (hash : Text) (d : BuilderBlockDatabase) (db : Database)
        → Step db (put_builder_block_submission hash d db).1
    delivered_header :
        (d : ValidatorDeliveredHeaderDatabase) (db : Database)
        → Step db (put_validator_delivered_header d db).1
    returned_block :
        (d : ValidatorReturnedBlockDatabase) (db : Database)
        → Step db (put_validator_returned_block d db).1
    delivered_payload :
        (d : ValidatorDeliveredPayloadDatabase) (db : Database)
        → Step db (put_validator_delivered_payload d db).1
    builders : (l : List BuilderInterface) (db : Database) → Step db (put_builders l db).1
    reporters : (l : List Reporter) (db : Database) → Step db (put_reporters l db).1
    validators : (l : List Validator) (db : Database) → Step db (put_validators P l db).1
    blocks_asked :
        (from to : ℕ) (db : Database) → Step db (get_builder_blocks_reporter P from to db).1
    headers_asked :
        (from to : ℕ) (db : Database)
        → Step db (get_validator_delivered_header_reporter P from to db).1
    returned_asked :
        (from to : ℕ) (db : Database)
        → Step db (get_validator_returned_blocks_reporter P from to db).1
    payloads_asked :
        (from to : ℕ) (db : Database)
        → Step db (get_validator_delivered_payload_reporter P from to db).1

  pub data Reach (db : Database) : Database → Type 0 where
    here : Reach db db
    next : {a b : Database} → Reach db a → Step a b → Reach db b

  tables-fetch :
      {R : Type 0} (f : Tables → List R) (t : Tables) (l : List Outcome)
      → (fetch f t l).1.tables ≡ t
  tables-fetch f t [] = refl
  tables-fetch f t (lost e ∷ rest) = refl
  tables-fetch f t (served ∷ rest) = refl
  tables-fetch f t (cut n ∷ rest) = refl

  tables-select_range :
      {R : Type 0} (slot_of : R → ℕ) (rows : Tables → List R) (from to : ℕ) (db : Database)
      → (select_range P slot_of rows from to db).1.tables ≡ db.tables
  unfolding select_range query
  tables-select_range slot_of rows from to db = elim (Bool-cases (is_int64 from && is_int64 to)) [
    | inl fits ↦ rw fits (tables-fetch (range_of P slot_of rows from to) db.tables db.outcomes)
    | inr high ↦ rw high refl
  ]

  Step-IsWellFormed : {a b : Database} → Step a b → IsWellFormed a.tables → IsWellFormed b.tables
  unfolding put_builders put_reporters put_validators upsert_validator get_builder_blocks_reporter
      get_validator_delivered_header_reporter get_validator_returned_blocks_reporter
      get_validator_delivered_payload_reporter
  Step-IsWellFormed (submission hash d db) h = KeepsAll-submission hash d db h
  Step-IsWellFormed (delivered_header d db) h = KeepsAll-delivered_header d db h
  Step-IsWellFormed (returned_block d db) h = KeepsAll-returned_block d db h
  Step-IsWellFormed (delivered_payload d db) h = KeepsAll-delivered_payload d db h
  Step-IsWellFormed (builders l db) h =
      KeepsAll-put_each (λ b. execute (upsert_builder b))
        (λ b. KeepsAll-execute _ (Keeps-upsert_builder b)) l db h
  Step-IsWellFormed (reporters l db) h =
      KeepsAll-put_each (λ r. with_args (is_int64 r.report_count) (upsert_reporter r))
        (λ r. KeepsAll-with_args _ _ (λ _. Keeps-upsert_reporter r)) l db h
  Step-IsWellFormed (validators l db) h =
      KeepsAll-put_each (λ v. with_args (is_int64 v.report_count) (upsert_validator P v))
        (λ v. KeepsAll-with_args _ _ (λ _. Keeps-status_of v (P.integer v.status))) l db h
  Step-IsWellFormed (blocks_asked from to db) h =
      rw (tables-select_range (λ r. r.slot) (λ t. t.submissions) from to db) h
  Step-IsWellFormed (headers_asked from to db) h =
      rw (tables-select_range (λ r. r.slot) (λ t. t.headers) from to db) h
  Step-IsWellFormed (returned_asked from to db) h =
      rw (tables-select_range (λ r. r.slot) (λ t. t.returned) from to db) h
  Step-IsWellFormed (payloads_asked from to db) h =
      rw (tables-select_range (λ r. r.slot) (λ t. t.returned) from to db) h

  -- From well-formed tables, such as the empty ones, any calls, with any outcomes of their
  -- statements, lead to well-formed tables: no id of a submission and no key of a builder, reporter or
  -- validator stands twice, every slot and bid value fits a BIGINT, every id has 32 bytes and every
  -- stored signature 48, and keys, stakes and counts fit their columns.
  pub Reach-IsWellFormed :
      {a b : Database} → IsWellFormed a.tables → Reach a b → IsWellFormed b.tables
  Reach-IsWellFormed h here = h
  Reach-IsWellFormed h (next r s) = Step-IsWellFormed s (Reach-IsWellFormed h r)

pub empty-IsWellFormed : IsWellFormed empty
empty-IsWellFormed = record {
  ids = tt;
  submissions = tt;
  payloads = tt;
  returned = tt;
  headers = tt;
  builders = tt;
  reporters = tt;
  validators = tt;
}

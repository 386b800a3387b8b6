-- ===== src/Database/Write.antt =====
-- The `Put` functions of database/database.go.
use proof_relay.Base.{
  slice_to, ℕ, suc, ◌^◌, Bool, false, ◌&&◌, ◌||◌, Option, none, some, List, [], ◌∷◌, ◌++◌, ltb, leb,
  if◌then◌else◌,
}
use proof_relay.Text.Base64.{marshal_bytes}
use proof_relay.Text.{Text, codes, text_eq}
use proof_relay.Text.Decimal.{ℤ, show_ℤ}
use proof_relay.Map.{lookup, insert, text_key}
use proof_relay.Beacon.{Reply, answer, failure}
use proof_relay.Database.{
  BuilderBlockDatabase, ValidatorDeliveredHeaderDatabase, ValidatorReturnedBlockDatabase,
  ValidatorDeliveredPayloadDatabase, BuilderInterface, Reporter, Validator, Submission, BuilderRow,
  Tables, Database, Executed, done, refused, panicked, Postgres, high_bit, duplicate_key, too_long,
  out_of_range, is_int64, execute,
}

-- A statement whose `uint64` arguments are in range.
abbrev pub with_args : Bool → (Tables → Reply Tables) → Database → Executed × Database
with_args fits f db = if fits then execute f db else (refused high_bit, db)

-- The payload is stored as the JSON of its bytes.
abbrev pub insert_payload : ValidatorDeliveredPayloadDatabase → Tables → Reply Tables
insert_payload d t =
    answer
      (record t { payloads = t.payloads ++ record d { payload = marshal_bytes d.payload } ∷ [] })

unfoldable pub put_validator_delivered_payload :
    ValidatorDeliveredPayloadDatabase → Database → Executed × Database
unfolding execute
put_validator_delivered_payload d = with_args (is_int64 d.slot) (insert_payload d)

abbrev pub insert_returned : ValidatorReturnedBlockDatabase → Tables → Reply Tables
insert_returned d t = answer (record t { returned = t.returned ++ d ∷ [] })

-- The first 48 bytes of the signature are stored.
unfoldable pub put_validator_returned_block :
    ValidatorReturnedBlockDatabase → Database → Executed × Database
unfolding execute slice_to
put_validator_returned_block d db = elim (slice_to 48 d.signature) [
  | none ↦ (panicked, db)
  | some signature ↦
      with_args (is_int64 d.slot) (insert_returned (record d { signature = signature })) db
]

abbrev pub insert_header : ValidatorDeliveredHeaderDatabase → Tables → Reply Tables
insert_header d t = answer (record t { headers = t.headers ++ d ∷ [] })

unfoldable pub put_validator_delivered_header :
    ValidatorDeliveredHeaderDatabase → Database → Executed × Database
unfolding execute
put_validator_delivered_header d =
    with_args (is_int64 d.slot && is_int64 d.bid_value) (insert_header d)

-- The row of a submission: the value is a text.
abbrev pub submission_row : Text → BuilderBlockDatabase → Submission
submission_row id d = record {
  id = id;
  slot = d.slot;
  builder_pubkey = d.builder_pubkey;
  builder_signature = d.builder_signature;
  block_hash = d.builder_bid_hash;
  rpbs = d.rpbs;
  rpbs_public_key = d.rpbs_public_key;
  transaction_byte = d.transaction_byte;
  bid_value = show_ℤ d.bid_value;
}

unfoldable pub has_id : Text → List Submission → Bool
has_id id [] = false
has_id id (r ∷ rs) = text_eq r.id id || has_id id rs

-- The primary key `id` is unique.
unfoldable pub insert_submission : Submission → Tables → Reply Tables
unfolding has_id
insert_submission r t =
    if has_id r.id t.submissions
    then failure duplicate_key
    else answer (record t { submissions = t.submissions ++ r ∷ [] })

-- `hash` is what the method `Hash` of the submission gives; its first 32 bytes are the key.
unfoldable pub put_builder_block_submission :
    Text → BuilderBlockDatabase → Database → Executed × Database
unfolding execute slice_to insert_submission
put_builder_block_submission hash d db = elim (slice_to 32 hash) [
  | none ↦ (panicked, db)
  | some id ↦ with_args (is_int64 d.slot) (insert_submission (submission_row id d)) db
]

-- The characters of a text in UTF-8: its bytes but for those from 128 to 191, which continue a character.
abbrev is_continuation : ℕ → Bool
is_continuation c = leb 128 c && ltb c 192

abbrev pub characters : Text → ℕ
characters [] = 0
characters (c ∷ t) = let rest = characters t in if is_continuation c then rest else suc rest

-- VARCHAR(98), and VARCHAR(200) of the stake
abbrev pub fits_key : Text → Bool
fits_key t = leb (characters t) 98

abbrev pub fits_stake : Text → Bool
fits_stake t = leb (characters t) 200

-- INTEGER, for what is not negative
abbrev pub fits_integer : ℕ → Bool
fits_integer n = ltb n (2 ^ 31)

-- A loop over statements, which an error ends; what was written before stays.
module _ {A : Type 0} where
  unfoldable pub put_each :
      (A → Database → Executed × Database) → List A → Database → Executed × Database
  put_each put [] db = (done, db)
  put_each put (a ∷ l) db = elim ((put a db).0) [
    | done ↦ put_each put l (put a db).1
    | refused e ↦ (refused e, (put a db).1)
    | panicked ↦ (panicked, (put a db).1)
  ]

unfoldable pub upsert_reporter : Reporter → Tables → Reply Tables
upsert_reporter r t =
    if fits_key r.reporter_pubkey
    then if fits_integer r.report_count
      then answer (record t {
        reporters =
            insert r.reporter_pubkey (record { active = r.active; report_count = r.report_count })
              t.reporters;
      })
      else failure out_of_range
    else failure too_long

unfoldable pub put_reporters : List Reporter → Database → Executed × Database
unfolding put_each execute upsert_reporter
put_reporters = put_each (λ r. with_args (is_int64 r.report_count) (upsert_reporter r))

-- On a conflict only the status is set, so that the stake is the one of the first insert.
abbrev pub kept_stake : Text → Option BuilderRow → Text
kept_stake stake none = stake
kept_stake stake (some row) = row.builder_stake

unfoldable pub upsert_builder : BuilderInterface → Tables → Reply Tables
upsert_builder b t =
    if fits_key b.builder_pubkey
    then if fits_stake b.balance_staked
      then answer (record t {
        builders =
            insert b.builder_pubkey
              (record {
                builder_stake = kept_stake b.balance_staked (lookup b.builder_pubkey t.builders);
                status = b.status;
              })
              t.builders;
      })
      else failure too_long
    else failure too_long

unfoldable pub put_builders : List BuilderInterface → Database → Executed × Database
unfolding put_each execute upsert_builder
put_builders = put_each (λ b. execute (upsert_builder b))

abbrev pub status_of : Validator → Option ℤ → Tables → Reply Tables
status_of v none t = failure (codes "invalid input syntax for type integer")
status_of v (some status) t =
    if fits_key v.validator_pubkey
    then if fits_integer v.report_count
      then answer (record t {
        validators =
            insert v.validator_pubkey (record { status = status; report_count = v.report_count })
              t.validators;
      })
      else failure out_of_range
    else failure too_long

module _ (P : Postgres) where
  -- The status is a text, and its column an INTEGER.
  unfoldable pub upsert_validator : Validator → Tables → Reply Tables
  upsert_validator v = status_of v (P.integer v.status)

  unfoldable pub put_validators : List Validator → Database → Executed × Database
  unfolding put_each execute upsert_validator
  put_validators = put_each (λ v. with_args (is_int64 v.report_count) (upsert_validator v))

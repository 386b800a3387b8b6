-- ===== src/Database/Keys/Statements.antt =====
-- Each statement of the `Put` functions keeps the tables well-formed.
use proof_relay.Base.{
  slice_to, ◌≤◌, ◌≡◌, ◌&&◌, Option, none, some, List, [], ◌∷◌, length, arith, All-append, ltb→lt,
  leb→le, Bool-cases, Option-cases, inl, inr,
}
use proof_relay.Text.{Text, text_eq}
use proof_relay.Text.Decimal.{ℤ}
use proof_relay.Map.{lookup, text_key}
use proof_relay.Database.{
  BuilderBlockDatabase, ValidatorDeliveredHeaderDatabase, ValidatorReturnedBlockDatabase,
  ValidatorDeliveredPayloadDatabase, BuilderInterface, Reporter, Validator, Submission, BuilderRow,
  is_int64,
}
use proof_relay.Database.Keys.{
  IsKeyed, IsBigint, IsUnique-append, IsKeyed-insert, length-slice_to, Keeps, KeepsAll,
  KeepsAll-with_args,
}
use proof_relay.Database.Write.{
  put_validator_delivered_payload, put_validator_returned_block, put_validator_delivered_header,
  insert_payload, insert_returned, insert_header, submission_row, has_id, insert_submission,
  put_builder_block_submission, characters, fits_key, fits_stake, fits_integer, upsert_reporter,
  kept_stake, upsert_builder, status_of,
}

pub KeepsAll-delivered_payload :
    (d : ValidatorDeliveredPayloadDatabase) → KeepsAll (put_validator_delivered_payload d)
unfolding put_validator_delivered_payload
KeepsAll-delivered_payload d = KeepsAll-with_args (is_int64 d.slot) (insert_payload d) λ fits t h.
    record {
      ids = h.ids;
      submissions = h.submissions;
      payloads = All-append (λ r. IsBigint r.slot) t.payloads _ h.payloads (ground arith, tt);
      returned = h.returned;
      headers = h.headers;
      builders = h.builders;
      reporters = h.reporters;
      validators = h.validators;
    }

pub KeepsAll-returned_block :
    (d : ValidatorReturnedBlockDatabase) → KeepsAll (put_validator_returned_block d)
unfolding put_validator_returned_block
KeepsAll-returned_block d db g = elim (Option-cases (slice_to 48 d.signature)) [
  | inl short ↦ rw (short, put_validator_returned_block) g
  | inr (signature, cut_off) ↦
      rw (cut_off, put_validator_returned_block)
        (KeepsAll-with_args (is_int64 d.slot) (insert_returned (record d { signature = signature }))
          (λ fits t h. record {
            ids = h.ids;
            submissions = h.submissions;
            payloads = h.payloads;
            returned =
                All-append (λ r. (length r.signature ≡ 48) × IsBigint r.slot) t.returned
                  (record d { signature = signature } ∷ []) h.returned
                  ((length-slice_to 48 d.signature signature cut_off, ground arith), tt);
            headers = h.headers;
            builders = h.builders;
            reporters = h.reporters;
            validators = h.validators;
          })
          db g)
]

pub KeepsAll-delivered_header :
    (d : ValidatorDeliveredHeaderDatabase) → KeepsAll (put_validator_delivered_header d)
unfolding put_validator_delivered_header
KeepsAll-delivered_header d =
    KeepsAll-with_args (is_int64 d.slot && is_int64 d.bid_value) (insert_header d) λ fits t h.
      record {
        ids = h.ids;
        submissions = h.submissions;
        payloads = h.payloads;
        returned = h.returned;
        headers =
            All-append (λ r. IsBigint r.slot × IsBigint r.bid_value) t.headers (d ∷ []) h.headers
              ((ground arith, ground arith), tt);
        builders = h.builders;
        reporters = h.reporters;
        validators = h.validators;
      }

Keeps-insert_submission :
    (r : Submission) → length r.id ≡ 32 → IsBigint r.slot → Keeps (insert_submission r)
unfolding insert_submission
Keeps-insert_submission r key slot t h = elim (Bool-cases (has_id r.id t.submissions)) [
  | inl taken ↦ rw taken tt
  | inr fresh ↦ rw fresh (record {
    ids = IsUnique-append t.submissions r h.ids fresh;
    submissions =
        All-append (λ r. (length r.id ≡ 32) × IsBigint r.slot) t.submissions (r ∷ []) h.submissions
          ((key, slot), tt);
    payloads = h.payloads;
    returned = h.returned;
    headers = h.headers;
    builders = h.builders;
    reporters = h.reporters;
    validators = h.validators;
  })
]

pub KeepsAll-submission :
    (hash : Text) (d : BuilderBlockDatabase) → KeepsAll (put_builder_block_submission hash d)
unfolding put_builder_block_submission
KeepsAll-submission hash d db g = elim (Option-cases (slice_to 32 hash)) [
  | inl short ↦ rw (short, put_builder_block_submission) g
  | inr (id, cut_off) ↦
      rw (cut_off, put_builder_block_submission)
        (KeepsAll-with_args (is_int64 d.slot) (insert_submission (submission_row id d))
          (λ fits.
            Keeps-insert_submission (submission_row id d) (length-slice_to 32 hash id cut_off)
              (ground arith))
          db g)
]

pub Keeps-upsert_reporter : (r : Reporter) → Keeps (upsert_reporter r)
unfolding upsert_reporter
Keeps-upsert_reporter r t h = elim (Bool-cases (fits_key r.reporter_pubkey)) [
  | inr long ↦ rw long tt
  | inl short ↦ elim (Bool-cases (fits_integer r.report_count)) [
    | inr large ↦ rw (short, large) tt
    | inl small ↦
        rw (short, small)
          (record {
            ids = h.ids;
            submissions = h.submissions;
            payloads = h.payloads;
            returned = h.returned;
            headers = h.headers;
            builders = h.builders;
            reporters =
                IsKeyed-insert _ r.reporter_pubkey _ t.reporters
                  (leb→le _ _ short, ltb→lt _ _ small) h.reporters;
            validators = h.validators;
          })
  ]
]

characters-kept_stake :
    (stake key : Text) (m : List (Text × BuilderRow))
    → characters stake ≤ 200
    → IsKeyed (λ k r. (characters k ≤ 98) × (characters r.builder_stake ≤ 200)) m
    → characters (kept_stake stake (lookup key m)) ≤ 200
unfolding lookup
characters-kept_stake stake key [] small h = small
characters-kept_stake stake key ((j, row) ∷ m) small h = elim (Bool-cases (text_eq j key)) [
  | inl same ↦ rw same h.1.1
  | inr other ↦ rw other (characters-kept_stake stake key m small h.2)
]

pub Keeps-upsert_builder : (b : BuilderInterface) → Keeps (upsert_builder b)
unfolding upsert_builder
Keeps-upsert_builder b t h = elim (Bool-cases (fits_key b.builder_pubkey)) [
  | inr long ↦ rw long tt
  | inl short ↦ elim (Bool-cases (fits_stake b.balance_staked)) [
    | inr large ↦ rw (short, large) tt
    | inl small ↦
        rw (short, small)
          (record {
            ids = h.ids;
            submissions = h.submissions;
            payloads = h.payloads;
            returned = h.returned;
            headers = h.headers;
            builders =
                IsKeyed-insert _ b.builder_pubkey _ t.builders
                  (
                    leb→le _ _ short,
                    characters-kept_stake b.balance_staked b.builder_pubkey t.builders
                        (leb→le _ _ small) h.builders,
                  )
                  h.builders;
            reporters = h.reporters;
            validators = h.validators;
          })
  ]
]

pub Keeps-status_of : (v : Validator) (status : Option ℤ) → Keeps (status_of v status)
Keeps-status_of v none t h = tt
Keeps-status_of v (some status) t h = elim (Bool-cases (fits_key v.validator_pubkey)) [
  | inr long ↦ rw long tt
  | inl short ↦ elim (Bool-cases (fits_integer v.report_count)) [
    | inr large ↦ rw (short, large) tt
    | inl small ↦
        rw (short, small)
          (record {
            ids = h.ids;
            submissions = h.submissions;
            payloads = h.payloads;
            returned = h.returned;
            headers = h.headers;
            builders = h.builders;
            reporters = h.reporters;
            validators =
                IsKeyed-insert _ v.validator_pubkey _ t.validators
                  (leb→le _ _ short, ltb→lt _ _ small) h.validators;
          })
  ]
]

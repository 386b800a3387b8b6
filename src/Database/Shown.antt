-- ===== src/Database/Shown.antt =====
-- What the reporter is shown of what was put (`GetBuilderBlocksReporter`).
pub mod Proposer
use mathlib.Core.List.{Perm, perm_append_singleton}
use mathlib.Core.List.Perm
use proof_relay.Base.{
  slice_to, ℕ, zero, suc, ◌+◌, ◌^◌, ◌<◌, ◌≤◌, ◌≡◌, refl, ap, sym, ◌∙◌, Bool, true, false, not, ◌&&◌,
  Option, none, some, List, [], ◌∷◌, ◌++◌, map, take, arith, ltb, Bool-cases, Option-cases, inl,
  inr, if◌then◌else◌,
}
use proof_relay.Text.{Text, text_eq}
use proof_relay.Text.Decimal.{ℤ, show_ℤ, parse_ℤ, parse_ℤ-show_ℤ}
use proof_relay.Beacon.{Reply, answer, failure}
use proof_relay.Database.{
  BuilderBlockDatabase, Submission, Tables, Outcome, served, lost, cut, Database, Executed, done,
  refused, panicked, Postgres, is_int64, settle, apply, execute, fetch, query, between,
}
use proof_relay.Database.Write.{
  with_args, submission_row, has_id, insert_submission, put_builder_block_submission,
}
use proof_relay.Database.Read.{
  no_rows, or_no_rows, or_zero, scanned, map_reply, range_of, select_range,
  get_builder_blocks_reporter, get_validator_delivered_header_reporter,
  get_validator_returned_blocks_reporter, get_validator_delivered_payload_reporter,
}

abbrev pub IsAscending : {R : Type 0} → (R → ℕ) → List R → Type 0
IsAscending slot_of [] = Unit
IsAscending slot_of (r ∷ []) = Unit
IsAscending slot_of (r ∷ s ∷ l) = (slot_of r ≤ slot_of s) × IsAscending slot_of (s ∷ l)

-- What SQL promises of `ORDER BY slot ASC`.
pub record PostgresLaws (P : Postgres) : Type 1 where
  pub by_slot_perm : {R : Type 0} (slot_of : R → ℕ) (l : List R) → Perm (P.by_slot slot_of l) l
  pub by_slot_ascending :
      {R : Type 0} (slot_of : R → ℕ) (l : List R) → IsAscending slot_of (P.by_slot slot_of l)

-- The next statement is served.
abbrev pub Serves : List Outcome → Type 0
Serves [] = Unit
Serves (served ∷ _) = Unit
Serves (lost _ ∷ _) = ⊥
Serves (cut _ ∷ _) = ⊥

module _ {R : Type 0} (slot_of : R → ℕ) where
  between-append :
      (from to : ℕ) (l : List R) (r : R)
      → from ≤ slot_of r
      → slot_of r ≤ to
      → between slot_of from to (l ++ r ∷ []) ≡ between slot_of from to l ++ r ∷ []
  between-append from to [] r low high = ground arith
  between-append from to (s ∷ l) r low high =
      elim (Bool-cases (not (ltb (slot_of s) from) && not (ltb to (slot_of s)))) [
        | inl inside ↦ rw inside (ap (λ t. s ∷ t) (between-append from to l r low high))
        | inr outside ↦ rw outside (between-append from to l r low high)
      ]

  -- One row more in the table is one row more in a range with its slot.
  pub range-append :
      (P : Postgres) (laws : PostgresLaws P) (from to : ℕ) (old new : List R) (r : R)
      → new ≡ old ++ r ∷ []
      → from ≤ slot_of r
      → slot_of r ≤ to
      → Perm
          (P.by_slot slot_of (between slot_of from to new))
          (r ∷ P.by_slot slot_of (between slot_of from to old))
  range-append P laws from to old new r grown low high =
      let inside = between slot_of from to old in
      let same : between slot_of from to new ≡ inside ++ r ∷ [] =
        ap (between slot_of from to) grown ∙ between-append from to old r low high in
      Perm.trans (laws.by_slot_perm slot_of (between slot_of from to new)) (
        rw same (
          Perm.trans (perm_append_singleton r inside)
            (Perm.cons r (Perm.symm (laws.by_slot_perm slot_of inside)))))

scanned-submission_row : (id : Text) (d : BuilderBlockDatabase) → scanned (submission_row id d) ≡ d
scanned-submission_row id d = rw (parse_ℤ-show_ℤ d.bid_value) refl

IsAscending-scanned :
    (l : List Submission) → IsAscending (λ s. s.slot) l → IsAscending (λ d. d.slot) (map scanned l)
IsAscending-scanned [] h = tt
IsAscending-scanned (r ∷ []) h = tt
IsAscending-scanned (r ∷ s ∷ l) h = (h.0, IsAscending-scanned (s ∷ l) h.1)

-- A statement that is reported as done has changed the tables as it says.
abbrev pub IsDone : (Tables → Reply Tables) → Tables → Executed × Database → Type 0
IsDone f t (r, db) = (t' : Tables) × (f t ≡ answer t') × (db.tables ≡ t')

IsDone-settle :
    (f : Tables → Reply Tables) (r : Reply Tables) (t : Tables) (rest : List Outcome)
    → f t ≡ r
    → (settle r t rest).0 ≡ done
    → IsDone f t (settle r t rest)
IsDone-settle f (answer t') t rest e d = (t', e, refl)
IsDone-settle f (failure m) t rest e d = absurd (cc d)

IsDone-apply :
    (f : Tables → Reply Tables) (t : Tables) (l : List Outcome)
    → (apply f t l).0 ≡ done
    → IsDone f t (apply f t l)
IsDone-apply f t [] d = IsDone-settle f (f t) t [] refl d
IsDone-apply f t (lost e ∷ rest) d = absurd (cc d)
IsDone-apply f t (served ∷ rest) d = IsDone-settle f (f t) t rest refl d
IsDone-apply f t (cut n ∷ rest) d = IsDone-settle f (f t) t rest refl d

pub IsDone-with_args :
    (fits : Bool) (f : Tables → Reply Tables) (db : Database)
    → (with_args fits f db).0 ≡ done
    → (fits ≡ true) × IsDone f db.tables (with_args fits f db)
unfolding execute
IsDone-with_args true f db d = (refl, IsDone-apply f db.tables db.outcomes d)
IsDone-with_args false f db d = absurd (cc d)

submissions-insert_submission :
    (r : Submission) (t t' : Tables)
    → insert_submission r t ≡ answer t'
    → t'.submissions ≡ t.submissions ++ r ∷ []
unfolding insert_submission
submissions-insert_submission r t t' e = elim (Bool-cases (has_id r.id t.submissions)) [
  | inl taken ↦ absurd (cc (rw taken at e))
  | inr fresh ↦
      let f : answer (record t { submissions = t.submissions ++ r ∷ [] }) ≡ answer t' =
        rw fresh at e in
      ap (λ u. u.submissions)
        (sym (let g : record t { submissions = t.submissions ++ r ∷ [] } ≡ t' = cc in g))
]

put_done :
    (hash : Text) (d : BuilderBlockDatabase) (db : Database)
    → (put_builder_block_submission hash d db).0 ≡ done
    → (id : Text) × (d.slot < 2 ^ 63)
      × ((put_builder_block_submission hash d db).1.tables.submissions
          ≡ db.tables.submissions ++ submission_row id d ∷ [])
unfolding put_builder_block_submission
put_done hash d db h = elim (Option-cases (slice_to 32 hash)) [
  | inl short ↦ absurd (cc (rw (short, put_builder_block_submission) at h))
  | inr (id, cut_off) ↦
      let statement = insert_submission (submission_row id d) in
      let (fits, (t', inserted, tables)) =
        IsDone-with_args (is_int64 d.slot) statement db
          (rw (cut_off, put_builder_block_submission) at h) in
      rw (cut_off, put_builder_block_submission)
        (
          id,
          ground arith,
          ap (λ t. t.submissions) tables
              ∙ submissions-insert_submission (submission_row id d) db.tables t' inserted,
        )
]

pub answers-fetch :
    {R : Type 0} (f : Tables → List R) (t : Tables) (l : List Outcome)
    → Serves l
    → (fetch f t l).0 ≡ answer (f t)
answers-fetch f t [] serves = refl
answers-fetch f t (served ∷ rest) serves = refl
answers-fetch f t (lost e ∷ rest) serves = absurd serves
answers-fetch f t (cut n ∷ rest) serves = absurd serves

module _ (P : Postgres) where
  -- The rows of a range, read.
  abbrev blocks : ℕ → ℕ → List Submission → List BuilderBlockDatabase
  blocks from to rows = map scanned (P.by_slot (λ r. r.slot) (between (λ r. r.slot) from to rows))

  blocks_answer :
      (from to : ℕ) (db : Database)
      → is_int64 from ≡ true
      → is_int64 to ≡ true
      → Serves db.outcomes
      → (get_builder_blocks_reporter P from to db).0 ≡ answer (blocks from to db.tables.submissions)
  unfolding get_builder_blocks_reporter select_range query
  blocks_answer from to db from_fits to_fits serves =
      let rows = range_of P (λ r. r.slot) (λ t. t.submissions) from to in
      rw (from_fits, to_fits)
        (ap (λ r. map_reply scanned (or_no_rows r))
          (answers-fetch rows db.tables db.outcomes serves))

  -- A submission that is put without an error is shown to the reporter, if the query is served: for a
  -- range with its slot, what `GetBuilderBlocksReporter` answers is what it would have answered
  -- before, and the submission as it was given, value included, by ascending slots.
  pub submission_shown :
      (laws : PostgresLaws P) (hash : Text) (d : BuilderBlockDatabase) (from to : ℕ) (db : Database)
      → (put_builder_block_submission hash d db).0 ≡ done
      → Serves (put_builder_block_submission hash d db).1.outcomes
      → from ≤ d.slot
      → d.slot ≤ to
      → to < 2 ^ 63
      → (before : List BuilderBlockDatabase) × (after : List BuilderBlockDatabase)
        × ((get_builder_blocks_reporter P from to (record db { outcomes = [] })).0 ≡ answer before)
        × ((get_builder_blocks_reporter P from to (put_builder_block_submission hash d db).1).0
            ≡ answer after)
        × Perm after (d ∷ before)
        × IsAscending (λ b. b.slot) after
  submission_shown laws hash d from to db put serves low high small =
      let (id, fits, rows) = put_done hash d db put in
      let from_fits : is_int64 from ≡ true = ground arith in
      let to_fits : is_int64 to ≡ true = ground arith in
      let db' = (put_builder_block_submission hash d db).1 in
      let row = submission_row id d in
      let order =
        range-append (λ (r : Submission). r.slot) P laws from to db.tables.submissions
          db'.tables.submissions row rows low high in
      (
        blocks from to db.tables.submissions,
        blocks from to db'.tables.submissions,
        blocks_answer from to (record db { outcomes = [] }) from_fits to_fits tt,
        blocks_answer from to db' from_fits to_fits serves,
        rw (scanned-submission_row id d) at (Perm.map scanned order),
        IsAscending-scanned
            (P.by_slot (λ r. r.slot) (between (λ r. r.slot) from to db'.tables.submissions))
            (laws.by_slot_ascending (λ r. r.slot)
              (between (λ r. r.slot) from to db'.tables.submissions)),
      )

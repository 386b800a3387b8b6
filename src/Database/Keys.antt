-- ===== src/Database/Keys.antt =====
-- What holds of the tables whatever is put into them: the primary keys are unique, and the columns
-- hold what their types admit.
pub mod Statements
pub mod Reach
use proof_relay.Base.{
  slice_to, ℕ, zero, suc, ◌+◌, ◌^◌, ◌<◌, ◌≤◌, ◌≡◌, refl, ap, Bool, true, false, ◌&&◌, ◌||◌, Option,
  none, some, List, [], ◌∷◌, ◌++◌, length, arith, All, All-append, ltb, ltb→lt, leb, leb→le,
  Bool-cases, Option-cases, inl, inr, if◌then◌else◌, sym, ◌∙◌,
}
use proof_relay.Text.{Text, text_eq, text_eq_iff}
use proof_relay.Text.Decimal.{ℤ}
use proof_relay.Map.{Map, lookup, insert, text_key, lookup-insert}
use proof_relay.Beacon.{Reply, answer, failure}
use proof_relay.Database.{
  BuilderBlockDatabase, ValidatorDeliveredHeaderDatabase, ValidatorReturnedBlockDatabase,
  ValidatorDeliveredPayloadDatabase, BuilderInterface, Reporter, Validator, Submission, BuilderRow,
  ReporterRow, ValidatorRow, Tables, Outcome, served, lost, cut, Database, Executed, done, refused,
  panicked, Postgres, is_int64, settle, apply, execute,
}
use proof_relay.Database.Write.{
  with_args, put_validator_delivered_payload, put_validator_returned_block,
  put_validator_delivered_header, insert_payload, insert_returned, insert_header, submission_row,
  has_id, insert_submission, put_builder_block_submission, characters, fits_key, fits_integer,
  put_each, upsert_reporter, put_reporters, kept_stake, upsert_builder, put_builders, status_of,
  upsert_validator, put_validators,
}

abbrev pub IsUnique : List Submission → Type 0
IsUnique [] = Unit
IsUnique (r ∷ rs) = (has_id r.id rs ≡ false) × IsUnique rs

-- No key stands twice, and the rows satisfy `P`.
abbrev pub IsKeyed : {V : Type 0} → (Text → V → Type 0) → List (Text × V) → Type 0
IsKeyed P [] = Unit
IsKeyed P ((k, v) ∷ m) = (lookup k m ≡ none) × P k v × IsKeyed P m

abbrev pub IsBigint : ℕ → Type 0
IsBigint n = n < 2 ^ 63

pub record IsWellFormed (t : Tables) : Type 0 where
  pub ids : IsUnique t.submissions
  pub submissions : All (λ r. (length r.id ≡ 32) × IsBigint r.slot) t.submissions
  pub payloads : All (λ r. IsBigint r.slot) t.payloads
  pub returned : All (λ r. (length r.signature ≡ 48) × IsBigint r.slot) t.returned
  pub headers : All (λ r. IsBigint r.slot × IsBigint r.bid_value) t.headers
  pub builders :
      IsKeyed (λ k r. (characters k ≤ 98) × (characters r.builder_stake ≤ 200)) t.builders
  pub reporters : IsKeyed (λ k r. (characters k ≤ 98) × (r.report_count < 2 ^ 31)) t.reporters
  pub validators : IsKeyed (λ k r. (characters k ≤ 98) × (r.report_count < 2 ^ 31)) t.validators

has_id-append :
    (id : Text) (rs : List Submission) (r : Submission)
    → has_id id rs ≡ false
    → text_eq r.id id ≡ false
    → has_id id (rs ++ r ∷ []) ≡ false
unfolding has_id
has_id-append id [] r h e = ground arith
has_id-append id (s ∷ rs) r h e = ground (arith, has_id-append id rs r)

pub IsUnique-append :
    (rs : List Submission) (r : Submission)
    → IsUnique rs
    → has_id r.id rs ≡ false
    → IsUnique (rs ++ r ∷ [])
unfolding has_id
IsUnique-append [] r u h = (refl, tt)
IsUnique-append (s ∷ rs) r u h = (
  has_id-append s.id rs r u.0 (ground (arith, text_eq_iff s.id r.id, text_eq_iff r.id s.id)),
  IsUnique-append rs r u.1 (ground arith),
)

pub IsKeyed-insert :
    {V : Type 0} (P : Text → V → Type 0) (k : Text) (v : V) (m : List (Text × V))
    → P k v
    → IsKeyed P m
    → IsKeyed P (insert k v m)
unfolding insert lookup
IsKeyed-insert P k v [] p h = (refl, p, tt)
IsKeyed-insert P k v ((j, w) ∷ m) p h = elim (Bool-cases (text_eq j k)) [
  | inl same ↦ let e = (text_eq_iff j k).0 same in rw same (rw e at h.0, p, h.2)
  | inr other ↦ rw other (
    (lookup-insert j k v m
        ∙ (let apart : text_eq k j ≡ false = ground (arith, text_eq_iff k j, text_eq_iff j k) in
            rw apart h.0)),
    h.1,
    IsKeyed-insert P k v m p h.2,
  )
]

pub length-slice_to : (n : ℕ) (t r : Text) → slice_to n t ≡ some r → length r ≡ n
unfolding slice_to
length-slice_to zero t r e = ground arith
length-slice_to (suc n) [] r e = absurd (cc e)
length-slice_to (suc n) (c ∷ t) r e = elim (Option-cases (slice_to n t)) [
  | inl short ↦ let f : none ≡ some r = rw short at e in absurd (cc f)
  | inr (q, whole) ↦
      let f : some (c ∷ q) ≡ some r = rw whole at e in
      let same : c ∷ q ≡ r = cc in
      let shorter = length-slice_to n t q whole in sym (ap length same) ∙ ap suc shorter
]

-- What a statement gives is well-formed, if it succeeds.
abbrev pub IsGood : Reply Tables → Type 0
IsGood (answer t) = IsWellFormed t
IsGood (failure _) = Unit

abbrev pub Keeps : (Tables → Reply Tables) → Type 0
Keeps f = (t : Tables) → IsWellFormed t → IsGood (f t)

abbrev pub KeepsAll : (Database → Executed × Database) → Type 0
KeepsAll put = (db : Database) → IsWellFormed db.tables → IsWellFormed (put db).1.tables

IsWellFormed-settle :
    (r : Reply Tables) (t : Tables) (rest : List Outcome)
    → IsGood r
    → IsWellFormed t
    → IsWellFormed (settle r t rest).1.tables
IsWellFormed-settle (answer t') t rest good h = good
IsWellFormed-settle (failure e) t rest good h = h

IsWellFormed-apply :
    (f : Tables → Reply Tables) (t : Tables) (l : List Outcome)
    → Keeps f
    → IsWellFormed t
    → IsWellFormed (apply f t l).1.tables
IsWellFormed-apply f t [] keeps h = IsWellFormed-settle (f t) t [] (keeps t h) h
IsWellFormed-apply f t (lost e ∷ rest) keeps h = h
IsWellFormed-apply f t (served ∷ rest) keeps h = IsWellFormed-settle (f t) t rest (keeps t h) h
IsWellFormed-apply f t (cut n ∷ rest) keeps h = IsWellFormed-settle (f t) t rest (keeps t h) h

pub KeepsAll-execute : (f : Tables → Reply Tables) → Keeps f → KeepsAll (execute f)
unfolding execute
KeepsAll-execute f keeps db h = IsWellFormed-apply f db.tables db.outcomes keeps h

pub KeepsAll-with_args :
    (fits : Bool) (f : Tables → Reply Tables)
    → (fits ≡ true → Keeps f)
    → KeepsAll (with_args fits f)
KeepsAll-with_args true f keeps db h = KeepsAll-execute f (keeps refl) db h
KeepsAll-with_args false f keeps db h = h

pub KeepsAll-put_each :
    {A : Type 0} (put : A → Database → Executed × Database)
    → ((a : A) → KeepsAll (put a))
    → (l : List A) → KeepsAll (put_each put l)
unfolding put_each
KeepsAll-put_each put keeps [] db h = h
KeepsAll-put_each put keeps (a ∷ l) db h =
    elim ((put a db).0)
      as (λ r.
        IsWellFormed
          (elim r as (λ _. Executed × Database) [
            | done ↦ put_each put l (put a db).1
            | refused e ↦ (refused e, (put a db).1)
            | panicked ↦ (panicked, (put a db).1)
          ]).1.tables) [
            | done ↦ KeepsAll-put_each put keeps l (put a db).1 (keeps a db h)
            | refused e ↦ keeps a db h
            | panicked ↦ keeps a db h
          ]

-- ===== src/Registry.antt =====
-- Who may take part (utils/relayUtils.go): the statuses that the registry of the pool gives are
-- written to Redis when they change, and the relay reads them there.
pub mod Sync
pub mod Chunks
pub mod Pool
pub mod Updates
pub mod Discord
pub mod Subgraph
use proof_relay.Base.{
  ℕ, length, Bool, true, false, not, ◌||◌, Option, none, some, List, [], ◌∷◌, ◌++◌, Error, Result,
  ok, err, nil_reply, failed, if◌then◌else◌,
}
use proof_relay.Text.{Text, codes, text_eq}
use proof_relay.Map.{Map, lookup, insert, text_key}
use proof_relay.Redis.{Redis}
use proof_relay.Beacon.{Reply, answer, failure}
use proof_relay.Registry.Chunks.{chunk_slice}

abbrev pub key_builder_status : Text
key_builder_status = codes "builder-status"

abbrev pub key_reporter_status : Text
key_reporter_status = codes "reporter-status"

abbrev pub key_validator_status : Text
key_validator_status = codes "validator-status"

-- How `go-redis` writes a Boolean argument.
abbrev pub show_bool : Bool → Text
show_bool true = codes "1"
show_bool false = codes "0"

abbrev one_of : Text → List Text → Bool
one_of t [] = false
one_of t (u ∷ us) = text_eq t u || one_of t us

-- `strconv.ParseBool`
unfoldable pub parse_bool : Text → Result Bool
unfolding text_eq
parse_bool t =
    if one_of t
      (codes "1" ∷ codes "t" ∷ codes "T" ∷ codes "true" ∷ codes "TRUE" ∷ codes "True" ∷ [])
    then ok true
    else if one_of t
        (codes "0" ∷ codes "f" ∷ codes "F" ∷ codes "false" ∷ codes "FALSE" ∷ codes "False" ∷ [])
    then ok false
    else err failed

-- `m[k]` on a map of Booleans
abbrev pub or_false : Option Bool → Bool
or_false none = false
or_false (some b) = b

-- `m[k]` on a map of strings
abbrev pub or_empty_text : Option Text → Text
or_empty_text none = []
or_empty_text (some t) = t

abbrev same_bool : Bool → Bool → Bool
same_bool true b = b
same_bool false b = not b

-- What a run of one of the loops over the registry leaves: the statuses that were seen last, the
-- store, and the errors that were logged.
pub record Synced (Status : Type 0) (Store : Type 0) : Type 0 where
  pub last : Map Text Status
  pub store : Store
  pub errors : List Error

module _ (R : Redis) where
  unfoldable pub set_builder_status : Text → Bool → R.Store → Result (Unit {0}) × R.Store
  set_builder_status builder status s = R.hset key_builder_status builder (show_bool status) s

  unfoldable pub set_reporter_status : Text → Bool → R.Store → Result (Unit {0}) × R.Store
  set_reporter_status reporter status s = R.hset key_reporter_status reporter (show_bool status) s

  unfoldable pub set_validator_status : Text → Text → R.Store → Result (Unit {0}) × R.Store
  set_validator_status validator status s = R.hset key_validator_status validator status s

  abbrev pub log_error : Result (Unit {0}) → List Error
  log_error (ok _) = []
  log_error (err e) = e ∷ []

  -- One turn of a loop: the write, whose error is logged and no more, and the entry in the map.
  abbrev pub written_status :
      {S : Type 0} → Text → S → Result (Unit {0}) × R.Store → Synced S R.Store → Synced S R.Store
  written_status key status (r, t) m = record {
    last = insert key status m.last;
    store = t;
    errors = m.errors ++ log_error r;
  }

  -- The loop of `GetBuilders`.
  unfoldable pub sync_builders : List (Text × Bool) → Synced Bool R.Store → Synced Bool R.Store
  unfolding set_builder_status
  sync_builders [] m = m
  sync_builders ((builder, status) ∷ r) m = sync_builders r (
      if same_bool status (or_false (lookup builder m.last))
      then m
      else written_status builder status (set_builder_status builder status m.store) m)

  -- The loop of `GetReporters`.
  unfoldable pub sync_reporters : List (Text × Bool) → Synced Bool R.Store → Synced Bool R.Store
  unfolding set_reporter_status
  sync_reporters [] m = m
  sync_reporters ((reporter, active) ∷ r) m = sync_reporters r (
      if same_bool active (or_false (lookup reporter m.last))
      then m
      else written_status reporter active (set_reporter_status reporter active m.store) m)

  -- The loop of `GetValidators`, with the validators whose index has to be asked for.
  unfoldable pub sync_validators :
      {Index : Type 0}
      → Map Text Index
      → List (Text × Text)
      → Synced Text R.Store
      → Synced Text R.Store × List Text
  unfolding set_validator_status
  sync_validators indexes [] m = (m, [])
  sync_validators indexes ((validator, status) ∷ r) m =
      let skipped = sync_validators indexes r m in
      let (m', asked) =
        sync_validators indexes r
          (written_status validator status (set_validator_status validator status m.store) m) in
      if text_eq status (or_empty_text (lookup validator m.last))
      then skipped
      else (m', elim (lookup validator indexes) [ some _ ↦ asked | none ↦ validator ∷ asked ])

  -- `BuilderStatus`: after an error other than a missing field, the empty answer is parsed.
  unfoldable pub builder_status : Text → R.Store → Result Bool
  unfolding parse_bool
  builder_status builder s = elim (R.hget key_builder_status builder s) [
    | ok t ↦ parse_bool t
    | err nil_reply ↦ ok false
    | err failed ↦ parse_bool []
  ]

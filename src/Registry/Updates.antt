-- ===== src/Registry/Updates.antt =====
-- The three updates as a whole (utils/relayUtils.go): what the pool gives goes to Redis, where it has
-- changed, and to the database. An error of the database is logged and no more.
pub mod Agreed
pub mod Restart
pub mod Crash
use proof_relay.Base.{ℕ, length, Bool, Option, none, some, List, [], ◌∷◌}
use proof_relay.Text.{Text}
use proof_relay.Map.{Map}
use proof_relay.Redis.{Redis}
use proof_relay.Beacon.{Reply, answer, failure}
use proof_relay.Database.{BuilderInterface, Reporter, Validator, Database, Postgres}
use proof_relay.Database.Write.{put_builders, put_reporters, put_validators}
use proof_relay.Registry.{Synced, sync_builders, sync_reporters, sync_validators}
use proof_relay.Registry.Chunks.{Chunked, chunked, chunk_slice}
use proof_relay.Registry.Pool.{Builders, listed, refused, panicked}

-- A panic of a goroutine that nothing recovers ends the program.
pub data Updated (S : Type 0) : Type 0 where
  updated : S → Updated S
  crashed : Updated S

abbrev pub builder_statuses : List BuilderInterface → List (Text × Bool)
builder_statuses [] = []
builder_statuses (b ∷ bs) = (b.builder_pubkey, b.status) ∷ builder_statuses bs

abbrev pub reporter_statuses : List Reporter → List (Text × Bool)
reporter_statuses [] = []
reporter_statuses (r ∷ rs) = (r.reporter_pubkey, r.active) ∷ reporter_statuses rs

abbrev pub validator_statuses : List Validator → List (Text × Text)
validator_statuses [] = []
validator_statuses (v ∷ vs) = (v.validator_pubkey, v.status) ∷ validator_statuses vs

module _ (R : Redis) where
  -- The map of what was seen last with the store, and the database.
  abbrev pub Shared : Type 0 → Type 0
  Shared Status = Synced Status R.Store × Database

  -- `GetBuilders`
  unfoldable pub update_builders : Builders → Shared Bool → Updated (Shared Bool)
  unfolding sync_builders put_builders
  update_builders (refused _) s = updated s
  update_builders panicked s = crashed
  update_builders (listed builders) (m, db) =
      updated (sync_builders R (builder_statuses builders) m, (put_builders builders db).1)

  -- `BuilderUpdate`, on what the pool gives one time after the other.
  unfoldable pub builder_update : List Builders → Shared Bool → Updated (Shared Bool)
  unfolding update_builders
  builder_update [] s = updated s
  builder_update (p ∷ ps) s = elim (update_builders p s) [
    | crashed ↦ crashed
    | updated t ↦ builder_update ps t
  ]

  -- `GetReporters`
  unfoldable pub update_reporters : Reply (List Reporter) → Shared Bool → Shared Bool
  unfolding sync_reporters put_reporters
  update_reporters (failure _) s = s
  update_reporters (answer reporters) (m, db) =
      (sync_reporters R (reporter_statuses reporters) m, (put_reporters reporters db).1)

  -- `ReporterUpdate`
  unfoldable pub reporter_update : List (Reply (List Reporter)) → Shared Bool → Shared Bool
  unfolding update_reporters
  reporter_update [] s = s
  reporter_update (p ∷ ps) s = reporter_update ps (update_reporters p s)

  -- `GetValidators`. The second component is the groups of validators whose indexes `ValidatorIndex`
  -- asks for in the background.
  unfoldable pub update_validators :
      Postgres → Map Text ℕ → Reply (List Validator) → Shared Text → Shared Text × Chunked Text
  unfolding sync_validators chunk_slice put_validators
  update_validators P indexes (failure _) s = (s, chunked [])
  update_validators P indexes (answer validators) (m, db) =
      let (m', asked) = sync_validators R indexes (validator_statuses validators) m in
      ((m', (put_validators P validators db).1), chunk_slice (length asked) asked 10)

  -- `ProposerUpdate`, on the indexes that are known and on what the pool gives, one time after the other,
  -- with the groups that are asked for.
  unfoldable pub proposer_update :
      Postgres
      → List (Map Text ℕ × Reply (List Validator))
      → Shared Text
      → Shared Text × List (Chunked Text)
  unfolding update_validators
  proposer_update P [] s = (s, [])
  proposer_update P ((indexes, validators) ∷ l) s =
      let (t, asked) = update_validators P indexes validators s in
      let (u, later) = proposer_update P l t in (u, asked ∷ later)

-- ===== src/Tests/Updates.antt =====
-- The updates from the registry on concrete lists.
use proof_relay.Base.{◌≡◌, refl, Bool, true, false, none, some, List, [], ◌∷◌, ok, inl, inr}
use proof_relay.Text.{Text, codes, text_eq}
use proof_relay.Text.Decimal.{pos, parse_ℤ}
use proof_relay.Map.{lookup, insert}
use proof_relay.Redis.{new_redis_interface}
use proof_relay.Memory.{Memory, memory, memory_laws, hash_at}
use proof_relay.Beacon.{answer}
use proof_relay.Database.{BuilderInterface, Database, done, execute}
use proof_relay.Database.Write.{put_builders, put_each, upsert_builder}
use proof_relay.Registry.{Synced, set_builder_status, sync_builders, builder_status, parse_bool}
use proof_relay.Registry.Sync.{Agrees, final_status}
use proof_relay.Registry.Pool.{Builder, get_builders, listed}
use proof_relay.Registry.Updates.{
  updated, crashed, builder_statuses, update_builders, builder_update,
}
use proof_relay.Registry.Updates.Restart.{started, restart_forgets}
use proof_relay.Registry.Updates.Agreed.{row_status, last_status, builders_agree}
use proof_relay.Registry.Updates.Crash.{unreadable_balance_crashes}
use proof_relay.Tests.Fixture.{empty_store}
use proof_relay.Tests.Site.{nothing_stored}

abbrev alice : Text
alice = codes "0xa1"

-- Alice was active when the relay stopped, and is not any more.
abbrev kept_store : Memory
kept_store = (set_builder_status memory alice true empty_store).1

abbrev emptied : Memory
emptied = (new_redis_interface memory (ok tt) (ok tt) kept_store).1

restart_opened : (new_redis_interface memory (ok tt) (ok tt) kept_store).0 ≡ ok tt
unfolding new_redis_interface set_builder_status
restart_opened = refl

restart_clean : (sync_builders memory ((alice, false) ∷ []) (started emptied)).errors ≡ []
unfolding sync_builders lookup insert text_eq
restart_clean = refl

restart_status :
    builder_status memory alice (sync_builders memory ((alice, false) ∷ []) (started emptied)).store
    ≡ ok false
unfolding sync_builders set_builder_status builder_status new_redis_interface lookup insert text_eq
    hash_at parse_bool
restart_status = refl

restart_forgets_example : false ≡ final_status memory memory_laws alice ((alice, false) ∷ []) false
restart_forgets_example =
    restart_forgets memory memory_laws (ok tt) (ok tt) kept_store alice ((alice, false) ∷ []) false
      restart_opened restart_clean restart_status

abbrev interfaces : List BuilderInterface
interfaces =
    record { builder_pubkey = codes "0xb2"; balance_staked = codes "3"; status = false }
    ∷ record { builder_pubkey = alice; balance_staked = codes "12"; status = true }
    ∷ []

abbrev fresh : Synced Bool Memory
fresh = started empty_store

fresh-Agrees : Agrees memory memory_laws fresh alice
unfolding hash_at lookup
fresh-Agrees = inl (refl, refl)

fresh_clean : (sync_builders memory (builder_statuses interfaces) fresh).errors ≡ []
unfolding sync_builders lookup insert text_eq
fresh_clean = refl

all_put : (put_builders interfaces nothing_stored).0 ≡ done
unfolding put_builders put_each upsert_builder execute lookup insert text_eq
all_put = refl

alice_listed : last_status alice (builder_statuses interfaces) none ≡ some true
unfolding text_eq
alice_listed = refl

fresh_read :
    builder_status memory alice (sync_builders memory (builder_statuses interfaces) fresh).store
    ≡ ok true
unfolding builder_status sync_builders set_builder_status lookup insert text_eq hash_at parse_bool
fresh_read = refl

builders_agree_example :
    (m' : Synced Bool Memory) × (db' : Database) × (update_builders memory
        (listed interfaces)
        (fresh, nothing_stored)
      ≡ updated (m', db'))
    × (row_status alice db'.tables ≡ some true)
    × (builder_status memory alice m'.store ≡ ok true)
builders_agree_example =
    builders_agree memory memory_laws alice interfaces fresh nothing_stored true true fresh-Agrees
      fresh_clean all_put alice_listed fresh_read

stake_read : parse_ℤ (codes "10") ≡ some (pos 10)
unfolding parse_ℤ
stake_read = refl

unreadable : parse_ℤ (codes "?") ≡ none
unfolding parse_ℤ
unreadable = refl

abbrev pool : List Builder
pool =
    record { builder_pubkey = alice; balance_staked = codes "12" }
    ∷ record { builder_pubkey = codes "0xb2"; balance_staked = codes "?" }
    ∷ []

unreadable_balance_crashes_example :
    builder_update memory
      (get_builders (answer pool) (answer (codes "10")) ∷ [])
      (fresh, nothing_stored)
    ≡ crashed
unreadable_balance_crashes_example =
    unreadable_balance_crashes memory pool (codes "10") (pos 10) [] (fresh, nothing_stored)
      stake_read (inr (inl unreadable))

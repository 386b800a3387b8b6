-- ===== src/Tests/Registry.antt =====
-- The statuses, the chunks and the ratings on concrete lists.
use proof_relay.Base.{◌≡◌, refl, Bool, true, false, some, List, [], ◌∷◌, arith, ok, inl}
use proof_relay.Text.{Text, codes, text_eq}
use proof_relay.Text.Decimal.{pos, parse_ℤ}
use proof_relay.Map.{lookup, insert, text_key}
use proof_relay.Memory.{Memory, memory, memory_laws, hash_at}
use proof_relay.Beacon.{answer}
use proof_relay.Registry.{Synced, sync_builders, builder_status, or_false, parse_bool}
use proof_relay.Registry.Sync.{Agrees, final_status, builders_in_step}
use proof_relay.Registry.Chunks.{chunk_slice, IsChunking, chunk_slice_lem}
use proof_relay.Registry.Pool.{Builder, get_builders, Rates, get_builders_lem}
use proof_relay.Tests.Fixture.{empty_store}

abbrev alice : Text
alice = codes "0xa1"

abbrev bob : Text
bob = codes "0xb2"

abbrev fresh : Synced Bool Memory
fresh = record { last = []; store = empty_store; errors = [] }

abbrev statuses : List (Text × Bool)
statuses = (alice, true) ∷ (bob, false) ∷ (alice, false) ∷ (alice, true) ∷ []

fresh-Agrees : Agrees memory memory_laws fresh alice
unfolding hash_at lookup
fresh-Agrees = inl (refl, refl)

sync_runs : (sync_builders memory statuses fresh).errors ≡ []
unfolding sync_builders lookup insert text_eq
sync_runs = refl

status_read : builder_status memory alice (sync_builders memory statuses fresh).store ≡ ok true
unfolding builder_status sync_builders lookup insert text_eq hash_at parse_bool
status_read = refl

builders_in_step_example :
    (true ≡ final_status memory memory_laws alice statuses (or_false (lookup alice fresh.last)))
    × Agrees memory memory_laws (sync_builders memory statuses fresh) alice
builders_in_step_example =
    builders_in_step memory memory_laws alice statuses fresh true fresh-Agrees sync_runs status_read

chunk_slice_lem_example :
    IsChunking 2 (alice ∷ bob ∷ alice ∷ []) (chunk_slice 3 (alice ∷ bob ∷ alice ∷ []) 2)
chunk_slice_lem_example = chunk_slice_lem 3 (alice ∷ bob ∷ alice ∷ []) 2 (omega arith) (omega arith)

abbrev pool : List Builder
pool =
    record { builder_pubkey = alice; balance_staked = codes "12" }
    ∷ record { builder_pubkey = bob; balance_staked = codes "7" }
    ∷ []

stake_read : parse_ℤ (codes "10") ≡ some (pos 10)
unfolding parse_ℤ
stake_read = refl

get_builders_run : Rates (pos 10) pool (get_builders (answer pool) (answer (codes "10")))
get_builders_run = get_builders_lem pool (codes "10") (pos 10) stake_read

-- ===== src/Registry/Updates/Restart.antt =====
-- The start of the relay and the first update of the builders: `NewRelayAPI` (relay/relay.go) opens Redis
-- with `NewRedisInterface` (redisPackage/redis.go), which empties it, and then makes the maps of the
-- statuses that were seen last, which are empty too (`NewRelayUtils` of utils/relayUtils.go).
use proof_relay.Base.{◌≡◌, refl, none, Bool, false, List, [], Result, ok, err, inl}
use proof_relay.Text.{Text}
use proof_relay.Map.{lookup}
use proof_relay.Redis.{Redis, RedisLaws, new_redis_interface}
use proof_relay.Registry.{key_builder_status, Synced, sync_builders, builder_status}
use proof_relay.Registry.Sync.{Agrees, final_status, builders_in_step}

-- The maps of `NewRelayUtils`, over the Redis that `NewRedisInterface` leaves.
abbrev pub started : {S : Type 0} → S → Synced Bool S
started s = record { last = []; store = s; errors = [] }

module _ (R : Redis) (laws : RedisLaws R) where
  -- A start that returns no error has emptied Redis.
  new_redis_interface-hash :
      (parsed pong : Result (Unit {0})) (s : R.Store) (k f : Text)
      → (new_redis_interface R parsed pong s).0 ≡ ok tt
      → R.hash (new_redis_interface R parsed pong s).1 k f ≡ none
  unfolding new_redis_interface
  new_redis_interface-hash (err e) pong s k f opened = absurd (cc opened)
  new_redis_interface-hash (ok _) (err e) s k f opened = absurd (cc opened)
  new_redis_interface-hash (ok _) (ok _) s k f opened = laws.flush_hash s opened k f

  -- Whatever Redis held before, and whoever was active in it: after a start whose `NewRedisInterface`
  -- returns no error, and a run of the loop of `GetBuilders` that logs none, what `BuilderStatus` returns
  -- for a builder is the status of its last entry in the registry's list, and `false` if the list has no
  -- entry for it.
  pub restart_forgets :
      (parsed pong : Result (Unit {0})) (s : R.Store) (b : Text) (l : List (Text × Bool)) (v : Bool)
      → (new_redis_interface R parsed pong s).0 ≡ ok tt
      → (sync_builders R l (started (new_redis_interface R parsed pong s).1)).errors ≡ []
      → builder_status R b
          (sync_builders R l (started (new_redis_interface R parsed pong s).1)).store
        ≡ ok v
      → v ≡ final_status R laws b l false
  unfolding lookup
  restart_forgets parsed pong s b l v opened clean status =
      let m = started (new_redis_interface R parsed pong s).1 in
      let agreed : Agrees R laws m b =
        inl (new_redis_interface-hash parsed pong s key_builder_status b opened, refl) in
      (builders_in_step R laws b l m v agreed clean status).0

-- ===== src/Redis.antt =====
-- The Redis client that the relay calls (`go-redis`, not part of the repository) as an interface,
-- with what its documentation promises, and `redisPackage/redis.go` over it.
use proof_relay.Base.{
  ℕ, ◌<◌, ◌≡◌, Bool, true, false, ◌&&◌, Option, none, some, List, [], ◌∷◌, Result, ok, err,
  nil_reply, Action, ◌>>=◌, ◌>>◌, if◌then◌else◌,
}
use proof_relay.Text.{Text, text_eq}

-- Each command may fail. `redis.Nil` is the error `nil_reply`.
pub record Redis : Type 1 where
  pub Store : Type 0
  -- whether the next command reaches the server, and what it holds under a key
  pub up : Store → Bool
  pub hash : Store → Text → Text → Option Text
  pub string : Store → Text → Option Text
  pub hget : Text → Text → Store → Result Text
  pub hget_all : Text → Store → Result (List (Text × Text))
  pub get : Text → Store → Result Text
  pub hset : Text → Text → Text → Store → Result (Unit {0}) × Store
  pub set : Text → Text → ℕ → Store → Result (Unit {0}) × Store
  pub expire : Text → ℕ → Store → Result (Unit {0}) × Store
  pub flush_all : Store → Result (Unit {0}) × Store

-- The value at a field in the reply of `HGETALL`.
unfoldable pub field_value : Text → List (Text × Text) → Option Text
field_value f [] = none
field_value f ((g, v) ∷ r) = if text_eq g f then some v else field_value f r

-- No field is listed twice.
abbrev pub Distinct : List (Text × Text) → Type 0
Distinct [] = Unit
Distinct ((f, v) ∷ r) = (field_value f r ≡ none) × Distinct r

-- What the commands do with the contents. Nothing is said of the contents after a command that failed.
pub record RedisLaws (R : Redis) : Type 0 where
  pub hget_sound : (k f v : Text) (s : R.Store) → R.hget k f s ≡ ok v → R.hash s k f ≡ some v
  pub hget_nil : (k f : Text) (s : R.Store) → R.hget k f s ≡ err nil_reply → R.hash s k f ≡ none
  pub hget_some :
      (k f v : Text) (s : R.Store) → R.up s ≡ true → R.hash s k f ≡ some v → R.hget k f s ≡ ok v
  pub hget_all_sound :
      (k : Text) (kvs : List (Text × Text)) (s : R.Store)
      → R.hget_all k s ≡ ok kvs
      → (f : Text) → field_value f kvs ≡ R.hash s k f
  pub hget_all_distinct :
      (k : Text) (kvs : List (Text × Text)) (s : R.Store) → R.hget_all k s ≡ ok kvs → Distinct kvs
  pub get_sound : (k v : Text) (s : R.Store) → R.get k s ≡ ok v → R.string s k ≡ some v
  pub get_some :
      (k v : Text) (s : R.Store) → R.up s ≡ true → R.string s k ≡ some v → R.get k s ≡ ok v
  pub hset_hash :
      (k f v : Text) (s : R.Store)
      → (R.hset k f v s).0 ≡ ok tt
      → (j g : Text)
      → R.hash (R.hset k f v s).1 j g
        ≡ (if text_eq k j && text_eq f g then some v else R.hash s j g)
  pub hset_string :
      (k f v : Text) (s : R.Store)
      → (R.hset k f v s).0 ≡ ok tt
      → (j : Text) → R.string (R.hset k f v s).1 j ≡ R.string s j
  pub set_string :
      (k v : Text) (ttl : ℕ) (s : R.Store)
      → (R.set k v ttl s).0 ≡ ok tt
      → (j : Text) → R.string (R.set k v ttl s).1 j ≡ (if text_eq k j then some v else R.string s j)
  pub set_hash :
      (k v : Text) (ttl : ℕ) (s : R.Store)
      → (R.set k v ttl s).0 ≡ ok tt
      → (j f : Text) → text_eq k j ≡ false
      → R.hash (R.set k v ttl s).1 j f ≡ R.hash s j f
  pub expire_hash :
      (k : Text) (ttl : ℕ) (s : R.Store)
      → 0 < ttl
      → (R.expire k ttl s).0 ≡ ok tt
      → (j f : Text) → R.hash (R.expire k ttl s).1 j f ≡ R.hash s j f
  pub expire_string :
      (k : Text) (ttl : ℕ) (s : R.Store)
      → 0 < ttl
      → (R.expire k ttl s).0 ≡ ok tt
      → (j : Text) → R.string (R.expire k ttl s).1 j ≡ R.string s j
  pub flush_hash :
      (s : R.Store) → (R.flush_all s).0 ≡ ok tt → (k f : Text) → R.hash (R.flush_all s).1 k f ≡ none
  pub flush_string :
      (s : R.Store) → (R.flush_all s).0 ≡ ok tt → (k : Text) → R.string (R.flush_all s).1 k ≡ none

-- `NewRedisInterface`: the URL is read, the server is asked for a PONG, and then all that Redis holds is
-- deleted.
unfoldable pub new_redis_interface :
    (R : Redis) → Result (Unit {0}) → Result (Unit {0}) → Action R.Store (Unit {0})
new_redis_interface R parsed pong = do (λ s. (parsed, s)); (λ s. (pong, s)); R.flush_all

-- `HSetObj`: the value arrives as what `json.Marshal` made of it.
unfoldable pub hset_obj : (R : Redis) → Text → Text → Result Text → ℕ → Action R.Store (Unit {0})
hset_obj R key f marshalled ttl = do v ← (λ s. (marshalled, s)); R.hset key f v; R.expire key ttl

-- `GetObj`, with `json.Unmarshal` as its argument.
unfoldable pub get_obj : {A : Type 0} (R : Redis) → Text → (Text → Result A) → R.Store → Result A
get_obj R key unmarshal s = elim (R.get key s) [ ok v ↦ unmarshal v | err e ↦ err e ]

-- ===== src/Cache.antt =====
-- internal/infra/cache/cache.go: values with a lifetime under a prefixed key. The Redis server is a
-- parameter.

use be_pawfund.Prelude.{
  ◌≡◌, ◌≢◌, ◌+◌, ◌<◌, Bool, true, Option, none, some, ◌++◌, Result, ok, err, if◌then◌else◌,
}
use be_pawfund.Prelude.Int.{ℤ, pos, int_lt, pos_part}
use be_pawfund.Text.{Text, codes, is_empty, trim_space}
use be_pawfund.Domain.{Instant}

-- What a reading call of go-redis answers: a value, redis.Nil, or another error.
pub data Fetched : Type 0 where
  value : Text → Fetched
  nil broken : Fetched

-- The calls of go-redis that the program makes, over the states of the server, with their documented
-- behaviour. `stored` tells the value of a key at an instant; a failed call may have taken effect.
pub record Redis : Type 1 where
  pub Store : Type 0
  pub stored : Store → Text → Instant → Option Text
  pub get : Instant → Text → Store → Fetched
  -- key, value, lifetime
  pub set : Instant → Text → Text → Instant → Store → Bool × Store
  pub del : Instant → Text → Store → Bool × Store
  pub get_del : Instant → Text → Store → Fetched × Store
  -- SET creates at most the given value, for its lifetime; a success does.
  pub set-stored :
      (now : Instant) (key v : Text) (ttl : Instant) (s : Store)
      → (set now key v ttl s).0 ≡ true
      → (t : Instant) → t < now + ttl
      → stored (set now key v ttl s).1 key t ≡ some v
  pub set-same :
      (now : Instant) (key v : Text) (ttl : Instant) (s : Store) (k : Text) (t : Instant)
      → k ≢ key
      → stored (set now key v ttl s).1 k t ≡ stored s k t
  -- GETDEL answers the value that is there, and a success removes it.
  pub get_del-stored :
      (now : Instant) (key v : Text) (s : Store)
      → (get_del now key s).0 ≡ value v
      → stored s key now ≡ some v
  pub get_del-answers :
      (now : Instant) (key v : Text) (s : Store)
      → stored s key now ≡ some v
      → (get_del now key s).0 ≢ broken
      → (get_del now key s).0 ≡ value v
  pub get_del-gone :
      (now : Instant) (key v : Text) (s : Store) (t : Instant)
      → (get_del now key s).0 ≡ value v
      → stored (get_del now key s).1 key t ≡ none
  pub get_del-same :
      (now : Instant) (key : Text) (s : Store) (k : Text) (t : Instant)
      → k ≢ key
      → stored (get_del now key s).1 k t ≡ stored s k t
  pub get_del-nothing_new :
      (now : Instant) (key : Text) (s : Store) (k v : Text) (t : Instant)
      → stored (get_del now key s).1 k t ≡ some v
      → stored s k t ≡ some v

-- ErrMiss, or another error.
pub data CacheError : Type 0 where
  miss failed : CacheError

-- CacheClient.buildKey; the prefix is trimmed when the client is opened.
unfoldable pub build_key : Text → Text → Option Text
build_key prefix key =
    let trimmed = trim_space key in
    if is_empty trimmed
    then none
    else if is_empty prefix
    then some trimmed
    else some (prefix ++ codes ":" ++ trimmed)

module _ (redis : Redis) where
  open redis use {Store}

  abbrev pub fetched : Fetched → Result CacheError Text
  fetched (value v) = ok v
  fetched nil = err miss
  fetched broken = err failed

  abbrev pub get_at : Instant → Option Text → Store → Result CacheError Text
  get_at now none store = err failed
  get_at now (some key) store = fetched (redis.get now key store)

  -- CacheClient.Get
  unfoldable pub get : Text → Instant → Text → Store → Result CacheError Text
  get prefix now key store = get_at now (build_key prefix key) store

  abbrev pub written : Bool × Store → Result CacheError (Unit {0}) × Store
  written (works, store) = (if works then ok tt else err failed, store)

  abbrev pub set_at :
      Instant → Option Text → Text → ℤ → Store → Result CacheError (Unit {0}) × Store
  set_at now none v ttl store = (err failed, store)
  set_at now (some key) v ttl store =
      if int_lt (pos 0) ttl
      then written (redis.set now key v (pos_part ttl) store)
      else (err failed, store)

  -- CacheClient.Set
  unfoldable pub set :
      Text → Instant → Text → Text → ℤ → Store → Result CacheError (Unit {0}) × Store
  set prefix now key v ttl store = set_at now (build_key prefix key) v ttl store

  abbrev pub delete_at : Instant → Option Text → Store → Result CacheError (Unit {0}) × Store
  delete_at now none store = (err failed, store)
  delete_at now (some key) store = written (redis.del now key store)

  -- CacheClient.Delete
  unfoldable pub delete : Text → Instant → Text → Store → Result CacheError (Unit {0}) × Store
  delete prefix now key store = delete_at now (build_key prefix key) store

  abbrev pub taken : Fetched × Store → Result CacheError Text × Store
  taken (answer, store) = (fetched answer, store)

  abbrev pub get_delete_at : Instant → Option Text → Store → Result CacheError Text × Store
  get_delete_at now none store = (err failed, store)
  get_delete_at now (some key) store = taken (redis.get_del now key store)

  -- CacheClient.GetDelete
  unfoldable pub get_delete : Text → Instant → Text → Store → Result CacheError Text × Store
  get_delete prefix now key store = get_delete_at now (build_key prefix key) store

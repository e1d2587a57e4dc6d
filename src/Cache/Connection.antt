-- ===== src/Cache/Connection.antt =====
-- The connection that the whole process shares (packages/shared/src/cache/redis-client.ts). Whether
-- the library connects, quits and answers a ping is a parameter.
use banking_platform.Base.{ℕ, ◌≡◌, refl, String, Bool, true, false, Option, none, some}

pub record RedisConfig : Type 0 where
  pub host : String
  pub port : ℕ
  pub password : Option String
  pub db : Option ℕ

-- What `createClient` is given.
pub record ClientOptions : Type 0 where
  pub host : String
  pub port : ℕ
  pub password : Option String
  pub database : ℕ

-- A client, and whether `connect` succeeded on it.
pub record RedisClient : Type 0 where
  pub options : ClientOptions
  pub is_connected : Bool

abbrev pub number_or_zero : Option ℕ → ℕ
number_or_zero none = 0
number_or_zero (some n) = n

abbrev pub options_of : RedisConfig → ClientOptions
options_of config = record {
  host = config.host;
  port = config.port;
  password = config.password;
  database = number_or_zero config.db;
}

-- An answer, `none` if the call throws, and the variable `redisClient` after it.
abbrev pub Call : Type 0 → Type 0
Call A = Option A × Option RedisClient

-- `connect` on the new client; the variable is set before it.
abbrev pub connected : Bool → ClientOptions → Call RedisClient
connected true options =
    let client : RedisClient = record { options = options; is_connected = true } in
    (some client, some client)
connected false options = (none, some (record { options = options; is_connected = false }))

unfoldable pub init_redis : (connects : Bool) → RedisConfig → Option RedisClient → Call RedisClient
init_redis connects config (some client) = (some client, some client)
init_redis connects config none = connected connects (options_of config)

unfoldable pub get_redis_client : Option RedisClient → Call RedisClient
get_redis_client none = (none, none)
get_redis_client (some client) = (some client, some client)

unfoldable pub close_redis : (quits : Bool) → Option RedisClient → Call (Unit {0})
close_redis quits none = (some tt, none)
close_redis true (some client) = (some tt, none)
close_redis false (some client) = (none, some client)

unfoldable pub redis_health_check : (pings : Bool) → Option RedisClient → Bool
redis_health_check pings none = false
redis_health_check pings (some client) = pings

-- The first `initRedis` decides: if it connects, every later call and `getRedisClient` give its client
-- until `closeRedis`, after which the next call connects anew; if it fails, every later call and
-- `getRedisClient` give the client that is not connected, without another try.
init_redis-decides :
    (connects connects' : Bool) (config config' : RedisConfig)
    → let client : RedisClient = record { options = options_of config; is_connected = connects } in
      let after = (init_redis connects config none).1 in
      (init_redis connects' config' after ≡ (some client, some client))
      × (get_redis_client after ≡ (some client, some client))
      × (init_redis connects' config' (close_redis true after).1
          ≡ init_redis connects' config' none)
unfolding init_redis get_redis_client close_redis
init_redis-decides true connects' config config' = (refl, refl, refl)
init_redis-decides false connects' config config' = (refl, refl, refl)

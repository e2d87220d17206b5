-- ===== src/Relay/Open.antt =====
-- internal/relay/redis_store.go: `NewRedisStore`.
use dia.Prelude.{ℕ, suc, ◌-◌, ◌*◌, ◌%◌, ◌^◌, Bool, Option, none, some, Bytes, if◌then◌else◌}
use dia.Controller.State.{ℤ, pos, negsuc}

-- The options of the connection that are given; the user name is none.
pub record StoreConfig : Type 0 where
  pub redis_addr : Bytes
  pub redis_password : Bytes
  pub redis_db : ℤ
  pub message_ttl : ℤ

-- A number of seconds as a Duration, a 64-bit pattern.
abbrev pub seconds_of : ℤ → ℕ
seconds_of (pos n) = (n * 1000000000) % 2 ^ 64
seconds_of (negsuc n) = (2 ^ 64 - (suc n * 1000000000) % 2 ^ 64) % 2 ^ 64

-- `RedisStore`, without its client: the time to live of messages.
unfoldable pub new_redis_store : (Bytes → Bytes → ℤ → Bool) → StoreConfig → Option ℕ
new_redis_store ping cfg =
    if ping cfg.redis_addr cfg.redis_password cfg.redis_db
    then some (seconds_of cfg.message_ttl)
    else none

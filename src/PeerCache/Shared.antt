-- ===== src/PeerCache/Shared.antt =====
-- internal/peersessioncache/cache.go: the cache of the command line clients. A nil cache is `none`.
use dia.Prelude.{
  ℕ, Bool, true, false, not, ◌∷◌, ◌++◌, Option, none, some, Bytes, codes, is_empty, if◌then◌else◌,
}
use dia.Controller.State.{ℤ}
use dia.Relay.Store.{Reply, value, missing, broken}
use dia.PeerCache.{KeyStore, RedisOptions, Lookup, hit, miss, failed, trim_space}

-- `Options`
pub record Options : Type 0 where
  pub enabled : Bool
  pub addr : Bytes
  pub username : Bytes
  pub password : Bytes
  pub db : ℤ
  pub prefix : Bytes
  pub ttl : ℕ

-- `Cache`, without its client.
pub record Cache : Type 0 where
  pub prefix : Bytes
  pub ttl : ℕ

unfoldable pub read_reply : Reply Bytes → Lookup
read_reply (value blob) = if is_empty blob then miss else hit blob
read_reply missing = miss
read_reply broken = failed

module _ (redis : KeyStore) where
  open redis use {Db, ping, get_key, set_key}

  open_enabled : Options → Option (Option Cache)
  unfolding trim_space
  open_enabled opts =
      let addr = trim_space opts.addr in
      let trimmed = trim_space opts.prefix in
      let prefix = if is_empty trimmed then codes "denseid:dia:peer_session:v1" else trimmed in
      let options : RedisOptions = record {
        addr = addr;
        username = trim_space opts.username;
        password = opts.password;
        db = opts.db;
      } in
      if is_empty addr
      then none
      else if ping options
      then some (some (record { prefix = prefix; ttl = opts.ttl }))
      else none

  -- `New`; the outer `none` is an error.
  unfoldable pub new_cache : Options → Option (Option Cache)
  unfolding open_enabled
  new_cache opts = if not opts.enabled then some none else open_enabled opts

  unfoldable pub key : Cache → Bytes → Bytes → Bytes
  key c self_phone peer_phone =
      c.prefix ++ (b':' ∷ (trim_space self_phone ++ (b':' ∷ trim_space peer_phone)))

  unfoldable pub get : Option Cache → Bytes → Bytes → Db → Lookup
  unfolding read_reply key
  get none self_phone peer_phone db = miss
  get (some c) self_phone peer_phone db = read_reply (get_key (key c self_phone peer_phone) db)

  -- False is a returned error.
  unfoldable pub set : Option Cache → Bytes → Bytes → Bytes → Db → Bool × Db
  unfolding key
  set none self_phone peer_phone blob db = (true, db)
  set (some c) self_phone peer_phone blob db =
      if is_empty blob then (false, db) else set_key (key c self_phone peer_phone) blob c.ttl db

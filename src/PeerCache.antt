-- ===== src/PeerCache.antt =====
-- internal/sipcontroller/peer_session_cache.go, and its twin internal/peersessioncache/cache.go in the
-- child Shared: the peer sessions that are kept in Redis. Redis is a parameter. An int64 or a Duration
-- is its 64-bit pattern.
pub mod Shared
pub mod Keys
pub mod Find
pub mod Twin
pub mod Scan
pub mod Clear
mod Tests
use dia.Prelude.{
  ℕ, zero, suc, ◌+◌, ◌*◌, ◌%◌, ◌^◌, ◌≡◌, Bool, true, false, not, ◌&&◌, ◌||◌, List, [], ◌∷◌, ◌++◌,
  Option, none, some, Bytes, codes, is_empty, ltb, leb, ◌==◌, if◌then◌else◌,
}
use mathlib.Core.List.{reverse}
use dia.Relay.Store.{Reply, value, missing, broken}
use dia.Controller.State.{ℤ, pos, negsuc}

-- `strings.TrimSpace` on ASCII.
abbrev pub is_space : ℕ → Bool
is_space c = c == 32 || (leb 9 c && leb c 13)

unfoldable pub trim_left : Bytes → Bytes
trim_left [] = []
trim_left (c ∷ s) = if is_space c then trim_left s else c ∷ s

unfoldable pub trim_right : Bytes → Bytes
unfolding trim_left
trim_right s = reverse (trim_left (reverse s))

unfoldable pub trim_space : Bytes → Bytes
unfolding trim_left trim_right
trim_space s = trim_right (trim_left s)

-- `redis.Options`
pub record RedisOptions : Type 0 where
  pub addr : Bytes
  pub username : Bytes
  pub password : Bytes
  pub db : ℤ

-- The commands that the caches issue. `scan` answers keys and the next cursor; `none` is an error.
pub record KeyStore : Type 1 where
  pub Db : Type 0
  pub ping : RedisOptions → Bool
  pub get_key : Bytes → Db → Reply Bytes
  pub set_key : Bytes → Bytes → ℕ → Db → Bool × Db
  pub scan : ℕ → Bytes → ℕ → Db → Option (List Bytes × ℕ)
  pub del : List Bytes → Db → Option ℕ × Db

-- The fields of `Config` that the cache reads.
pub record CacheConfig : Type 0 where
  pub cache_enabled : Bool
  pub redis_addr : Bytes
  pub redis_user : Bytes
  pub redis_pass : Bytes
  pub redis_db : ℤ
  pub redis_prefix : Bytes
  pub peer_session_ttl_seconds : ℤ

-- `peerSessionCache`, without its client.
pub record PeerSessionCache : Type 0 where
  pub enabled : Bool
  pub prefix : Bytes
  pub ttl : ℕ

-- What `Get` returns: a session, nothing, or an error.
pub data Lookup : Type 0 where
  hit : Bytes → Lookup
  miss failed : Lookup

abbrev pub default_prefix : Bytes
default_prefix = codes "denseid:dia:peer_session:v1"

unfoldable pub prefix_of : Bytes → Bytes
prefix_of prefix =
    let trimmed = trim_space prefix in if is_empty trimmed then default_prefix else trimmed

abbrev pub disabled : PeerSessionCache
disabled = record { enabled = false; prefix = []; ttl = 0 }

-- Seconds as a Duration; none is set unless they are positive.
unfoldable pub ttl_of : ℤ → ℕ
ttl_of (pos n) = (n * 1000000000) % 2 ^ 64
ttl_of (negsuc n) = 0

unfoldable pub found : Reply Bytes → Lookup
found (value blob) = if is_empty blob then miss else hit blob
found missing = miss
found broken = failed

-- How `ClearAll` ends, with the keys deleted so far.
pub data Cleared (Db : Type 0) : Type 0 where
  cleared : ℕ → Db → Cleared Db
  broke_off : ℕ → Db → Cleared Db

module _ (redis : KeyStore) where
  open redis use {Db, ping, get_key, set_key, scan, del}

  open_with : CacheConfig → Option PeerSessionCache
  unfolding prefix_of ttl_of trim_space
  open_with cfg =
      let addr = trim_space cfg.redis_addr in
      let options : RedisOptions = record {
        addr = addr;
        username = trim_space cfg.redis_user;
        password = cfg.redis_pass;
        db = cfg.redis_db;
      } in
      if is_empty addr
      then none
      else if ping options
      then some (record {
        enabled = true;
        prefix = prefix_of cfg.redis_prefix;
        ttl = ttl_of cfg.peer_session_ttl_seconds;
      })
      else none

  -- `newPeerSessionCache`; `none` is an error.
  unfoldable pub new_peer_session_cache : Option CacheConfig → Option PeerSessionCache
  unfolding open_with
  new_peer_session_cache none = some disabled
  new_peer_session_cache (some cfg) = if cfg.cache_enabled then open_with cfg else some disabled

  unfoldable pub key : PeerSessionCache → Bytes → Bytes → Bytes
  key c self_phone peer_phone =
      c.prefix ++ (b':' ∷ (trim_space self_phone ++ (b':' ∷ trim_space peer_phone)))

  unfoldable pub get : PeerSessionCache → Bytes → Bytes → Db → Lookup
  unfolding found key
  get c self_phone peer_phone db =
      if c.enabled then found (get_key (key c self_phone peer_phone) db) else miss

  -- False is a returned error.
  unfoldable pub set : PeerSessionCache → Bytes → Bytes → Bytes → Db → Bool × Db
  unfolding key
  set c self_phone peer_phone blob db =
      if not c.enabled
      then (true, db)
      else if is_empty blob
      then (false, db)
      else set_key (key c self_phone peer_phone) blob c.ttl db

  -- `DEL` of the keys that a scan answers, if there are any: how many went, or an error.
  unfoldable pub delete_found : List Bytes → Db → Option ℕ × Db
  delete_found [] db = (some 0, db)
  delete_found (k ∷ keys) db = del (k ∷ keys) db

  abbrev pub add_deleted : ℕ → (ℕ → Db → Option (Cleared Db)) → Option ℕ × Db → Option (Cleared Db)
  add_deleted deleted go (none, db) = some (broke_off deleted db)
  add_deleted deleted go (some n, db) = go ((deleted + n) % 2 ^ 64) db

  -- What follows a scan: its keys are deleted, and the loop goes on unless the cursor is 0.
  unfoldable pub after_scan :
      (ℕ → ℕ → Db → Option (Cleared Db)) → ℕ → Db → Option (List Bytes × ℕ) → Option (Cleared Db)
  unfolding delete_found
  after_scan loop deleted db none = some (broke_off deleted db)
  after_scan loop deleted db (some (keys, next)) =
      add_deleted deleted
        (λ total db'. if next == 0 then some (cleared total db') else loop next total db')
        (delete_found keys db)

  -- The loop of `ClearAll` from a cursor on; `none` means that the fuel ran out.
  unfoldable pub clear_from : Bytes → ℕ → ℕ → ℕ → Db → Option (Cleared Db)
  unfolding after_scan
  clear_from pattern_text zero cursor deleted db = none
  clear_from pattern_text (suc fuel) cursor deleted db =
      after_scan (clear_from pattern_text fuel) deleted db (scan cursor pattern_text 500 db)

  -- `ClearAll`
  unfoldable pub clear_all : ℕ → PeerSessionCache → Db → Option (Cleared Db)
  unfolding clear_from
  clear_all fuel c db =
      if c.enabled
      then clear_from (trim_space c.prefix ++ codes ":*") fuel 0 0 db
      else some (cleared 0 db)

  clear_opened : ℕ → Db → Option PeerSessionCache → Option (Cleared Db)
  clear_opened fuel db none = some (broke_off 0 db)
  clear_opened fuel db (some c) = clear_all fuel c db

  -- `ClearPeerSessionCache`
  unfoldable pub clear_peer_session_cache : ℕ → Option CacheConfig → Db → Option (Cleared Db)
  unfolding clear_opened new_peer_session_cache clear_all
  clear_peer_session_cache fuel cfg db = clear_opened fuel db (new_peer_session_cache cfg)

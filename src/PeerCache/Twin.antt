-- ===== src/PeerCache/Twin.antt =====
-- The two peer session caches behave alike.
use dia.Prelude.{
  ℕ, ◌≡◌, refl, inl, inr, Bool, true, false, Option, none, some, Bytes, Bool-cases, if◌then◌else◌,
}
use dia.PeerCache.{
  KeyStore, CacheConfig, PeerSessionCache, Lookup, found, new_peer_session_cache, ttl_of, prefix_of,
}
use dia.PeerCache
use dia.Relay.Store.{Reply, value, missing, broken}
use dia.PeerCache.Shared
use dia.PeerCache.Shared.{Options, Cache, read_reply, new_cache}

-- The options that a configuration's fields amount to.
abbrev pub options_of : CacheConfig → Options
options_of cfg = record {
  enabled = cfg.cache_enabled;
  addr = cfg.redis_addr;
  username = cfg.redis_user;
  password = cfg.redis_pass;
  db = cfg.redis_db;
  prefix = cfg.redis_prefix;
  ttl = ttl_of cfg.peer_session_ttl_seconds;
}

module _ (redis : KeyStore) (self_phone peer_phone blob : Bytes) (db : redis.Db) where
  -- Both are errors, or both are caches that find and store the same.
  abbrev pub AreAlike : Option PeerSessionCache → Option (Option Cache) → Type 0
  AreAlike none none = Unit
  AreAlike none (some d) = ⊥
  AreAlike (some c) none = ⊥
  AreAlike (some c) (some d) =
      (PeerCache.get redis c self_phone peer_phone db ≡ Shared.get redis d self_phone peer_phone db)
      × (PeerCache.set redis c self_phone peer_phone blob db
          ≡ Shared.set redis d self_phone peer_phone blob db)

  found-read_reply : (r : Reply Bytes) → found r ≡ read_reply r
  unfolding found read_reply
  found-read_reply (value b) = refl
  found-read_reply missing = refl
  found-read_reply broken = refl

  opened-AreAlike :
      (prefix : Bytes) (ttl : ℕ)
      → AreAlike
          (some (record { enabled = true; prefix = prefix; ttl = ttl }))
          (some (some (record { prefix = prefix; ttl = ttl })))
  unfolding PeerCache.get PeerCache.set PeerCache.key Shared.get Shared.set Shared.key
  opened-AreAlike prefix ttl = (found-read_reply _, refl)

  connected-AreAlike :
      (no_addr up : Bool) (prefix : Bytes) (ttl : ℕ)
      → AreAlike
          (if no_addr
            then none
            else if up
            then some (record { enabled = true; prefix = prefix; ttl = ttl })
            else none)
          (if no_addr
            then none
            else if up
            then some (some (record { prefix = prefix; ttl = ttl }))
            else none)
  connected-AreAlike true up prefix ttl = tt
  connected-AreAlike false true prefix ttl = opened-AreAlike prefix ttl
  connected-AreAlike false false prefix ttl = tt

  -- With the same settings, the controller's cache and that of the command line clients open or fail
  -- alike; and once open, they find the same for every pair of phones, and store the same.
  pub new_cache-AreAlike :
      (cfg : CacheConfig)
      → AreAlike (new_peer_session_cache redis (some cfg)) (new_cache redis (options_of cfg))
  unfolding new_peer_session_cache new_cache prefix_of PeerCache.get PeerCache.set Shared.get
      Shared.set
  new_cache-AreAlike cfg = elim (Bool-cases cfg.cache_enabled) [
    | inr off ↦ rw off (refl, refl)
    | inl on ↦ rw on (connected-AreAlike _ _ _ _)
  ]

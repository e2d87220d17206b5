-- ===== src/PeerCache/Find.antt =====
-- What the peer session cache finds after it has stored a session.
use dia.Prelude.{
  ℕ, ◌≡◌, refl, Bool, true, false, ◌&&◌, [], ◌∷◌, arith, Bytes, str_eq, if◌then◌else◌,
}
use dia.Relay.Store.{value}
use dia.PeerCache.{KeyStore, PeerSessionCache, Lookup, hit, miss, failed, trim_space, found, key}
use dia.PeerCache
use dia.PeerCache.Keys.{no_colon, str_eq-key}

-- What a Redis promises of a key before its time runs out.
pub record IsRedis (redis : KeyStore) : Type 0 where
  pub get_key-set_key :
      (k j v : Bytes) (ttl : ℕ) (db : redis.Db)
      → (redis.set_key k v ttl db).0 ≡ true
      → redis.get_key j (redis.set_key k v ttl db).1
        ≡ (if str_eq k j then value v else redis.get_key j db)

module _ (redis : KeyStore) (laws : IsRedis redis) (c : PeerSessionCache)
    (on : c.enabled ≡ true) where
  -- A session that was stored is found for the same pair of phones, spaces round them aside, until its
  -- time runs out; what is found for any other pair stays the same. The own phones have no colon, and
  -- a key's time has not run out.
  pub get-set :
      (s p t q blob : Bytes) (db : redis.Db)
      → no_colon (trim_space s) ≡ true
      → no_colon (trim_space t) ≡ true
      → (PeerCache.set redis c s p blob db).0 ≡ true
      → PeerCache.get redis c t q (PeerCache.set redis c s p blob db).1 ≡ (
          if str_eq (trim_space s) (trim_space t) && str_eq (trim_space p) (trim_space q)
          then hit blob
          else PeerCache.get redis c t q db)
  unfolding PeerCache.set PeerCache.get found
  get-set s p t q [] db clean_s clean_t ok = ground arith
  get-set s p t q (x ∷ blob) db clean_s clean_t ok =
      rw
        (
          on,
          laws.get_key-set_key (key redis c s p) (key redis c t q) (x ∷ blob) c.ttl db
              (rw on at ok),
          str_eq-key redis c s p t q clean_s clean_t,
        )
        (found_if (str_eq (trim_space s) (trim_space t) && str_eq (trim_space p) (trim_space q)))
    where
      found_if :
          (b : Bool)
          → found (if b then value (x ∷ blob) else redis.get_key (key redis c t q) db)
            ≡ (if b then hit (x ∷ blob) else found (redis.get_key (key redis c t q) db))
      found_if true = refl
      found_if false = refl

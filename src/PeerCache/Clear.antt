-- ===== src/PeerCache/Clear.antt =====
-- Clearing the peer session cache leaves no session behind.
use dia.Prelude.{
  ℕ, ◌<◌, ◌≡◌, refl, ◌∙◌, inl, inr, Bool, true, false, [], ◌∷◌, ◌++◌, Option, none, some, arith,
  Bytes, codes, Bool-cases, if◌then◌else◌,
}
use dia.PeerCache.{
  CacheConfig, new_peer_session_cache, KeyStore, PeerSessionCache, Lookup, hit, miss, failed,
  trim_space, found, key, Cleared, cleared, broke_off, add_deleted, after_scan, clear_from,
  clear_all, delete_found,
}
use dia.PeerCache
use dia.PeerCache.Keys.{new_peer_session_cache-trims}
use dia.PeerCache.Scan.{starts_with, is_plain, Scans, Clean, Clears, clear_from-Clears}

starts_with-append : (p x y : Bytes) → starts_with p x ≡ true → starts_with (y ++ p) (y ++ x) ≡ true
unfolding starts_with
starts_with-append p x [] h = h
starts_with-append p x (c ∷ y) h = ground (arith, starts_with-append p x y h)

one_colon : (x : Bytes) → starts_with (codes ":") (b':' ∷ x) ≡ true
unfolding starts_with
one_colon x = refl

module _ (redis : KeyStore) (laws : Scans redis) (c : PeerSessionCache) where
  -- No session is found any more, and a key of no such prefix is as it was.
  pub record Emptied (before after : redis.Db) : Type 0 where
    pub no_session : (s p : Bytes) → PeerCache.get redis c s p after ≡ miss
    pub others :
        (k : Bytes)
        → starts_with (c.prefix ++ codes ":") k ≡ false
        → redis.get_key k after ≡ redis.get_key k before

  abbrev pub Empties : redis.Db → Option (Cleared redis.Db) → Type 0
  Empties db none = ⊥
  Empties db (some (broke_off n db')) = Unit
  Empties db (some (cleared n db')) = Emptied db db'

  abbrev pattern_of : Bytes
  pattern_of = c.prefix ++ codes ":*"

  Clean-Emptied :
      (db db' : redis.Db)
      → is_plain c.prefix ≡ true
      → Clean redis laws pattern_of db db'
      → Emptied db db'
  unfolding PeerCache.get found PeerCache.key
  Clean-Emptied db db' plain clean = record {
    no_session = λ s p.
        let listed =
          laws.matches-plain c.prefix (key redis c s p) plain
          ∙ starts_with-append (codes ":") (b':' ∷ (trim_space s ++ (b':' ∷ trim_space p))) c.prefix
              (one_colon _) in
        let gone = clean.gone (key redis c s p) listed tt in
        elim (Bool-cases c.enabled) [ inl on ↦ rw (on, gone) refl | inr off ↦ rw off refl ];
    others = λ k other. clean.kept k (laws.matches-plain c.prefix k plain ∙ other);
  }

  Clears-Empties :
      (db : redis.Db) (r : Option (Cleared redis.Db))
      → is_plain c.prefix ≡ true
      → Clears redis laws pattern_of db r
      → Empties db r
  Clears-Empties db none plain h = h
  Clears-Empties db (some (broke_off n db')) plain h = tt
  Clears-Empties db (some (cleared n db')) plain h = Clean-Emptied db db' plain h

  -- On a cache that was opened with a prefix free of pattern characters, `ClearAll` comes to an end,
  -- within as many rounds as Redis's cursors allow; unless a command fails, the cache then finds no
  -- session, for any phones, and the keys that do not begin with the prefix are as they were.
  pub clear_all-Empties :
      (cfg : CacheConfig) (fuel : ℕ) (db : redis.Db)
      → new_peer_session_cache redis (some cfg) ≡ some c
      → is_plain c.prefix ≡ true
      → laws.last < fuel
      → Empties db (clear_all redis fuel c db)
  unfolding clear_all PeerCache.get
  clear_all-Empties cfg fuel db opened plain enough = enabled_or_not _ c.enabled refl (
      rw (new_peer_session_cache-trims redis cfg c opened) (
        Clears-Empties db (clear_from redis pattern_of fuel 0 0 db) plain (
          clear_from-Clears redis laws pattern_of db fuel 0 0 db
            (let b = laws.begins in omega arith) (let b = laws.begins in omega arith)
            (record {
              gone = λ k m p. absurd (let b = laws.begins in omega arith);
              kept = λ k m. refl;
            }))))
    where
      enabled_or_not :
          (r : Option (Cleared redis.Db)) (b : Bool)
          → c.enabled ≡ b
          → Empties db r
          → Empties db (if b then r else some (cleared 0 db))
      enabled_or_not r true on h = h
      enabled_or_not r false off h = record {
        no_session = λ s p. rw off refl;
        others = λ k other. refl;
      }

-- ===== src/PeerCache/Tests.antt =====
-- The peer session cache's theorems over a store that is a list of keys with their values.
use dia.Prelude.{
  ◌≡◌, refl, ap, ◌⊎◌, inl, inr, Bool, true, false, ◌||◌, List, [], ◌∷◌, ◌++◌, Option, none, some,
  arith, Bytes, codes, str_eq, str_eq_iff, str_eq_refl, Bool-cases, if◌then◌else◌,
}
use dia.CallManager.{Entries, lookup, delete, store}
use dia.CallManager.Maps.{lookup-delete, lookup-store}
use dia.Controller.State.{pos}
use dia.Relay.Store.{Reply, value, missing}
use dia.PeerCache.{
  KeyStore, CacheConfig, PeerSessionCache, Lookup, hit, miss, trim_space, trim_left, trim_right,
  new_peer_session_cache, clear_all,
}
use dia.PeerCache
use dia.PeerCache.Shared.{new_cache}
use dia.PeerCache.Keys.{no_colon}
use dia.PeerCache.Find.{IsRedis, get-set}
use dia.PeerCache.Twin.{AreAlike, options_of, new_cache-AreAlike}
use dia.PeerCache.Scan.{has_key, starts_with, is_plain, Scans}
use dia.PeerCache.Clear.{Empties, clear_all-Empties}

abbrev reply : Option Bytes → Reply Bytes
reply none = missing
reply (some b) = value b

but_last : Bytes → Bytes
but_last [] = []
but_last (c ∷ []) = []
but_last (c ∷ d ∷ s) = c ∷ but_last (d ∷ s)

demo_matches : Bytes → Bytes → Bool
demo_matches p k = starts_with (but_last p) k

keys_of : Bytes → Entries Bytes → List Bytes
keys_of p [] = []
keys_of p ((k, v) ∷ m) = if demo_matches p k then k ∷ keys_of p m else keys_of p m

delete_each : List Bytes → Entries Bytes → Entries Bytes
delete_each [] m = m
delete_each (k ∷ ks) m = delete k (delete_each ks m)

-- A store whose scan answers everything at once.
abbrev demo_store : KeyStore
demo_store = record {
  Db = Entries Bytes;
  ping = λ o. true;
  get_key = λ k m. reply (lookup k m);
  set_key = λ k v ttl m. (true, store k v m);
  scan = λ cursor p n m. some (keys_of p m, 0);
  del = λ ks m. (some 1, delete_each ks m);
}

demo_store-IsRedis : IsRedis demo_store
demo_store-IsRedis = record {
  get_key-set_key = λ k j v ttl m ok. rw (lookup-store k j v m) (either (str_eq k j) v _);
}
  where
    either :
        (b : Bool) (v : Bytes) (o : Option Bytes)
        → reply (if b then some v else o) ≡ (if b then value v else reply o)
    either true v o = refl
    either false v o = refl

lookup-delete_each :
    (ks : List Bytes) (k : Bytes) (m : Entries Bytes)
    → lookup k (delete_each ks m) ≡ (if has_key k ks then none else lookup k m)
unfolding delete_each has_key
lookup-delete_each [] k m = refl
lookup-delete_each (j ∷ ks) k m = ground (
  arith,
  lookup-delete j k (delete_each ks m),
  lookup-delete_each ks k m,
  str_eq_iff j k,
  str_eq_iff k j,
)

or_true : (b : Bool) → (b || true) ≡ true
or_true true = refl
or_true false = refl

keys_of-lookup :
    (p : Bytes) (m : Entries Bytes) (k : Bytes)
    → demo_matches p k ≡ true
    → (has_key k (keys_of p m) ≡ true) ⊎ (reply (lookup k m) ≡ missing)
unfolding keys_of has_key lookup
keys_of-lookup p [] k h = inr refl
keys_of-lookup p ((j, v) ∷ m) k h = elim (Bool-cases (str_eq j k)) [
  | inl same ↦ inl (rw ((str_eq_iff j k).0 same, h, str_eq_refl k) refl)
  | inr differ ↦ rw differ (elim (keys_of-lookup p m k h) [
    | inl e ↦ inl (still_there (demo_matches p j) e)
    | inr e ↦ inr e
  ])
]
  where
    still_there :
        (b : Bool)
        → has_key k (keys_of p m) ≡ true
        → has_key k (if b then j ∷ keys_of p m else keys_of p m) ≡ true
    still_there true e = rw e (or_true (str_eq k j))
    still_there false e = e

keys_of-matches :
    (p : Bytes) (m : Entries Bytes) (k : Bytes)
    → has_key k (keys_of p m) ≡ true
    → demo_matches p k ≡ true
unfolding keys_of has_key
keys_of-matches p [] k h = absurd (cc h)
keys_of-matches p ((j, v) ∷ m) k h = ground (arith, keys_of-matches p m k, str_eq_iff k j)

but_last-pattern : (p : Bytes) → but_last (p ++ codes ":*") ≡ p ++ codes ":"
unfolding but_last
but_last-pattern [] = refl
but_last-pattern (c ∷ []) = refl
but_last-pattern (c ∷ d ∷ p) = ap (◌∷◌ c) (but_last-pattern (d ∷ p))

demo_store-Scans : Scans demo_store
unfolding demo_matches
demo_store-Scans = record {
  matches = demo_matches;
  place = λ k. 0;
  reach = λ n. 0;
  last = 0;
  begins = refl;
  comes_on = λ cursor n next p db keys e. inl (ground arith);
  meets = λ cursor n next p db keys k e m ahead more. elim (keys_of-lookup p db k m) [
    | inl h ↦ inl (ground (arith, e, h))
    | inr h ↦ inr h
  ];
  only_matches = λ cursor n next p db keys k e h. keys_of-matches p db k (ground (arith, e, h));
  get_key-del =
      λ keys k db n e. rw (lookup-delete_each keys k db) (replied (has_key k keys) (lookup k db));
  matches-plain = λ p k plain. rw (but_last-pattern p) refl;
}
  where
    replied :
        (b : Bool) (o : Option Bytes)
        → reply (if b then none else o) ≡ (if b then missing else reply o)
    replied true o = refl
    replied false o = refl

abbrev demo_settings : CacheConfig
demo_settings = record {
  cache_enabled = true;
  redis_addr = codes " localhost:6379";
  redis_user = [];
  redis_pass = [];
  redis_db = pos 0;
  redis_prefix = codes " app ";
  peer_session_ttl_seconds = pos 60;
}

abbrev demo_cache : PeerSessionCache
demo_cache = record { enabled = true; prefix = codes "app"; ttl = 60000000000 }

demo_opened : new_peer_session_cache demo_store (some demo_settings) ≡ some demo_cache
unfolding new_peer_session_cache trim_space trim_right trim_left
demo_opened = refl

-- A session of +1 with +2.
abbrev full_store : Entries Bytes
full_store = (PeerCache.set demo_store demo_cache (codes "+1") (codes " +2") (codes "s") []).1

get-set_example :
    PeerCache.get demo_store demo_cache
      (codes "+1")
      (codes "+2 ")
      (PeerCache.set demo_store demo_cache (codes " +1") (codes "+2") (codes "t") full_store).1
    ≡ hit (codes "t")
unfolding trim_space trim_right trim_left no_colon str_eq PeerCache.set
get-set_example =
    get-set demo_store demo_store-IsRedis demo_cache refl (codes " +1") (codes "+2") (codes "+1")
      (codes "+2 ") (codes "t") full_store refl refl refl

new_cache-AreAlike_example :
    AreAlike demo_store
      (codes "+1")
      (codes "+2")
      (codes "t")
      full_store
      (new_peer_session_cache demo_store (some demo_settings))
      (new_cache demo_store (options_of demo_settings))
new_cache-AreAlike_example =
    new_cache-AreAlike demo_store (codes "+1") (codes "+2") (codes "t") full_store demo_settings

clear_all-Empties_example :
    Empties demo_store demo_store-Scans demo_cache full_store
      (clear_all demo_store 1 demo_cache full_store)
unfolding is_plain demo_store-Scans
clear_all-Empties_example =
    clear_all-Empties demo_store demo_store-Scans demo_cache demo_settings 1 full_store demo_opened
      refl (omega arith)

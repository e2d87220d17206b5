-- ===== src/PeerCache/Scan.antt =====
-- The loop over Redis's SCAN with which the peer session cache is cleared ends, and it sweeps the store.
use dia.Prelude.{
  ==_iff, ℕ, zero, suc, ◌+◌, ◌%◌, ◌^◌, ◌≤◌, ◌<◌, ◌≡◌, refl, ◌∙◌, ◌⊎◌, inl, inr, Bool, true, false,
  not, ◌&&◌, ◌||◌, List, [], ◌∷◌, ◌++◌, Option, none, some, arith, Bytes, codes, ◌==◌, str_eq, ltb,
  ◌≢◌, Bool-cases, if◌then◌else◌,
}
use dia.Relay.Store.{Reply, missing}
use dia.PeerCache.{
  KeyStore, Cleared, cleared, broke_off, add_deleted, after_scan, clear_from, delete_found,
}

unfoldable pub has_key : Bytes → List Bytes → Bool
has_key k [] = false
has_key k (j ∷ js) = str_eq k j || has_key k js

unfoldable pub starts_with : Bytes → Bytes → Bool
starts_with [] s = true
starts_with (c ∷ p) [] = false
starts_with (c ∷ p) (d ∷ s) = c == d && starts_with p s

-- No character of the text has a meaning of its own in a pattern.
unfoldable pub is_plain : Bytes → Bool
is_plain [] = true
is_plain (c ∷ s) = not (c == b'*' || c == b'?' || c == b'[' || c == b'\\') && is_plain s

-- Redis's documented behaviour for `SCAN` and `DEL`. A full iteration passes over the positions of the
-- keys from 0 on, and a cursor stands for how far it has come, at most to `last`.
pub record Scans (redis : KeyStore) : Type 0 where
  pub matches : Bytes → Bytes → Bool
  pub place : Bytes → ℕ
  pub reach : ℕ → ℕ
  pub last : ℕ
  pub begins : reach 0 ≡ 0
  pub comes_on :
      (cursor n next : ℕ) (pattern_text : Bytes) (db : redis.Db) (keys : List Bytes)
      → redis.scan cursor pattern_text n db ≡ some (keys, next)
      → (next ≡ 0) ⊎ ((reach cursor < reach next) × (reach next ≤ last))
  pub meets :
      (cursor n next : ℕ) (pattern_text : Bytes) (db : redis.Db) (keys : List Bytes) (k : Bytes)
      → redis.scan cursor pattern_text n db ≡ some (keys, next)
      → matches pattern_text k ≡ true
      → reach cursor ≤ place k
      → (next ≡ 0) ⊎ (place k < reach next)
      → (has_key k keys ≡ true) ⊎ (redis.get_key k db ≡ missing)
  pub only_matches :
      (cursor n next : ℕ) (pattern_text : Bytes) (db : redis.Db) (keys : List Bytes) (k : Bytes)
      → redis.scan cursor pattern_text n db ≡ some (keys, next)
      → has_key k keys ≡ true
      → matches pattern_text k ≡ true
  pub get_key-del :
      (keys : List Bytes) (k : Bytes) (db : redis.Db) (n : ℕ)
      → (redis.del keys db).0 ≡ some n
      → redis.get_key k (redis.del keys db).1
        ≡ (if has_key k keys then missing else redis.get_key k db)
  pub matches-plain :
      (p k : Bytes)
      → is_plain p ≡ true
      → matches (p ++ codes ":*") k ≡ starts_with (p ++ codes ":") k

le_lt_cases : (a b : ℕ) → (a ≤ b) ⊎ (b < a)
le_lt_cases a b = elim (Bool-cases (ltb b a)) [
  | inl lt ↦ inr (ground arith)
  | inr ge ↦ inl (ground arith)
]

module _ (redis : KeyStore) (laws : Scans redis) (pattern_text : Bytes) (start : redis.Db) where
  open laws use {matches, place, reach, last}

  -- The matching keys that `P` holds of are gone, and the other keys are as they were.
  pub record Swept (P : Bytes → Type 0) (db : redis.Db) : Type 0 where
    pub gone : (k : Bytes) → matches pattern_text k ≡ true → P k → redis.get_key k db ≡ missing
    pub kept :
        (k : Bytes) → matches pattern_text k ≡ false → redis.get_key k db ≡ redis.get_key k start

  abbrev pub Clean : redis.Db → Type 0
  Clean = Swept (λ k. Unit)

  -- The loop has ended, and unless a command failed, the store is clean.
  abbrev pub Clears : Option (Cleared redis.Db) → Type 0
  Clears none = ⊥
  Clears (some (broke_off n db)) = Unit
  Clears (some (cleared n db)) = Clean db

  abbrev pub Behind : ℕ → Bytes → Type 0
  Behind cursor k = place k < reach cursor

  get_key-delete_found :
      (keys : List Bytes) (k : Bytes) (db : redis.Db) (n : ℕ)
      → (delete_found redis keys db).0 ≡ some n
      → redis.get_key k (delete_found redis keys db).1
        ≡ (if has_key k keys then missing else redis.get_key k db)
  unfolding delete_found has_key
  get_key-delete_found [] k db n e = refl
  get_key-delete_found (j ∷ keys) k db n e = laws.get_key-del (j ∷ keys) k db n e

  still_missing : (b : Bool) (r : Reply Bytes) → r ≡ missing → (if b then missing else r) ≡ missing
  still_missing true r e = refl
  still_missing false r e = e

  if_listed :
      (b : Bool) (r : Reply Bytes)
      → (b ≡ true) ⊎ (r ≡ missing)
      → (if b then missing else r) ≡ missing
  if_listed true r h = refl
  if_listed false r (inl e) = absurd (cc e)
  if_listed false r (inr e) = e

  -- One scan with its deletion sweeps the keys up to the next cursor, or all.
  Swept-on :
      (P : Bytes → Type 0) (cursor next n : ℕ) (keys : List Bytes) (db : redis.Db)
      → redis.scan cursor pattern_text 500 db ≡ some (keys, next)
      → (delete_found redis keys db).0 ≡ some n
      → ((k : Bytes) → P k → (next ≡ 0) ⊎ Behind next k)
      → Swept (Behind cursor) db
      → Swept P (delete_found redis keys db).1
  Swept-on P cursor next n keys db scanned deleted up_to before = record {
    gone = λ k m p.
        get_key-delete_found keys k db n deleted ∙ elim (le_lt_cases (reach cursor) (place k)) [
          | inl ahead ↦
              if_listed (has_key k keys) _
                (laws.meets cursor 500 next pattern_text db keys k scanned m ahead (up_to k p))
          | inr behind ↦ still_missing (has_key k keys) _ (before.gone k m behind)
        ];
    kept = λ k m. get_key-delete_found keys k db n deleted ∙ elim (Bool-cases (has_key k keys)) [
      | inl listed ↦
          absurd (cc (laws.only_matches cursor 500 next pattern_text db keys k scanned listed))
      | inr other ↦ rw other (before.kept k m)
    ];
  }

  added-Clears :
      (loop : ℕ → ℕ → redis.Db → Option (Cleared redis.Db)) (deleted next : ℕ)
      (d : Option ℕ × redis.Db)
      → ((n : ℕ) → d.0 ≡ some n → next ≡ 0 → Clean d.1)
      → ((total n : ℕ) → d.0 ≡ some n → next ≢ 0 → Clears (loop next total d.1))
      → Clears (
          add_deleted redis deleted
            (λ total db'. if next == 0 then some (cleared total db') else loop next total db')
            d)
  added-Clears loop deleted next (none, db) last_one more = tt
  added-Clears loop deleted next (some n, db) last_one more = elim (Bool-cases (next == 0)) [
    | inl z ↦ rw z (last_one n refl ((==_iff next 0).0 z))
    | inr nz ↦ rw nz (more ((deleted + n) % 2 ^ 64) n refl (λ z. absurd (ground arith)))
  ]

  abbrev pub Continues : ℕ → Type 0
  Continues fuel =
      (cursor deleted : ℕ) (db : redis.Db)
      → last < fuel + reach cursor
      → reach cursor ≤ last
      → Swept (Behind cursor) db
      → Clears (clear_from redis pattern_text fuel cursor deleted db)

  scanned-Clears :
      (fuel cursor deleted : ℕ) (db : redis.Db)
      → last < suc fuel + reach cursor
      → Swept (Behind cursor) db
      → Continues fuel
      → (s : Option (List Bytes × ℕ)) → redis.scan cursor pattern_text 500 db ≡ s
      → Clears (after_scan redis (clear_from redis pattern_text fuel) deleted db s)
  unfolding after_scan
  scanned-Clears fuel cursor deleted db enough before ih none e = tt
  scanned-Clears fuel cursor deleted db enough before ih (some (keys, next)) e =
      added-Clears (clear_from redis pattern_text fuel) deleted next (delete_found redis keys db)
        (λ n ok z. Swept-on (λ k. Unit) cursor next n keys db e ok (λ k p. inl z) before)
        (λ total n ok nz. elim (laws.comes_on cursor 500 next pattern_text db keys e) [
          | inl z ↦ absurd (nz z)
          | inr (lt, le) ↦
              ih next total (delete_found redis keys db).1 (omega arith) le
                (Swept-on (Behind next) cursor next n keys db e ok (λ k p. inr p) before)
        ])

  pub clear_from-Clears : (fuel : ℕ) → Continues fuel
  unfolding clear_from
  clear_from-Clears zero cursor deleted db enough le before = absurd (omega arith)
  clear_from-Clears (suc fuel) cursor deleted db enough le before =
      scanned-Clears fuel cursor deleted db enough before (clear_from-Clears fuel) _ refl

-- ===== src/Relay/Log.antt =====
-- The message store as a bounded log per topic.
use dia.Prelude.{
  ◌<◌, All, ℕ, zero, suc, ◌≡◌, refl, sym, ap, ◌∙◌, inl, inr, Bool, true, false, List, [], ◌∷◌, ◌++◌,
  some, arith, Bytes, codes, str_eq, str_eq_iff, str_eq_refl, if◌then◌else◌, take, Bool-cases,
}
use mathlib.Core.List.{reverse, reverse-append, append_cancel_left, append_cancel_right}
use dia.Relay.Store.{
  StoredMsg, value, Redis, Codec, list_key, refresh, push_data, store_message, decode_all,
  get_message_history,
}

-- Redis's documented behaviour for the list commands, while it can be reached and before a key's time
-- runs out: the elements of a key, newest first. An expiration keeps them if its time is positive.
pub record IsListStore (redis : Redis) : Type 0 where
  pub elements : Bytes → redis.Db → List Bytes
  pub lpush_ok : (k v : Bytes) (db : redis.Db) → (redis.lpush k v db).0 ≡ true
  pub elements-lpush :
      (k j v : Bytes) (db : redis.Db)
      → elements j (redis.lpush k v db).1
        ≡ (if str_eq k j then v ∷ elements j db else elements j db)
  pub elements-expire :
      (k j : Bytes) (ttl : ℕ) (db : redis.Db)
      → 0 < ttl
      → elements j (redis.expire k ttl db).1 ≡ elements j db
  pub elements-ltrim :
      (k j : Bytes) (last : ℕ) (db : redis.Db)
      → elements j (redis.ltrim k 0 last db).1
        ≡ (if str_eq k j then take (suc last) (elements j db) else elements j db)
  pub lrange_all-elements :
      (k : Bytes) (db : redis.Db) → redis.lrange_all k db ≡ value (elements k db)

abbrev pub IsAscii : Bytes → Type 0
IsAscii s = All (λ c. c < 128) s

-- JSON reads back what it wrote, of a record whose texts are ASCII; the payload is any bytes. What is
-- no valid UTF-8 would be replaced.
pub record IsCodec (codec : Codec) : Type 0 where
  pub unmarshal-marshal :
      (m : StoredMsg) (text : Bytes)
      → IsAscii m.topic
      → IsAscii m.sender_id
      → codec.marshal m ≡ some text
      → codec.unmarshal text ≡ some m

module _ (redis : Redis) (codec : Codec) (laws : IsListStore redis) (reads : IsCodec codec) where
  open laws use {elements, elements-lpush, elements-expire, elements-ltrim}

  -- The texts are those of the messages.
  abbrev pub Codes : List Bytes → List StoredMsg → Type 0
  Codes [] [] = Unit
  Codes [] (m ∷ ms) = ⊥
  Codes (x ∷ xs) [] = ⊥
  Codes (x ∷ xs) (m ∷ ms) = (codec.unmarshal x ≡ some m) × Codes xs ms

  -- The log of a topic, newest first.
  abbrev pub Logs : redis.Db → Bytes → List StoredMsg → Type 0
  Logs db topic ms = Codes (elements (list_key topic) db) ms

  Codes-take :
      (n : ℕ) (xs : List Bytes) (ms : List StoredMsg) → Codes xs ms → Codes (take n xs) (take n ms)
  Codes-take zero xs ms h = tt
  Codes-take (suc n) [] [] h = tt
  Codes-take (suc n) [] (m ∷ ms) h = h
  Codes-take (suc n) (x ∷ xs) [] h = h
  Codes-take (suc n) (x ∷ xs) (m ∷ ms) (e, h) = (e, Codes-take n xs ms h)

  decode_all-append :
      (xs ys : List Bytes)
      → decode_all redis codec (xs ++ ys) ≡ decode_all redis codec xs ++ decode_all redis codec ys
  unfolding decode_all
  decode_all-append [] ys = refl
  decode_all-append (x ∷ xs) ys = ground (arith, decode_all-append xs ys)

  decode_one :
      (x : Bytes) (m : StoredMsg)
      → codec.unmarshal x ≡ some m
      → decode_all redis codec (x ∷ []) ≡ m ∷ []
  unfolding decode_all
  decode_one x m e = rw (decode_all, e) refl

  decode_all-Codes :
      (xs : List Bytes) (ms : List StoredMsg)
      → Codes xs ms
      → decode_all redis codec (reverse xs) ≡ reverse ms
  unfolding decode_all
  decode_all-Codes [] [] h = refl
  decode_all-Codes [] (m ∷ ms) h = absurd h
  decode_all-Codes (x ∷ xs) [] h = absurd h
  decode_all-Codes (x ∷ xs) (m ∷ ms) (e, h) =
      ap (decode_all redis codec) (reverse-append (x ∷ []) xs)
      ∙ decode_all-append (reverse xs) (x ∷ [])
      ∙ rw (decode_one x m e, decode_all-Codes xs ms h) (sym (reverse-append (m ∷ []) ms))

  get_message_history-Logs :
      (db : redis.Db) (topic : Bytes) (ms : List StoredMsg)
      → Logs db topic ms
      → get_message_history redis codec topic db ≡ some (reverse ms)
  unfolding get_message_history
  get_message_history-Logs db topic ms h =
      rw (laws.lrange_all-elements (list_key topic) db)
        (ap some (decode_all-Codes (elements (list_key topic) db) ms h))

  list_key-Injective : (s t : Bytes) → list_key s ≡ list_key t → s ≡ t
  unfolding list_key
  list_key-Injective s t e =
      append_cancel_right s t (codes ":messages")
        (append_cancel_left (codes "topic:") (s ++ codes ":messages") (t ++ codes ":messages") e)

  keys_differ : (s t : Bytes) → str_eq s t ≡ false → str_eq (list_key s) (list_key t) ≡ false
  keys_differ s t differ = elim (Bool-cases (str_eq (list_key s) (list_key t))) [
    | inr other ↦ other
    | inl same ↦ absurd (
        ground (
          arith,
          (str_eq_iff s t).1
              (list_key-Injective s t ((str_eq_iff (list_key s) (list_key t)).0 same)),
        ))
  ]

  elements-refresh :
      (ttl : ℕ) (k j : Bytes) (db : redis.Db)
      → 0 < ttl
      → elements j (refresh redis codec ttl k db)
        ≡ (if str_eq k j then take 100 (elements j db) else elements j db)
  unfolding refresh
  elements-refresh ttl k j db lasts =
      rw (elements-ltrim k j 99 (redis.expire k ttl db).1, elements-expire k j ttl db lasts) refl

  module _ (ttl : ℕ) (lasts : 0 < ttl) (topic payload sender text : Bytes) (db : redis.Db) where
    abbrev message : StoredMsg
    message = record { topic = topic; payload = payload; sender_id = sender }

    abbrev stored : redis.Db
    stored = (store_message redis codec ttl topic payload sender db).1

    merge :
        (b : Bool) (xs : List Bytes)
        → (if b then take 100 (if b then text ∷ xs else xs) else (if b then text ∷ xs else xs))
          ≡ (if b then take 100 (text ∷ xs) else xs)
    merge true xs = refl
    merge false xs = refl

    elements-push_data :
        (k j : Bytes)
        → elements j (push_data redis codec ttl k db (some text)).1
          ≡ (if str_eq k j then take 100 (text ∷ elements j db) else elements j db)
    unfolding push_data
    elements-push_data k j = rw (laws.lpush_ok k text db) (
        elements-refresh ttl k j (redis.lpush k text db).1 lasts
        ∙ rw (elements-lpush k j text db) (merge (str_eq k j) (elements j db)))

    elements-stored :
        (j : Bytes)
        → codec.marshal message ≡ some text
        → elements j stored
          ≡ (if str_eq (list_key topic) j then take 100 (text ∷ elements j db) else elements j db)
    unfolding store_message
    elements-stored j e =
        ap (λ o. elements j (push_data redis codec ttl (list_key topic) db o).1) e
        ∙ elements-push_data (list_key topic) j

    -- With a positive time to live, storing a message whose topic and sender are ASCII, and that JSON
    -- can write, puts it at the end of its topic's history, of which the last hundred are kept;
    -- another topic's history stays as it was. The histories so far are those of logs, newest first.
    pub store_message-history :
        (other : Bytes) (ms ns : List StoredMsg)
        → IsAscii topic
        → IsAscii sender
        → codec.marshal message ≡ some text
        → str_eq topic other ≡ false
        → Logs db topic ms
        → Logs db other ns
        → (get_message_history redis codec topic stored ≡ some (reverse (take 100 (message ∷ ms))))
          × (get_message_history redis codec other stored ≡ some (reverse ns))
          × Logs stored topic (take 100 (message ∷ ms))
          × Logs stored other ns
    store_message-history other ms ns tx sx e differ h g = (
      get_message_history-Logs stored topic (take 100 (message ∷ ms)) logged,
      get_message_history-Logs stored other ns kept,
      logged,
      kept,
    )
      where
        logged : Logs stored topic (take 100 (message ∷ ms))
        logged =
            rw (elements-stored (list_key topic) e, str_eq_refl (list_key topic))
              (Codes-take 100 (text ∷ elements (list_key topic) db) (message ∷ ms)
                (reads.unmarshal-marshal message text tx sx e, h))

        kept : Logs stored other ns
        kept = rw (elements-stored (list_key other) e, keys_differ topic other differ) g

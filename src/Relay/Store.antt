-- ===== src/Relay/Store.antt =====
-- internal/relay/redis_store.go. Redis, an external service, and the JSON coding of a record are
-- parameters; the store is what `RedisStore` does with them.
use dia.Prelude.{
  ℕ, Bool, true, false, ◌||◌, List, [], ◌∷◌, ◌++◌, Option, none, some, Bytes, codes, ltb,
  if◌then◌else◌,
}
use mathlib.Core.List.{reverse}

pub record StoredMsg : Type 0 where
  pub topic : Bytes
  pub payload : Bytes
  pub sender_id : Bytes

-- A reply that carries a value: `redis.Nil` is `missing`, any other error `broken`.
pub data Reply (A : Type 0) : Type 0 where
  value : A → Reply A
  missing : Reply A
  broken : Reply A

-- The commands that the store issues. A write answers whether it succeeded.
pub record Redis : Type 1 where
  pub Db : Type 0
  pub lpush : Bytes → Bytes → Db → Bool × Db
  pub expire : Bytes → ℕ → Db → Bool × Db
  pub ltrim : Bytes → ℕ → ℕ → Db → Bool × Db
  pub lrange_all : Bytes → Db → Reply (List Bytes)
  pub key_exists : Bytes → Db → Reply ℕ
  pub set_key : Bytes → Bytes → ℕ → Db → Bool × Db
  pub del : List Bytes → Db → Bool × Db
  pub llen : Bytes → Db → Reply ℕ

-- `json.Marshal` and `json.Unmarshal` at `storedMsg`.
pub record Codec : Type 0 where
  pub marshal : StoredMsg → Option Bytes
  pub unmarshal : Bytes → Option StoredMsg

unfoldable pub list_key : Bytes → Bytes
list_key topic = codes "topic:" ++ (topic ++ codes ":messages")

unfoldable pub topic_key : Bytes → Bytes
topic_key topic = codes "topic:" ++ (topic ++ codes ":exists")

module _ (redis : Redis) (codec : Codec) where
  open redis use {Db, lpush, expire, ltrim, lrange_all, key_exists, set_key, del, llen}

  -- After the `LPUSH`: a failed `EXPIRE` or `LTRIM` is only logged.
  unfoldable pub refresh : ℕ → Bytes → Db → Db
  refresh ttl key db = (ltrim key 0 99 (expire key ttl db).1).1

  unfoldable pub push_data : ℕ → Bytes → Db → Option Bytes → Bool × Db
  push_data ttl key db none = (false, db)
  push_data ttl key db (some text) =
      let (pushed, db') = lpush key text db in
      if pushed then (true, refresh ttl key db') else (false, db')

  -- `StoreMessage`: false is a returned error.
  unfoldable pub store_message : ℕ → Bytes → Bytes → Bytes → Db → Bool × Db
  unfolding push_data refresh
  store_message ttl topic payload sender_id db =
      push_data ttl (list_key topic) db
        (codec.marshal (record { topic = topic; payload = payload; sender_id = sender_id }))

  -- The loop from the last element to the first: what does not decode is skipped.
  unfoldable pub decode_all : List Bytes → List StoredMsg
  decode_all [] = []
  decode_all (text ∷ texts) = elim (codec.unmarshal text) [
    | none ↦ decode_all texts
    | some m ↦ m ∷ decode_all texts
  ]

  history_of : Reply (List Bytes) → Option (List StoredMsg)
  history_of (value texts) = some (decode_all (reverse texts))
  history_of missing = some []
  history_of broken = none

  -- `GetMessageHistory`, oldest first; `none` is a returned error.
  unfoldable pub get_message_history : Bytes → Db → Option (List StoredMsg)
  unfolding history_of
  get_message_history topic db = history_of (lrange_all (list_key topic) db)

  positive : Reply ℕ → Reply ℕ → Option Bool
  positive (value n) (value m) = some (ltb 0 n || ltb 0 m)
  positive _ _ = none

  -- `TopicExists`; `none` is a returned error.
  unfoldable pub topic_tracked : Bytes → Db → Option Bool
  unfolding positive
  topic_tracked topic db =
      positive (key_exists (list_key topic) db) (key_exists (topic_key topic) db)

  unfoldable pub create_topic : ℕ → Bytes → Db → Bool × Db
  create_topic ttl topic db = set_key (topic_key topic) (codes "1") ttl db

  unfoldable pub delete_topic : Bytes → Db → Bool × Db
  delete_topic topic db = del (list_key topic ∷ topic_key topic ∷ []) db

  -- `GetTopicStats`: the count, or an error.
  unfoldable pub get_topic_stats : Bytes → Db → Option ℕ
  get_topic_stats topic db = elim (llen (list_key topic) db) [
    | value n ↦ some n
    | missing ↦ none
    | broken ↦ none
  ]

-- ===== src/Relay/Tests.antt =====
-- The relay's theorems at a server with two sessions, over a Redis in memory.
use dia.Prelude.{
  suc, ap, inl, inr, none, arith, Bool-cases, str_eq_iff, ℕ, ◌≡◌, ◌≢◌, refl, Bool, true, false, not,
  ◌&&◌, ◌||◌, List, [], ◌∷◌, some, Bytes, codes, str_eq, is_empty, ◌==◌, if◌then◌else◌, take,
  length,
}
use dia.Wire.{RelayRequest, event, subscribe_type, publish_type}
use dia.Relay.Store.{Redis, Codec, value, store_message, get_message_history}
use dia.Relay.Log.{IsListStore, IsCodec, Logs, store_message-history}
use dia.Relay.Server.{
  State, World, MsgType, add_to_topic, join, replay, topic_exists, handle_publish, handle_subscribe,
  try_enqueue, go_live,
}
use dia.Relay.Steps.{Reach, here, next, joins}
use dia.Relay.Invariant.{IsSound, new_server, Reach-IsSound}
use dia.Relay.Fanout.{publish_delivers, publish_never_creates, accepted, db_after}
use dia.Relay.Replay.{marked, offer_all, replayed, hist, subscribe_replays}
use dia.Relay.Window.{window, publish_missed}

-- Lists and plain keys; nothing expires and no command fails.
record Memory : Type 0 where
  lists : Bytes → List Bytes
  keys : Bytes → Bool

abbrev write_list : Bytes → List Bytes → Memory → Memory
write_list k l m = record m { lists = λ j. if str_eq k j then l else m.lists j }

abbrev memory_redis : Redis
memory_redis = record {
  Db = Memory;
  lpush = λ k v m. (true, write_list k (v ∷ m.lists k) m);
  expire = λ k ttl m. (true, m);
  ltrim = λ k first last m. (true, write_list k (take (suc last) (m.lists k)) m);
  lrange_all = λ k m. value (m.lists k);
  key_exists = λ k m. value (if m.keys k || not (is_empty (m.lists k)) then 1 else 0);
  set_key = λ k v ttl m. (true, record m { keys = λ j. if str_eq k j then true else m.keys j });
  del = λ ks m. (true, m);
  llen = λ k m. value (length (m.lists k));
}

abbrev payload_codec : Codec
payload_codec = record {
  marshal = λ m. some m.payload;
  unmarshal = λ text. some (record { topic = []; payload = text; sender_id = [] });
}

abbrev demo : World
demo = record {
  redis = memory_redis;
  codec = payload_codec;
  message_type = λ p. some MsgType.ake_request;
  mac = record { create_message_mac = λ t d. some []; verify_message_mac = λ k p d m. some true };
  at_private_key = [];
  ttl = 20;
}

abbrev no_data : Memory
no_data = record { lists = λ k. []; keys = λ k. false }

abbrev request : ℕ → RelayRequest
request type = record {
  sender_id = codes "a";
  type = type;
  topic = codes "t";
  payload = codes "x";
  ticket = [];
}

abbrev silent : RelayRequest
silent = record (request subscribe_type) { payload = [] }

has_topic : silent.topic ≢ []
has_topic e = cc

-- Sessions 1 and 2 have joined the topic.
two : State demo
unfolding new_server join
two = join demo 2 silent [] (join demo 1 silent [] (new_server no_data))

Reach-two : Reach demo (new_server no_data) two
unfolding two
Reach-two = next (next here (joins 1 silent [] has_topic)) (joins 2 silent [] has_topic)

Reach-IsSound_example : IsSound two
Reach-IsSound_example = Reach-IsSound demo no_data Reach-two

two_exists : topic_exists demo (codes "t") two ≡ true
unfolding two topic_exists replay add_to_topic str_eq
two_exists = refl

publish_delivers_example : (handle_publish demo 1 (request publish_type) two).sess 2 ≡ (
    if str_eq (two.sess 2).active_topic (codes "t") && (not (2 == 1) && not (two.sess 2).replaying)
    then try_enqueue (event (codes "t") (codes "x")) (two.sess 2)
    else two.sess 2)
publish_delivers_example =
    (publish_delivers demo 1 (request publish_type) two Reach-IsSound_example refl refl
        two_exists).0
      2

subscribe_replays_example :
    (handle_subscribe demo 3 silent two).sess 3
    ≡ marked (codes "t") false (offer_all (replayed silent (hist demo 3 silent two)) (two.sess 3))
subscribe_replays_example = (subscribe_replays demo 3 silent two refl refl).0

-- Session 2 subscribes once more, and session 1 publishes before it goes live.
publish_missed_example :
    (go_live demo 2 (handle_publish demo 1 (request publish_type) (window demo 2 silent two))).sess
      2
    ≡ (go_live demo 2 (window demo 2 silent two)).sess 2
publish_missed_example =
    (publish_missed demo 2 silent two no_data Reach-two refl 1 (codes "x") (codes "a") []
      publish_type refl (λ e. omega (arith, e))).0

publish_never_creates_example :
    ((handle_publish demo 1 (request publish_type) two).clients ≡ two.clients)
    × ((handle_publish demo 1 (request publish_type) two).db ≡ (
        if accepted demo 1 (request publish_type) two
        then db_after demo 1 (request publish_type) two
        else two.db))
publish_never_creates_example = publish_never_creates demo 1 (request publish_type) two

-- What is written at a key, seen from another.
at_key :
    (k j : Bytes) (f : List Bytes → List Bytes) (m : Memory)
    → (write_list k (f (m.lists k)) m).lists j ≡ (if str_eq k j then f (m.lists j) else m.lists j)
at_key k j f m = elim (Bool-cases (str_eq k j)) [
  | inl same ↦ rw same (ap (λ i. f (m.lists i)) ((str_eq_iff k j).0 same))
  | inr differ ↦ rw differ refl
]

memory-IsListStore : IsListStore memory_redis
memory-IsListStore = record {
  elements = λ k m. m.lists k;
  lpush_ok = λ k v m. refl;
  elements-lpush = λ k j v m. at_key k j (◌∷◌ v) m;
  elements-expire = λ k j ttl m lasts. refl;
  elements-ltrim = λ k j last m. at_key k j (take (suc last)) m;
  lrange_all-elements = λ k m. refl;
}

-- A coding of the messages that one sender sends to one topic.
abbrev one_codec : Codec
one_codec = record {
  marshal = λ m.
      if str_eq m.topic (codes "t") && str_eq m.sender_id (codes "a") then some m.payload else none;
  unmarshal = λ text. some (record { topic = codes "t"; payload = text; sender_id = codes "a" });
}

one-IsCodec : IsCodec one_codec
one-IsCodec = record {
  unmarshal-marshal = λ m text tx sx e.
      ground (arith, e, str_eq_iff m.topic (codes "t"), str_eq_iff m.sender_id (codes "a"));
}

abbrev stored_once : Memory
stored_once =
    (store_message memory_redis one_codec 20 (codes "t") (codes "x") (codes "a") no_data).1

store_message-history_example :
    (get_message_history memory_redis one_codec (codes "t") stored_once
      ≡ some (record { topic = codes "t"; payload = codes "x"; sender_id = codes "a" } ∷ []))
    × (get_message_history memory_redis one_codec (codes "u") stored_once ≡ some [])
    × Logs memory_redis one_codec memory-IsListStore one-IsCodec stored_once
        (codes "t")
        (record { topic = codes "t"; payload = codes "x"; sender_id = codes "a" } ∷ [])
    × Logs memory_redis one_codec memory-IsListStore one-IsCodec stored_once (codes "u") []
unfolding memory-IsListStore str_eq
store_message-history_example =
    store_message-history memory_redis one_codec memory-IsListStore one-IsCodec 20 (omega arith)
      (codes "t") (codes "x") (codes "a") (codes "x") no_data (codes "u") [] [] (omega arith, tt)
      (omega arith, tt) refl refl tt tt

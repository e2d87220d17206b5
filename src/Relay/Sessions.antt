-- ===== src/Relay/Sessions.antt =====
-- internal/relay/grpc.go: a session with its queue, and the sets of sessions that the topics hold.
use dia.Prelude.{
  ℕ, ◌+◌, ◌%◌, ◌^◌, Bool, false, ◌||◌, List, [], ◌∷◌, ◌++◌, Option, none, some, Bytes, str_eq,
  is_empty, ltb, ◌==◌, if◌then◌else◌, length,
}
use dia.Wire.{RelayResponse}

-- `session`: the topic it is subscribed to, empty for none, and its queue of frames to write.
pub record Sess : Type 0 where
  pub active_topic : Bytes
  pub send_q : List RelayResponse
  pub closed : Bool
  pub drop_count : ℕ
  pub replaying : Bool

abbrev pub new_sess : Sess
new_sess = record {
  active_topic = [];
  send_q = [];
  closed = false;
  drop_count = 0;
  replaying = false;
}

abbrev pub queue_cap : ℕ
queue_cap = 128

-- `tryEnqueue`: a send on a closed queue panics and is recovered, a full queue drops the frame.
unfoldable pub try_enqueue : RelayResponse → Sess → Sess
try_enqueue resp s =
    if s.closed
    then s
    else if ltb (length s.send_q) queue_cap
    then record s { send_q = s.send_q ++ resp ∷ [] }
    else record s { drop_count = (s.drop_count + 1) % 2 ^ 64 }

-- `delete(subs, sess)` on a set of sessions.
unfoldable pub remove : ℕ → List ℕ → List ℕ
remove i [] = []
remove i (j ∷ js) = if i == j then remove i js else j ∷ remove i js

unfoldable pub member : ℕ → List ℕ → Bool
member i [] = false
member i (j ∷ js) = i == j || member i js

-- `subs[sess] = struct{}{}`
unfoldable pub add : ℕ → List ℕ → List ℕ
unfolding member
add i js = if member i js then js else i ∷ js

-- `clients`, a map from topics to sets of sessions.
abbrev pub Topics : Type 0
Topics = Bytes → Option (List ℕ)

abbrev pub put : Bytes → Option (List ℕ) → Topics → Topics
put k v m j = if str_eq k j then v else m j

-- The set of a topic, empty if the topic is not there.
abbrev pub subscribers : Topics → Bytes → List ℕ
subscribers m k = elim (m k) [ none ↦ [] | some js ↦ js ]

-- `delete(subs, sess)`, and the topic goes with its last subscriber.
unfoldable pub leave : Bytes → ℕ → Topics → Topics
unfolding remove
leave k i m = elim (m k) [
  | none ↦ m
  | some js ↦ let js' = remove i js in if is_empty js' then put k none m else put k (some js') m
]

-- An empty set for a topic that is not there.
unfoldable pub ensure : Bytes → Topics → Topics
ensure k m = elim (m k) [ none ↦ put k (some []) m | some js ↦ m ]

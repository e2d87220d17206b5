-- ===== src/Relay/Invariant.antt =====
-- The invariant of the server over every run, and the properties that make it up.
use dia.Prelude.{
  ℕ, ◌≤◌, refl, sym, ap, inl, inr, Bool, true, false, List, [], ◌∷◌, none, arith, str_eq, is_empty,
  ◌==◌, if◌then◌else◌, Bool-cases, List-cases, length, length-append,
}
use dia.Wire.{RelayResponse}
use dia.Relay.Server.{
  Sess, Server, State, World, new_sess, queue_cap, member, set_sess, try_enqueue, enqueue_to,
  detach, ensure_topic_bucket, add_to_topic, remove_from_active, writer_step,
}
use dia.Relay.Steps.{Keeps, Reach, Reach-keeps}
use dia.Relay.Distinct.{IsDistinct, IsDistinct-Keeps}
use dia.Relay.Topics.{
  no_topic, IsPlaced, detach-IsPlaced, add_to_topic-IsPlaced, ensure_topic_bucket-IsPlaced,
  SameTopics-IsPlaced, set_sess-SameTopics, remove_from_active-IsPlaced, enqueue_to-IsPlaced,
  writer_step-IsPlaced,
}

pub IsPlaced-Keeps : (Db : Type 0) → Keeps {Db = Db} IsPlaced
IsPlaced-Keeps Db = record {
  writes = λ v d h. h;
  enqueues = enqueue_to-IsPlaced;
  detaches = detach-IsPlaced;
  buckets = ensure_topic_bucket-IsPlaced;
  joins = λ topic i v ne h. add_to_topic-IsPlaced topic i v ne h;
  leaves = remove_from_active-IsPlaced;
  flags = λ i b v.
      SameTopics-IsPlaced v (set_sess i (record (v.sess i) { replaying = b }) v)
        (set_sess-SameTopics i _ v refl);
  sends = writer_step-IsPlaced;
}

-- No queue is longer than its channel's capacity.
abbrev pub IsBounded : {Db : Type 0} → Server Db → Type 0
IsBounded v = (i : ℕ) → length (v.sess i).send_q ≤ queue_cap

try_enqueue-bound :
    (resp : RelayResponse) (s : Sess)
    → length s.send_q ≤ queue_cap
    → length (try_enqueue resp s).send_q ≤ queue_cap
unfolding try_enqueue
try_enqueue-bound resp s h = ground (arith, length-append s.send_q (resp ∷ []))

bounded_at :
    (i : ℕ) (s : Sess) (f : ℕ → Sess)
    → length s.send_q ≤ queue_cap
    → ((j : ℕ) → length (f j).send_q ≤ queue_cap)
    → (j : ℕ) → length (if i == j then s else f j).send_q ≤ queue_cap
bounded_at i s f l h j = elim (Bool-cases (i == j)) [ inl e ↦ rw e l | inr e ↦ rw e (h j) ]

module _ {Db : Type 0} where
  detach-IsBounded : (i : ℕ) (v : Server Db) → IsBounded v → IsBounded (detach i v)
  unfolding detach
  detach-IsBounded i v h =
      bounded_at i (record (v.sess i) { active_topic = []; closed = true }) v.sess (h i) h

  remove_from_active-IsBounded :
      (i : ℕ) (v : Server Db) → IsBounded v → IsBounded (remove_from_active i v)
  unfolding remove_from_active
  remove_from_active-IsBounded i v h = elim (Bool-cases (is_empty (v.sess i).active_topic)) [
    | inl e ↦ rw e h
    | inr e ↦ rw e (bounded_at i (record (v.sess i) { active_topic = [] }) v.sess (h i) h)
  ]

  writer_step-IsBounded :
      (i : ℕ) (sent : Bool) (v : Server Db) → IsBounded v → IsBounded (writer_step i sent v)
  unfolding writer_step
  writer_step-IsBounded i sent v h = elim (List-cases (v.sess i).send_q) [
    | inl idle ↦ rw (idle, writer_step) h
    | inr (resp, rest, e) ↦
        rw (e, writer_step) (after_send sent rest (omega (arith, ap length e, h i)))
  ]
    where
      popped : List RelayResponse → Server Db
      popped rest = set_sess i (record (v.sess i) { send_q = rest }) v

      after_send :
          (sent : Bool) (rest : List RelayResponse)
          → length rest ≤ queue_cap
          → IsBounded (if sent then popped rest else detach i (popped rest))
      after_send true rest l = bounded_at i (record (v.sess i) { send_q = rest }) v.sess l h
      after_send false rest l =
          detach-IsBounded i (popped rest)
            (bounded_at i (record (v.sess i) { send_q = rest }) v.sess l h)

pub IsBounded-Keeps : (Db : Type 0) → Keeps {Db = Db} IsBounded
unfolding enqueue_to ensure_topic_bucket add_to_topic
IsBounded-Keeps Db = record {
  writes = λ v d h. h;
  enqueues = λ i resp v h. bounded_at i _ v.sess (try_enqueue-bound resp (v.sess i) (h i)) h;
  detaches = detach-IsBounded;
  buckets = λ topic v h. h;
  joins =
      λ topic i v ne h. bounded_at i (record (v.sess i) { active_topic = topic }) v.sess (h i) h;
  leaves = remove_from_active-IsBounded;
  flags = λ i b v h. bounded_at i (record (v.sess i) { replaying = b }) v.sess (h i) h;
  sends = writer_step-IsBounded;
}

-- What holds of the server at rest between any two moves.
pub record IsSound {Db : Type 0} (v : Server Db) : Type 0 where
  pub placed : IsPlaced v
  pub distinct : IsDistinct v
  pub bounded : IsBounded v

-- `NewServer`, with no session that has done anything.
unfoldable pub new_server : {Db : Type 0} → Db → Server Db
new_server db = record { clients = λ t. none; sess = λ i. new_sess; db = db }

new_server-IsSound : {Db : Type 0} (db : Db) → IsSound (new_server db)
unfolding new_server member str_eq
new_server-IsSound db = record {
  placed = λ t i. sym (no_topic t);
  distinct = λ t. tt;
  bounded = λ i. omega arith;
}

-- However requests, writers and the phases of subscriptions interleave from a new server on, a
-- session stands in a topic's set exactly when that topic is its active one, once, and no queue
-- exceeds 128 frames.
pub Reach-IsSound :
    (w : World) (db : w.redis.Db) {v : State w} → Reach w (new_server db) v → IsSound v
Reach-IsSound w db r =
    let start = new_server-IsSound db in
    record {
      placed = Reach-keeps w IsPlaced (IsPlaced-Keeps w.redis.Db) r start.placed;
      distinct = Reach-keeps w IsDistinct (IsDistinct-Keeps w.redis.Db) r start.distinct;
      bounded = Reach-keeps w IsBounded (IsBounded-Keeps w.redis.Db) r start.bounded;
    }

-- ===== src/Relay/Topics.antt =====
-- Which sessions are in the set of which topic.
use dia.Prelude.{
  ℕ, ◌≡◌, ◌≢◌, refl, inl, inr, Bool, true, false, not, ◌&&◌, ◌||◌, List, [], ◌∷◌, Option, none,
  some, arith, Bytes, str_eq, str_eq_iff, is_empty, ◌==◌, if◌then◌else◌, Bool-cases, Option-cases,
  List-cases,
}
use dia.Wire.{RelayResponse}
use dia.Relay.Server.{
  Sess, Server, Topics, put, subscribers, remove, member, add, leave, ensure, set_sess, try_enqueue,
  enqueue_to, detach, ensure_topic_bucket, add_to_topic, remove_from_active, writer_step, fan_out,
}

pub member-remove : (i j : ℕ) (js : List ℕ) → member i (remove j js) ≡ (not (i == j) && member i js)
unfolding member remove
member-remove i j [] = ground arith
member-remove i j (k ∷ js) = ground (arith, member-remove i j js)

pub member-add : (i j : ℕ) (js : List ℕ) → member i (add j js) ≡ ((i == j) || member i js)
unfolding member add
member-add i j js = ground arith

pub member-empty : (i : ℕ) (js : List ℕ) → is_empty js ≡ true → member i js ≡ false
unfolding member
member-empty i [] e = refl
member-empty i (j ∷ js) e = cc

member-leave :
    (k t : Bytes) (i j : ℕ) (m : Topics)
    → member j (subscribers (leave k i m) t) ≡ (
        if str_eq k t
        then not (j == i) && member j (subscribers m t)
        else member j (subscribers m t))
unfolding leave member
member-leave k t i j m = elim (Option-cases (m k)) [
  | inl n ↦ ground (arith, str_eq_iff k t)
  | inr (js, e) ↦ ground (arith, str_eq_iff k t, member-remove j i js, member-empty j (remove i js))
]

pub subscribers-ensure : (k t : Bytes) (m : Topics) → subscribers (ensure k m) t ≡ subscribers m t
unfolding ensure
subscribers-ensure k t m = ground (arith, str_eq_iff k t)

pub no_topic : (t : Bytes) → (not (is_empty t) && str_eq [] t) ≡ false
unfolding str_eq
no_topic [] = refl
no_topic (c ∷ t) = refl

abbrev set_or_empty : Option (List ℕ) → List ℕ
set_or_empty o = elim o [ none ↦ [] | some js ↦ js ]

set_or_empty-if :
    (b : Bool) (js : List ℕ) (o : Option (List ℕ))
    → set_or_empty (if b then some js else o) ≡ (if b then js else set_or_empty o)
set_or_empty-if true js o = refl
set_or_empty-if false js o = refl

-- The set of a topic after a topic is written.
pub subscribers-put :
    (k : Bytes) (js : List ℕ) (m : Topics) (t : Bytes)
    → subscribers (put k (some js) m) t ≡ (if str_eq k t then js else subscribers m t)
subscribers-put k js m t = set_or_empty-if (str_eq k t) js (m t)

-- A session is in a topic's set exactly when that topic is its active one, and no session is in
-- the set of the empty topic.
abbrev pub IsPlaced : {Db : Type 0} → Server Db → Type 0
IsPlaced v =
    (t : Bytes) (i : ℕ)
    → member i (subscribers v.clients t) ≡ (not (is_empty t) && str_eq (v.sess i).active_topic t)

module _ {Db : Type 0} where
  -- The frame of a queue operation: sets and active topics stay.
  abbrev pub SameTopics : Server Db → Server Db → Type 0
  SameTopics v u =
      ((t : Bytes) → subscribers u.clients t ≡ subscribers v.clients t)
      × ((i : ℕ) → (u.sess i).active_topic ≡ (v.sess i).active_topic)

  pub SameTopics-IsPlaced : (v u : Server Db) → SameTopics v u → IsPlaced v → IsPlaced u
  SameTopics-IsPlaced v u (s, a) h t i = rw (s t, a i) (h t i)

  pub detach-IsPlaced : (i : ℕ) (v : Server Db) → IsPlaced v → IsPlaced (detach i v)
  unfolding detach
  detach-IsPlaced i v h t j = elim (Bool-cases (is_empty (v.sess i).active_topic)) [
    | inl none_active ↦ ground (arith, h t j, no_topic t)
    | inr active ↦ ground (
      arith,
      h t j,
      no_topic t,
      member-leave (v.sess i).active_topic t i j v.clients,
      str_eq_iff (v.sess i).active_topic t,
    )
  ]

  -- What `addToTopic` leaves in place before it adds the session.
  module _ (topic : Bytes) (i : ℕ) (v : Server Db) (ne : topic ≢ []) (h : IsPlaced v) where
    abbrev old_topics : Topics
    old_topics =
        if not (is_empty (v.sess i).active_topic) && not (str_eq (v.sess i).active_topic topic)
        then leave (v.sess i).active_topic i v.clients
        else v.clients

    old_others :
        (t : Bytes) (j : ℕ)
        → j ≢ i
        → member j (subscribers old_topics t)
          ≡ (not (is_empty t) && str_eq (v.sess j).active_topic t)
    old_others t j n = ground (arith, h t j, member-leave (v.sess i).active_topic t i j v.clients)

    old_self : (t : Bytes) → t ≢ topic → member i (subscribers old_topics t) ≡ false
    old_self t n = ground (
      arith,
      h t i,
      member-leave (v.sess i).active_topic t i i v.clients,
      str_eq_iff (v.sess i).active_topic t,
      str_eq_iff (v.sess i).active_topic topic,
      no_topic t,
    )

    is_empty-topic : is_empty topic ≡ false
    is_empty-topic = ground arith

    joined : Topics
    joined = ensure topic old_topics

    joined-old : (t : Bytes) → subscribers joined t ≡ subscribers old_topics t
    unfolding joined
    joined-old t = subscribers-ensure topic t old_topics

    pub add_to_topic-IsPlaced : IsPlaced (add_to_topic topic i v)
    unfolding add_to_topic joined
    add_to_topic-IsPlaced t j =
        rw (subscribers-put topic (add i (subscribers joined topic)) joined t)
          (elim (Bool-cases (str_eq topic t)) [
            | inl here ↦
                rw (here, member-add j i (subscribers joined topic), joined-old topic)
                  (ground (arith, old_others topic j, str_eq_iff topic t, is_empty-topic))
            | inr there ↦
                rw (there, joined-old t)
                  (ground (arith, old_others t j, old_self t, str_eq_iff topic t))
          ])

try_enqueue-active :
    (resp : RelayResponse) (s : Sess) → (try_enqueue resp s).active_topic ≡ s.active_topic
unfolding try_enqueue
try_enqueue-active resp s = ground arith

module _ {Db : Type 0} where
  pub ensure_topic_bucket-IsPlaced :
      (topic : Bytes) (v : Server Db) → IsPlaced v → IsPlaced (ensure_topic_bucket topic v)
  unfolding ensure_topic_bucket
  ensure_topic_bucket-IsPlaced topic v h t j = rw (subscribers-ensure topic t v.clients) (h t j)

  pub remove_from_active-IsPlaced :
      (i : ℕ) (v : Server Db) → IsPlaced v → IsPlaced (remove_from_active i v)
  unfolding remove_from_active
  remove_from_active-IsPlaced i v h t j = elim (Bool-cases (is_empty (v.sess i).active_topic)) [
    | inl none_active ↦ ground (arith, h t j, no_topic t)
    | inr active ↦ ground (
      arith,
      h t j,
      no_topic t,
      member-leave (v.sess i).active_topic t i j v.clients,
      str_eq_iff (v.sess i).active_topic t,
    )
  ]

  -- Writing a session with the topic that it had moves no session.
  pub set_sess-SameTopics :
      (i : ℕ) (s : Sess) (v : Server Db)
      → s.active_topic ≡ (v.sess i).active_topic
      → SameTopics v (set_sess i s v)
  set_sess-SameTopics i s v e = (λ t. refl, λ j. ground arith)

  pub enqueue_to-IsPlaced :
      (i : ℕ) (resp : RelayResponse) (v : Server Db) → IsPlaced v → IsPlaced (enqueue_to i resp v)
  unfolding enqueue_to
  enqueue_to-IsPlaced i resp v =
      SameTopics-IsPlaced v (enqueue_to i resp v)
        (set_sess-SameTopics i _ v (try_enqueue-active resp (v.sess i)))

  pub fan_out-IsPlaced :
      (sender : ℕ) (resp : RelayResponse) (js : List ℕ) (v : Server Db)
      → IsPlaced v
      → IsPlaced (fan_out sender resp js v)
  unfolding fan_out
  fan_out-IsPlaced sender resp [] v h = h
  fan_out-IsPlaced sender resp (j ∷ js) v h =
      fan_out-IsPlaced sender resp js _ (elim (Bool-cases (j == sender || (v.sess j).replaying)) [
        | inl skipped ↦ rw skipped h
        | inr sent ↦ rw sent (enqueue_to-IsPlaced j resp v h)
      ])

  pub writer_step-IsPlaced :
      (i : ℕ) (sent : Bool) (v : Server Db) → IsPlaced v → IsPlaced (writer_step i sent v)
  unfolding writer_step
  writer_step-IsPlaced i sent v h = elim (List-cases (v.sess i).send_q) [
    | inl idle ↦ rw (idle, writer_step) h
    | inr (resp, rest, e) ↦ rw (e, writer_step) (after_send sent rest)
  ]
    where
      popped : List RelayResponse → Server Db
      popped rest = set_sess i (record (v.sess i) { send_q = rest }) v

      popped-IsPlaced : (rest : List RelayResponse) → IsPlaced (popped rest)
      popped-IsPlaced rest = SameTopics-IsPlaced v (popped rest) (set_sess-SameTopics i _ v refl) h

      after_send :
          (sent : Bool) (rest : List RelayResponse)
          → IsPlaced (if sent then popped rest else detach i (popped rest))
      after_send true rest = popped-IsPlaced rest
      after_send false rest = detach-IsPlaced i (popped rest) (popped-IsPlaced rest)

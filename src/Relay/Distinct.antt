-- ===== src/Relay/Distinct.antt =====
-- Each topic's set of sessions is a set: no session stands in it twice.
use dia.Prelude.{
  ℕ, ◌≡◌, refl, ◌⊎◌, inl, inr, Bool, true, false, not, ◌&&◌, List, [], ◌∷◌, some, arith, Bytes,
  str_eq, str_eq_iff, is_empty, if◌then◌else◌, Bool-cases, Option-cases, List-cases,
}
use dia.Wire.{RelayResponse}
use dia.Relay.Server.{
  Server, Topics, put, subscribers, remove, member, add, leave, ensure, set_sess, enqueue_to,
  detach, ensure_topic_bucket, add_to_topic, remove_from_active, writer_step,
}
use dia.Relay.Steps.{Keeps}
use dia.Relay.Topics.{subscribers-ensure, subscribers-put, member-remove}

-- A topic's set holds each session once.
abbrev pub Distinct : List ℕ → Type 0
Distinct [] = Unit {0}
Distinct (j ∷ js) = (member j js ≡ false) × Distinct js

abbrev pub IsDistinct : {Db : Type 0} → Server Db → Type 0
IsDistinct v = (t : Bytes) → Distinct (subscribers v.clients t)

remove-Distinct : (i : ℕ) (js : List ℕ) → Distinct js → Distinct (remove i js)
unfolding remove
remove-Distinct i [] d = tt
remove-Distinct i (j ∷ js) d = ground (arith, remove-Distinct i js d.1, member-remove j i js)

add-Distinct : (i : ℕ) (js : List ℕ) → Distinct js → Distinct (add i js)
unfolding add
add-Distinct i js d = elim (Bool-cases (member i js)) [ inl e ↦ rw e d | inr e ↦ rw e (e, d) ]

empty-nil : (js : List ℕ) → is_empty js ≡ true → js ≡ []
empty-nil [] e = refl
empty-nil (j ∷ js) e = cc

subscribers-leave :
    (k t : Bytes) (i : ℕ) (m : Topics)
    → (subscribers (leave k i m) t ≡ subscribers m t)
      ⊎ (subscribers (leave k i m) t ≡ remove i (subscribers m t))
unfolding leave
subscribers-leave k t i m = elim (Bool-cases (str_eq k t)) [
  | inl same ↦ elim (Option-cases (m k)) [
    | inl n ↦ inl (ground arith)
    | inr (js, e) ↦ inr (ground (arith, str_eq_iff k t, empty-nil (remove i js)))
  ]
  | inr other ↦ inl (ground arith)
]

leave-Distinct :
    (k t : Bytes) (i : ℕ) (m : Topics)
    → Distinct (subscribers m t)
    → Distinct (subscribers (leave k i m) t)
leave-Distinct k t i m d = elim (subscribers-leave k t i m) [
  | inl e ↦ rw e d
  | inr e ↦ rw e (remove-Distinct i _ d)
]

either-Distinct :
    (b : Bool) (t : Bytes) (m m' : Topics)
    → Distinct (subscribers m t)
    → Distinct (subscribers m' t)
    → Distinct (subscribers (if b then m else m') t)
either-Distinct true t m m' d d' = d
either-Distinct false t m m' d d' = d'

put-Distinct :
    (k t : Bytes) (js : List ℕ) (m : Topics)
    → Distinct js
    → Distinct (subscribers m t)
    → Distinct (subscribers (put k (some js) m) t)
put-Distinct k t js m dj dm =
    rw (subscribers-put k js m t)
      (elim (Bool-cases (str_eq k t)) [ inl e ↦ rw e dj | inr e ↦ rw e dm ])

ensure-Distinct :
    (k t : Bytes) (m : Topics) → Distinct (subscribers m t) → Distinct (subscribers (ensure k m) t)
ensure-Distinct k t m d = rw (subscribers-ensure k t m) d

module _ {Db : Type 0} where
  detach-IsDistinct : (i : ℕ) (v : Server Db) → IsDistinct v → IsDistinct (detach i v)
  unfolding detach
  detach-IsDistinct i v h t =
      either-Distinct (is_empty (v.sess i).active_topic) t v.clients _ (h t)
        (leave-Distinct (v.sess i).active_topic t i v.clients (h t))

  add_to_topic-IsDistinct :
      (topic : Bytes) (i : ℕ) (v : Server Db) → IsDistinct v → IsDistinct (add_to_topic topic i v)
  unfolding add_to_topic
  add_to_topic-IsDistinct topic i v h t =
      put-Distinct topic t (add i (subscribers (ensure topic old) topic)) (ensure topic old)
        (add-Distinct i _ (ensure-Distinct topic topic old (old-Distinct topic)))
        (ensure-Distinct topic t old (old-Distinct t))
    where
      old : Topics
      old =
          if not (is_empty (v.sess i).active_topic) && not (str_eq (v.sess i).active_topic topic)
          then leave (v.sess i).active_topic i v.clients
          else v.clients

      old-Distinct : (u : Bytes) → Distinct (subscribers old u)
      old-Distinct u =
          either-Distinct
            (not (is_empty (v.sess i).active_topic) && not (str_eq (v.sess i).active_topic topic)) u
            (leave (v.sess i).active_topic i v.clients) v.clients
            (leave-Distinct (v.sess i).active_topic u i v.clients (h u)) (h u)

  remove_from_active-IsDistinct :
      (i : ℕ) (v : Server Db) → IsDistinct v → IsDistinct (remove_from_active i v)
  unfolding remove_from_active
  remove_from_active-IsDistinct i v h t = elim (Bool-cases (is_empty (v.sess i).active_topic)) [
    | inl e ↦ rw e (h t)
    | inr e ↦ rw e (leave-Distinct (v.sess i).active_topic t i v.clients (h t))
  ]

  writer_step-IsDistinct :
      (i : ℕ) (sent : Bool) (v : Server Db) → IsDistinct v → IsDistinct (writer_step i sent v)
  unfolding writer_step
  writer_step-IsDistinct i sent v h = elim (List-cases (v.sess i).send_q) [
    | inl idle ↦ rw (idle, writer_step) h
    | inr (resp, rest, e) ↦ rw (e, writer_step) (after_send sent rest)
  ]
    where
      popped : List RelayResponse → Server Db
      popped rest = set_sess i (record (v.sess i) { send_q = rest }) v

      after_send :
          (sent : Bool) (rest : List RelayResponse)
          → IsDistinct (if sent then popped rest else detach i (popped rest))
      after_send true rest = h
      after_send false rest = detach-IsDistinct i (popped rest) h

pub IsDistinct-Keeps : (Db : Type 0) → Keeps {Db = Db} IsDistinct
unfolding enqueue_to ensure_topic_bucket
IsDistinct-Keeps Db = record {
  writes = λ v d h. h;
  enqueues = λ i resp v h. h;
  detaches = detach-IsDistinct;
  buckets = λ topic v h t. ensure-Distinct topic t v.clients (h t);
  joins = λ topic i v ne h. add_to_topic-IsDistinct topic i v h;
  leaves = remove_from_active-IsDistinct;
  flags = λ i b v h. h;
  sends = writer_step-IsDistinct;
}

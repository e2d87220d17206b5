-- ===== src/Relay/Replay.antt =====
-- What a subscription does: the replayed history.
use dia.Prelude.{
  ℕ, ◌≡◌, ◌≢◌, refl, ap, ◌∙◌, inl, inr, Bool, true, false, not, ◌&&◌, List, [], ◌∷◌, arith, Bytes,
  str_eq, is_empty, ==_refl, ltb, if◌then◌else◌, Bool-cases, length,
}
use dia.Wire.{RelayRequest, RelayResponse, event}
use dia.Relay.Store.{StoredMsg}
use dia.Relay.Server.{
  Sess, State, World, try_enqueue, enqueue_to, ensure_topic_bucket, add_to_topic,
  remove_from_active, open_topic, switch_from, set_replaying, prepare, fetch, replay, join,
  catch_up, go_live, subscribe_all, handle_subscribe, topic_exists,
}

-- The frames of a history for a subscriber: those of the others, in order.
abbrev pub replayed : RelayRequest → List StoredMsg → List RelayResponse
replayed req [] = []
replayed req (m ∷ ms) =
    if not (is_empty req.sender_id) && str_eq m.sender_id req.sender_id
    then replayed req ms
    else event req.topic m.payload ∷ replayed req ms

abbrev pub offer_all : List RelayResponse → Sess → Sess
offer_all [] s = s
offer_all (r ∷ rs) s = offer_all rs (try_enqueue r s)

module _ (w : World) (i : ℕ) (req : RelayRequest) where
  enqueue_to_self :
      (r : RelayResponse) (v : State w) → (enqueue_to i r v).sess i ≡ try_enqueue r (v.sess i)
  unfolding enqueue_to
  enqueue_to_self r v = ground arith

  enqueue_to_other :
      (r : RelayResponse) (v : State w) (j : ℕ) → j ≢ i → (enqueue_to i r v).sess j ≡ v.sess j
  unfolding enqueue_to
  enqueue_to_other r v j n = ground arith

  replay_self :
      (ms : List StoredMsg) (v : State w)
      → (replay w i req ms v).sess i ≡ offer_all (replayed req ms) (v.sess i)
  unfolding replay
  replay_self [] v = refl
  replay_self (m ∷ ms) v =
      elim (Bool-cases (not (is_empty req.sender_id) && str_eq m.sender_id req.sender_id)) [
        | inl own ↦ rw (own, replay) (replay_self ms v)
        | inr other ↦
            rw (other, replay)
              (replay_self ms _ ∙ ap (offer_all (replayed req ms)) (enqueue_to_self _ v))
      ]

  replay-db : (ms : List StoredMsg) (v : State w) → (replay w i req ms v).db ≡ v.db
  unfolding replay enqueue_to
  replay-db [] v = refl
  replay-db (m ∷ ms) v =
      elim (Bool-cases (not (is_empty req.sender_id) && str_eq m.sender_id req.sender_id)) [
        | inl own ↦ rw (own, replay) (replay-db ms v)
        | inr other ↦ rw (other, replay) (replay-db ms _)
      ]

  replay_other :
      (ms : List StoredMsg) (v : State w) (j : ℕ) → j ≢ i → (replay w i req ms v).sess j ≡ v.sess j
  unfolding replay
  replay_other [] v j n = refl
  replay_other (m ∷ ms) v j n =
      elim (Bool-cases (not (is_empty req.sender_id) && str_eq m.sender_id req.sender_id)) [
        | inl own ↦ rw (own, replay) (replay_other ms v j n)
        | inr other ↦ rw (other, replay) (replay_other ms _ j n ∙ enqueue_to_other _ v j n)
      ]

-- The marks of a session that a subscription sets.
abbrev pub marked : Bytes → Bool → Sess → Sess
marked topic b s = record s { active_topic = topic; replaying = b }

try_enqueue-marked :
    (t : Bytes) (b : Bool) (r : RelayResponse) (s : Sess)
    → try_enqueue r (marked t b s) ≡ marked t b (try_enqueue r s)
unfolding try_enqueue
try_enqueue-marked t b r s = elim (Bool-cases s.closed) [
  | inl e ↦ rw e
  | inr e ↦ rw e (elim (Bool-cases (ltb (length s.send_q) 128)) [ inl l ↦ rw l | inr l ↦ rw l ])
]

offer_all-marked :
    (t : Bytes) (b : Bool) (rs : List RelayResponse) (s : Sess)
    → offer_all rs (marked t b s) ≡ marked t b (offer_all rs s)
offer_all-marked t b [] s = refl
offer_all-marked t b (r ∷ rs) s =
    ap (offer_all rs) (try_enqueue-marked t b r s) ∙ offer_all-marked t b rs (try_enqueue r s)

module _ (w : World) (i : ℕ) (req : RelayRequest) (v : State w) where
  open_topic-sess : (open_topic w req.topic v).sess ≡ v.sess
  unfolding open_topic ensure_topic_bucket
  open_topic-sess = elim (Bool-cases (topic_exists w req.topic v)) [ inl e ↦ rw e | inr e ↦ rw e ]

  switch_from-db : (u : State w) → (switch_from w i req.topic u).db ≡ u.db
  unfolding switch_from remove_from_active
  switch_from-db u = ground arith

  switch_from_self :
      (u : State w)
      → marked req.topic true ((switch_from w i req.topic u).sess i)
        ≡ marked req.topic true (u.sess i)
  unfolding switch_from remove_from_active
  switch_from_self u = ground arith

  switch_from_other :
      (u : State w) (j : ℕ) → j ≢ i → (switch_from w i req.topic u).sess j ≡ u.sess j
  unfolding switch_from remove_from_active
  switch_from_other u j n = ground arith

  abbrev opened : State w
  opened = open_topic w req.topic v

  abbrev pub prepared : State w
  prepared = prepare w i req.topic v

  abbrev pub hist : List StoredMsg
  hist = fetch w req.topic opened

  prepared-db : prepared.db ≡ opened.db
  unfolding prepare set_replaying
  prepared-db = switch_from-db opened

  fetch-db : (u x : State w) → u.db ≡ x.db → fetch w req.topic u ≡ fetch w req.topic x
  unfolding fetch
  fetch-db u x e = rw e

  added_self : (add_to_topic req.topic i prepared).sess i ≡ marked req.topic true (v.sess i)
  unfolding add_to_topic prepare set_replaying
  added_self =
      rw (==_refl i) (
        switch_from_self opened
        ∙ ap (λ (f : ℕ → Sess). marked req.topic true (f i)) open_topic-sess)

  added-db : (add_to_topic req.topic i prepared).db ≡ opened.db
  unfolding add_to_topic
  added-db = prepared-db

  pub hist_lem : fetch w req.topic prepared ≡ hist
  hist_lem = fetch-db prepared opened prepared-db

  abbrev pub joined : State w
  joined = join w i req hist prepared

  pub joined_self : joined.sess i ≡ marked req.topic true (offer_all (replayed req hist) (v.sess i))
  unfolding join
  joined_self =
      replay_self w i req hist (add_to_topic req.topic i prepared)
      ∙ ap (offer_all (replayed req hist)) added_self
      ∙ offer_all-marked req.topic true (replayed req hist) (v.sess i)

  joined-db : joined.db ≡ opened.db
  unfolding join
  joined-db = replay-db w i req hist (add_to_topic req.topic i prepared) ∙ added-db

  nothing_new : ltb (length hist) (length (fetch w req.topic joined)) ≡ false
  nothing_new = rw (fetch-db joined opened joined-db) (ground arith)

  pub caught_up : catch_up w i req hist joined ≡ joined
  unfolding catch_up
  caught_up = rw nothing_new

  -- A subscription to a topic, with no payload and no other stream in between, offers the session
  -- the stored history oldest first, without its own messages, within the limits of its queue;
  -- the topic is then its active one, live delivery is on, and the store is as the opening of the
  -- topic left it.
  pub subscribe_replays :
      is_empty req.topic ≡ false
      → is_empty req.payload ≡ true
      → ((handle_subscribe w i req v).sess i
          ≡ marked req.topic false (offer_all (replayed req hist) (v.sess i)))
        × ((handle_subscribe w i req v).db ≡ opened.db)
  unfolding handle_subscribe subscribe_all go_live set_replaying
  subscribe_replays t p =
      rw (t, p)
        (rw (hist_lem, caught_up)
          (
            rw (==_refl i) (ap (λ (s : Sess). record s { replaying = false }) joined_self),
            joined-db,
          ))

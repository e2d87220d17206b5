-- ===== src/Relay/Fanout.antt =====
-- What a publish does to every session, to the topics and to the store.
use dia.Prelude.{
  Option-cases, Bytes, ℕ, ◌≡◌, refl, ap, ◌∙◌, inl, inr, Bool, true, false, not, ◌&&◌, ◌||◌, List,
  [], ◌∷◌, arith, str_eq, is_empty, ◌==◌, if◌then◌else◌, Bool-cases,
}
use dia.Wire.{RelayRequest, RelayResponse, event}
use dia.Relay.Server.{
  Sess, Server, State, World, member, subscribers, try_enqueue, enqueue_to, send_error, offer,
  fan_out, is_terminal, topic_exists, persist, clear, deliver, handle_publish,
}
use dia.Relay.Store.{store_message, delete_topic}
use dia.Relay.Invariant.{IsSound}
use dia.Relay.Distinct.{Distinct}

-- The recipients: those in the set, but not the sender nor a session that replays.
module _ {Db : Type 0} (sender : ℕ) (resp : RelayResponse) where
  offer-sess :
      (k j : ℕ) (v : Server Db)
      → (offer sender resp k v).sess j ≡ (
          if k == j && (not (j == sender) && not (v.sess j).replaying)
          then try_enqueue resp (v.sess j)
          else v.sess j)
  unfolding offer
  offer-sess k j v = ground arith

  offer-clients : (k : ℕ) (v : Server Db) → (offer sender resp k v).clients ≡ v.clients
  unfolding offer enqueue_to
  offer-clients k v = ground arith

  offer-db : (k : ℕ) (v : Server Db) → (offer sender resp k v).db ≡ v.db
  unfolding offer enqueue_to
  offer-db k v = ground arith

  fan_out-sess :
      (js : List ℕ) (v : Server Db) (j : ℕ)
      → Distinct js
      → (fan_out sender resp js v).sess j ≡ (
          if member j js && (not (j == sender) && not (v.sess j).replaying)
          then try_enqueue resp (v.sess j)
          else v.sess j)
  unfolding fan_out member
  fan_out-sess [] v j d = refl
  fan_out-sess (k ∷ js) v j d =
      ground (arith, fan_out-sess js (offer sender resp k v) j d.1, offer-sess k j v)

  fan_out-clients : (js : List ℕ) (v : Server Db) → (fan_out sender resp js v).clients ≡ v.clients
  unfolding fan_out
  fan_out-clients [] v = refl
  fan_out-clients (k ∷ js) v = fan_out-clients js (offer sender resp k v) ∙ offer-clients k v

  fan_out-db : (js : List ℕ) (v : Server Db) → (fan_out sender resp js v).db ≡ v.db
  unfolding fan_out
  fan_out-db [] v = refl
  fan_out-db (k ∷ js) v = fan_out-db js (offer sender resp k v) ∙ offer-db k v

module _ (w : World) (v : State w) where
  -- A topic that a session stands on exists.
  pub placed-topic_exists :
      (topic : Bytes) (j : ℕ)
      → member j (subscribers v.clients topic) ≡ true
      → topic_exists w topic v ≡ true
  unfolding topic_exists member
  placed-topic_exists topic j m = elim (Option-cases (v.clients topic)) [
    | inl n ↦ ground arith
    | inr (js, e) ↦ rw (e, topic_exists) refl
  ]

module _ (w : World) (i : ℕ) (req : RelayRequest) (v : State w) where
  -- The store after a delivery: a terminal frame clears the topic, any other is kept.
  abbrev pub db_after : w.redis.Db
  db_after =
      if is_terminal (w.message_type req.payload)
      then (delete_topic w.redis w.codec req.topic v.db).1
      else (store_message w.redis w.codec w.ttl req.topic req.payload req.sender_id v.db).1

  abbrev sent : State w
  sent = fan_out i (event req.topic req.payload) (subscribers v.clients req.topic) (persist w req v)

  persist-sess : (persist w req v).sess ≡ v.sess
  unfolding persist
  persist-sess = elim (Bool-cases (is_terminal (w.message_type req.payload))) [
    | inl e ↦ rw e
    | inr e ↦ rw e
  ]

  persist-clients : (persist w req v).clients ≡ v.clients
  unfolding persist
  persist-clients = elim (Bool-cases (is_terminal (w.message_type req.payload))) [
    | inl e ↦ rw e
    | inr e ↦ rw e
  ]

  clear-sess : (u : State w) → (clear w req u).sess ≡ u.sess
  unfolding clear
  clear-sess u = elim (Bool-cases (is_terminal (w.message_type req.payload))) [
    | inl e ↦ rw e
    | inr e ↦ rw e
  ]

  clear-clients : (u : State w) → (clear w req u).clients ≡ u.clients
  unfolding clear
  clear-clients u = elim (Bool-cases (is_terminal (w.message_type req.payload))) [
    | inl e ↦ rw e
    | inr e ↦ rw e
  ]

  deliver-sess :
      (j : ℕ)
      → Distinct (subscribers v.clients req.topic)
      → (deliver w i req v).sess j ≡ (
          if member j (subscribers v.clients req.topic)
            && (not (j == i) && not (v.sess j).replaying)
          then try_enqueue (event req.topic req.payload) (v.sess j)
          else v.sess j)
  unfolding deliver
  deliver-sess j d =
      ap (λ f. f j) (clear-sess sent)
      ∙ fan_out-sess i (event req.topic req.payload) (subscribers v.clients req.topic)
          (persist w req v) j d
      ∙ ap
          (λ (f : ℕ → Sess).
            if member j (subscribers v.clients req.topic) && (not (j == i) && not (f j).replaying)
            then try_enqueue (event req.topic req.payload) (f j)
            else f j)
          persist-sess

  deliver-clients : (deliver w i req v).clients ≡ v.clients
  unfolding deliver
  deliver-clients =
      clear-clients sent
      ∙ fan_out-clients i _ (subscribers v.clients req.topic) (persist w req v)
      ∙ persist-clients

  deliver-db : (deliver w i req v).db ≡ db_after
  unfolding deliver persist clear
  deliver-db = elim (Bool-cases (is_terminal (w.message_type req.payload))) [
    | inl e ↦ rw e (
        ap (λ d. (delete_topic w.redis w.codec req.topic d).1)
          (fan_out-db i _ (subscribers v.clients req.topic) v))
    | inr e ↦ rw e (fan_out-db i _ (subscribers v.clients req.topic) _)
  ]

  -- An accepted publish on a sound server reaches exactly the sessions whose active topic it is, the
  -- publishing session and those replaying history left out; each gets one event, within the limits
  -- of its queue. No topic is created, and the store keeps the frame, or is cleared by a terminal one.
  pub publish_delivers :
      IsSound v
      → is_empty req.topic ≡ false
      → is_empty req.payload ≡ false
      → topic_exists w req.topic v ≡ true
      → ((j : ℕ)
          → (handle_publish w i req v).sess j ≡ (
              if str_eq (v.sess j).active_topic req.topic
                && (not (j == i) && not (v.sess j).replaying)
              then try_enqueue (event req.topic req.payload) (v.sess j)
              else v.sess j))
        × ((handle_publish w i req v).clients ≡ v.clients)
        × ((handle_publish w i req v).db ≡ db_after)
  unfolding handle_publish
  publish_delivers sound t p e =
      rw (t, p, e)
        (
          λ j. deliver-sess j (sound.distinct req.topic) ∙ rw (sound.placed req.topic j, t),
          deliver-clients,
          deliver-db,
        )

  abbrev pub accepted : Bool
  accepted = not (is_empty req.topic || is_empty req.payload) && topic_exists w req.topic v

  -- No publish, accepted or refused, changes the map of topics; and the store changes only by an
  -- accepted one, on a topic that exists: it keeps the frame, or a terminal frame clears the topic.
  pub publish_never_creates :
      ((handle_publish w i req v).clients ≡ v.clients)
      × ((handle_publish w i req v).db ≡ (if accepted then db_after else v.db))
  unfolding handle_publish send_error enqueue_to
  publish_never_creates = elim (Bool-cases (is_empty req.topic || is_empty req.payload)) [
    | inl e ↦ rw e (refl, refl)
    | inr e ↦ elim (Bool-cases (topic_exists w req.topic v)) [
      | inl t ↦ rw (e, t) (deliver-clients, deliver-db)
      | inr t ↦ rw (e, t) (refl, refl)
    ]
  ]

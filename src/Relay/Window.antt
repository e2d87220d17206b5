-- ===== src/Relay/Window.antt =====
-- The frames that are published while a subscription is between its second fetch and going live.
use dia.Prelude.{
  ℕ, ◌≡◌, ◌≢◌, refl, ap, ◌∙◌, sym, inl, inr, true, false, not, ◌&&◌, List, [], arith, Bytes, str_eq,
  str_eq_refl, is_empty, ◌==◌, ==_refl, ==_iff, if◌then◌else◌, Bool-cases,
}
use dia.Wire.{RelayRequest, event}
use dia.Relay.Store.{StoredMsg, store_message, delete_topic}
use dia.Relay.Server.{
  Sess, State, World, try_enqueue, topic_exists, prepare, fetch, join, catch_up, go_live,
  set_replaying, handle_publish, is_terminal,
}
use dia.Relay.Steps.{Reach, next, prepares, joins, catches, lives}
use dia.Relay.Fanout.{publish_delivers, placed-topic_exists}
use dia.Relay.Invariant.{IsSound, new_server, Reach-IsSound}
use dia.Relay.Replay.{marked, offer_all, replayed, hist, joined, joined_self, hist_lem, caught_up}

not_nil : (s : Bytes) → is_empty s ≡ false → s ≢ []
not_nil s e n = ground arith

here :
    (s : Sess) {topic : Bytes}
    → s.active_topic ≡ topic
    → is_empty topic ≡ false
    → (not (is_empty topic) && str_eq s.active_topic topic) ≡ true
here s {topic} e t = rw (e, t) (str_eq_refl topic)

module _ (s : Sess) (i j : ℕ) (topic : Bytes) (x : Sess) where
  -- A session that replays is passed over, and another one that is live on the topic is not.
  passed_over :
      s.replaying ≡ true
      → (if str_eq s.active_topic topic && (not (i == j) && not s.replaying) then x else s) ≡ s
  passed_over r = ground arith

  offered :
      s.active_topic ≡ topic
      → s.replaying ≡ false
      → j ≢ i
      → (if str_eq s.active_topic topic && (not (i == j) && not s.replaying) then x else s) ≡ x
  offered e r other = simp (e, str_eq_refl topic, differ, r) refl
    where
      differ : (i == j) ≡ false
      differ = elim (Bool-cases (i == j)) [
        | inl h ↦ absurd (other (sym ((==_iff i j).0 h)))
        | inr h ↦ h
      ]

module _ (w : World) (i : ℕ) (req : RelayRequest) (v : State w) where
  abbrev pub first_fetch : List StoredMsg
  first_fetch = fetch w req.topic (prepare w i req.topic v)

  -- The server when the subscription has made its second fetch, with no other stream so far.
  abbrev pub window : State w
  window = catch_up w i req first_fetch (join w i req first_fetch (prepare w i req.topic v))

  window_lem : window ≡ joined w i req v
  window_lem = rw (hist_lem w i req v) (caught_up w i req v)

  window_self :
      window.sess i ≡ marked req.topic true (offer_all (replayed req (hist w i req v)) (v.sess i))
  window_self = ap (λ (u : State w). u.sess i) window_lem ∙ joined_self w i req v

  window_topic : (window.sess i).active_topic ≡ req.topic
  window_topic = ap (λ (s : Sess). s.active_topic) window_self

  window_replays : (window.sess i).replaying ≡ true
  window_replays = ap (λ (s : Sess). s.replaying) window_self

  go_live_self : (u : State w) → (go_live w i u).sess i ≡ record (u.sess i) { replaying = false }
  unfolding go_live set_replaying
  go_live_self u = rw (==_refl i) refl

  module _ (db : w.redis.Db) (reach : Reach w (new_server db) v)
      (t : is_empty req.topic ≡ false) where
    Reach-window : Reach w (new_server db) window
    Reach-window =
        next
          (next (next reach (prepares i req.topic)) (joins i req first_fetch (not_nil req.topic t)))
          (catches i req first_fetch)

    IsSound-window : IsSound window
    IsSound-window = Reach-IsSound w db Reach-window

    IsSound-live : IsSound (go_live w i window)
    IsSound-live = Reach-IsSound w db (next Reach-window (lives i))

    window_exists : topic_exists w req.topic window ≡ true
    window_exists =
        placed-topic_exists w window req.topic i
          (IsSound-window.placed req.topic i ∙ here (window.sess i) window_topic t)

    live_topic : ((go_live w i window).sess i).active_topic ≡ req.topic
    live_topic = ap (λ (s : Sess). s.active_topic) (go_live_self window) ∙ window_topic

    live_replays : ((go_live w i window).sess i).replaying ≡ false
    live_replays = ap (λ (s : Sess). s.replaying) (go_live_self window)

    live_exists : topic_exists w req.topic (go_live w i window) ≡ true
    live_exists =
        placed-topic_exists w (go_live w i window) req.topic i
          (IsSound-live.placed req.topic i ∙ here ((go_live w i window).sess i) live_topic t)

    -- On a server that is reached from its start, a session subscribes to a topic that is not empty, with
    -- no other stream in between up to its second fetch. If another session then publishes a payload
    -- that is not empty on the topic, before the first one goes live, the first one's state and queue end up as if nothing had been
    -- published; the same publish just after it has gone live is offered to it. The store is as
    -- storing the frame leaves it, or, for a terminal frame, as clearing the topic leaves it.
    pub publish_missed :
        (j : ℕ) (payload sender ticket : Bytes) (type : ℕ)
        → is_empty payload ≡ false
        → j ≢ i
        → let frame : RelayRequest = record {
          sender_id = sender;
          type = type;
          topic = req.topic;
          payload = payload;
          ticket = ticket;
        } in
          ((go_live w i (handle_publish w j frame window)).sess i ≡ (go_live w i window).sess i)
          × ((handle_publish w j frame (go_live w i window)).sess i
              ≡ try_enqueue (event req.topic payload) ((go_live w i window).sess i))
          × ((go_live w i (handle_publish w j frame window)).db ≡ (
              if is_terminal (w.message_type payload)
              then (delete_topic w.redis w.codec req.topic window.db).1
              else (store_message w.redis w.codec w.ttl req.topic payload sender window.db).1))
    unfolding go_live
    publish_missed j payload sender ticket type p other =
        let frame : RelayRequest = record {
          sender_id = sender;
          type = type;
          topic = req.topic;
          payload = payload;
          ticket = ticket;
        } in
        let during = publish_delivers w j frame window IsSound-window t p window_exists in
        let after = publish_delivers w j frame (go_live w i window) IsSound-live t p live_exists in
        (
          go_live_self (handle_publish w j frame window)
              ∙ ap (λ (s : Sess). record s { replaying = false })
                  (during.0 i ∙ passed_over (window.sess i) i j req.topic _ window_replays)
              ∙ sym (go_live_self window),
          after.0 i
              ∙ offered ((go_live w i window).sess i) i j req.topic _ live_topic live_replays other,
          during.2,
        )

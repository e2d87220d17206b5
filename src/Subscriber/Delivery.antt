-- ===== src/Subscriber/Delivery.antt =====
-- The way of a payload from one client's `Send` through the relay server to another client.
use dia.Prelude.{
  ℕ, ◌<◌, ◌≡◌, ◌≢◌, refl, sym, subst, ap, ◌∙◌, inl, inr, true, false, List, [], ◌∷◌, ◌++◌, none,
  some, lt→ltb, arith, Bytes, is_empty, str_eq_refl, length, Bool-cases, ◌==◌, ==_iff,
}
use dia.Wire.{RelayRequest, RelayResponse, event, error, publish_type}
use dia.Relay.Server.{
  State, World, Sess, try_enqueue, queue_cap, member, subscribers, handle_publish,
}
use dia.Relay.Tunnel.{refusal, tunnel_step, proceed, dispatch, verify_request_mac}
use dia.Relay.Steps.{Reach}
use dia.Relay.Invariant.{IsSound, new_server, Reach-IsSound}
use dia.Relay.Fanout.{publish_delivers, placed-topic_exists}
use dia.Subscriber.{Session, send_cap, Sent, queued, refused, blocks, build_mac_ticket, send}
use dia.Subscriber.Accepted.{IsIssued, IsAccepted, request, token_of, send-IsAccepted}
use dia.Subscriber.Tunnel.{Incoming, payloads}

-- A frame as the client's `Recv` yields it.
abbrev pub as_incoming : RelayResponse → Incoming
as_incoming (event topic payload) = Incoming.event payload
as_incoming (error topic code text) = Incoming.error_frame

abbrev pub received : List RelayResponse → List Incoming
received [] = []
received (resp ∷ resps) = as_incoming resp ∷ received resps

-- The payloads that a client's `onMessage` gets of a queue that is written to its stream.
abbrev pub heard : List RelayResponse → List Bytes
heard resps = payloads (received resps)

heard-event :
    (resps : List RelayResponse) (topic payload : Bytes)
    → heard (resps ++ event topic payload ∷ []) ≡ heard resps ++ payload ∷ []
unfolding payloads
heard-event [] topic payload = refl
heard-event (event t p ∷ resps) topic payload = ap (◌∷◌ p) (heard-event resps topic payload)
heard-event (error t code text ∷ resps) topic payload = heard-event resps topic payload

try_enqueue-room :
    (resp : RelayResponse) (s : Sess)
    → s.closed ≡ false
    → length s.send_q < queue_cap
    → (try_enqueue resp s).send_q ≡ s.send_q ++ resp ∷ []
unfolding try_enqueue
try_enqueue-room resp s c room = rw (c, lt→ltb (length s.send_q) queue_cap room) refl

-- A session of the server that is open and stands on the topic, has gone live, and has room.
pub record Listens (topic : Bytes) (s : Sess) : Type 0 where
  pub is_subscribed : s.active_topic ≡ topic
  pub is_open : s.closed ≡ false
  pub live : s.replaying ≡ false
  pub room : length s.send_q < queue_cap

module _ (w : World) (v : State w) where
  -- The request with which `Send` publishes.
  abbrev published : Session → Bytes → Bytes → RelayRequest
  published s payload ticket = request w s publish_type s.topic payload ticket

  tunnel_step-published :
      (i : ℕ) (s : Session) (payload ticket : Bytes)
      → refusal w (published s payload ticket) ≡ none
      → tunnel_step w i (some (published s payload ticket)) v
        ≡ handle_publish w i (published s payload ticket) v
  unfolding tunnel_step verify_request_mac proceed dispatch
  tunnel_step-published i s payload ticket ok = rw (verify_request_mac, ok) refl

  -- The frame of the payload stands behind the others in the queue of `j`, and the client there gets
  -- to hear the payload after what it was to hear before.
  abbrev pub IsQueuedFor : ℕ → Bytes → Bytes → State w → Type 0
  IsQueuedFor j topic payload u =
      ((u.sess j).send_q ≡ (v.sess j).send_q ++ event topic payload ∷ [])
      × (heard (u.sess j).send_q ≡ heard (v.sess j).send_q ++ payload ∷ [])

  publish-IsQueuedFor :
      (i j : ℕ) (s : Session) (payload ticket : Bytes)
      → IsSound v
      → is_empty s.topic ≡ false
      → is_empty payload ≡ false
      → j ≢ i
      → Listens s.topic (v.sess j)
      → IsQueuedFor j s.topic payload (handle_publish w i (published s payload ticket) v)
  publish-IsQueuedFor i j s payload ticket sound t p other l =
      (same, ap heard same ∙ heard-event (v.sess j).send_q s.topic payload)
    where
      member_j : member j (subscribers v.clients s.topic) ≡ true
      member_j = sound.placed s.topic j ∙ rw (l.is_subscribed, t) (str_eq_refl s.topic)

      not_sender : (j == i) ≡ false
      not_sender = elim (Bool-cases (j == i)) [
        | inl e ↦ absurd (other ((==_iff j i).0 e))
        | inr e ↦ e
      ]

      same :
          ((handle_publish w i (published s payload ticket) v).sess j).send_q
          ≡ (v.sess j).send_q ++ event s.topic payload ∷ []
      same =
          ap (λ (x : Sess). x.send_q)
            ((publish_delivers w i (published s payload ticket) v sound t p
                (placed-topic_exists w v s.topic j member_j)).0
              j)
          ∙ simp (l.is_subscribed, str_eq_refl s.topic, not_sender, l.live)
              (try_enqueue-room (event s.topic payload) (v.sess j) l.is_open l.room)

  module _ (s : Session) (i j : ℕ) (payload : Bytes) where
    -- The call queues one request, which passes the server's check, and whose step queues the payload
    -- for `j`.
    abbrev pub Arrives : Sent → Type 0
    Arrives (queued s') =
        (req : RelayRequest) × (s'.send_q ≡ s.send_q ++ req ∷ [])
        × (refusal w req ≡ none)
        × IsQueuedFor j s.topic payload (tunnel_step w i (some req) v)
    Arrives _ = ⊥

    -- Take a relay server in any state that it reaches from its start, and a client whose open
    -- session has room, a topic, and a token issued under the server's key, of which libdia makes a
    -- MAC. `Send` of a payload queues one request; when the server receives that request, every
    -- other session of the server that is open and live on the topic and has room has the payload's
    -- frame behind its earlier ones, and its client is handed the payload after the earlier ones.
    pub send-Arrives :
        (db : w.redis.Db) (ticket : Bytes)
        → Reach w (new_server db) v
        → s.closed ≡ false
        → length s.send_q < send_cap
        → is_empty s.topic ≡ false
        → is_empty payload ≡ false
        → IsIssued w.mac w.at_private_key s.ticket
        → build_mac_ticket w.mac publish_type s.topic payload s.ticket s ≡ some ticket
        → j ≢ i
        → Listens s.topic (v.sess j)
        → Arrives (send w.mac payload s)
    send-Arrives db ticket reach is_open room t p iss b other l = arrives _ (
        send-IsAccepted w s is_open room payload ticket p
          (subst (IsIssued w.mac w.at_private_key) (sym own_token) iss) b)
      where
        own_token : token_of w s.ticket s ≡ s.ticket
        own_token = ground arith

        arrives : (r : Sent) → IsAccepted w s publish_type s.topic payload r → Arrives r
        arrives (queued s') (k, same, passes) = (
          published s payload k,
          same,
          passes,
          rw (tunnel_step-published i s payload k passes)
              (publish-IsQueuedFor i j s payload k (Reach-IsSound w db reach) t p other l),
        )
        arrives (refused why) h = h
        arrives (blocks s') h = h

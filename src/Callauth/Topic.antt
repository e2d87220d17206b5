-- ===== src/Callauth/Topic.antt =====
-- The command line client stays on its topic when the peer session came from the cache.
use dia.Prelude.{
  ℕ, ◌≡◌, refl, ◌∙◌, inl, inr, Bool, true, false, ◌||◌, Option, none, some, Bytes, is_empty,
  if◌then◌else◌, length, ltb, Option-cases,
}
use dia.Wire.{RelayRequest, publish_type}
use dia.Subscriber
use dia.Subscriber.{
  Sent, queued, refused, blocks, Immediate, written, by_queue, send_cap, enqueue, with_ticket,
  build_mac_ticket, send, on_stream, send_immediate,
}
use dia.Controller.State.{Dia}
use dia.Callauth.{
  AppConfig, Client, Roles, sent, set_runtime, maybe_schedule_oda, store_blob, bye_sent_by,
  bye_made, send_bye_then_stop, finish_rua,
}
use dia.Callauth.Keep.{IsKept, Parts, handle_message-R, run_oda-R, either_way}
use dia.Callauth.Moves.{Move, receives, asks, Moves, none_yet, later}

-- The session's topic and the flag of a cache hit are as they were.
pub record Stays {D : Type 0} (c c' : Client D) : Type 0 where
  pub topic : c'.session.topic ≡ c.session.topic
  pub hit : c'.runtime.cache_hit ≡ c.runtime.cache_hit

-- A send that leaves the topic.
abbrev pub OnTopic : Bytes → Sent → Type 0
OnTopic t (queued s) = s.topic ≡ t
OnTopic t (refused why) = Unit
OnTopic t (blocks s) = s.topic ≡ t

-- The goodbye takes the current topic too.
abbrev ByOnTopic : Bytes → Immediate → Type 0
ByOnTopic t (written req) = Unit
ByOnTopic t (by_queue s) = OnTopic t s

if_OnTopic :
    (b : Bool) (t : Bytes) (x y : Sent) → OnTopic t x → OnTopic t y → OnTopic t (if b then x else y)
if_OnTopic true t x y p q = p
if_OnTopic false t x y p q = q

enqueue-OnTopic : (req : RelayRequest) (s : Subscriber.Session) → OnTopic s.topic (enqueue req s)
unfolding enqueue
enqueue-OnTopic req s =
    if_OnTopic s.closed s.topic _ _ tt
      (if_OnTopic (ltb (length s.send_q) send_cap) s.topic _ _ refl refl)

with_ticket-OnTopic :
    (type : ℕ) (topic payload : Bytes) (s : Subscriber.Session) (o : Option Bytes)
    → OnTopic s.topic (with_ticket type topic payload s o)
unfolding with_ticket
with_ticket-OnTopic type topic payload s none = tt
with_ticket-OnTopic type topic payload s (some ticket) = enqueue-OnTopic _ s

module _ (lib : Dia) where
  send-OnTopic :
      (payload : Bytes) (s : Subscriber.Session) → OnTopic s.topic (send lib.mac payload s)
  unfolding send
  send-OnTopic payload s = if_OnTopic s.closed s.topic _ _ tt (
      if_OnTopic (is_empty payload) s.topic _ _ tt
        (with_ticket-OnTopic publish_type s.topic payload s _))

module _ {D : Type 0} where
  Stays-IsKept : IsKept {D = D} Stays
  Stays-IsKept = record {
    same = λ c. record { topic = refl; hit = refl };
    after = λ a b c p q. record { topic = q.topic ∙ p.topic; hit = q.hit ∙ p.hit };
    dia = λ d c. record { topic = refl; hit = refl };
  }

  sent-Stays : (s : Sent) (c : Client D) → OnTopic c.session.topic s → Stays c (sent s c).1
  unfolding sent
  sent-Stays (queued s) c e = record { topic = e; hit = refl }
  sent-Stays (refused why) c e = record { topic = refl; hit = refl }
  sent-Stays (blocks s) c e = record { topic = e; hit = refl }

  maybe_schedule_oda-Stays : (cfg : AppConfig) (c : Client D) → Stays c (maybe_schedule_oda cfg c)
  unfolding maybe_schedule_oda
  maybe_schedule_oda-Stays cfg c = elim (Option-cases cfg.oda_delay_sec) [
    | inl off ↦ rw off (Stays-IsKept.same c)
    | inr (n, on) ↦ rw on (
        either_way Stays Stays-IsKept (is_empty cfg.oda_attrs || c.runtime.oda_triggered)
          (Stays-IsKept.same c) (record { topic = refl; hit = refl }))
  ]

  store_blob-Stays : (b : Option Bytes) (c : Client D) → Stays c (store_blob b c)
  unfolding store_blob
  store_blob-Stays none c = Stays-IsKept.same c
  store_blob-Stays (some b) c =
      either_way Stays Stays-IsKept (is_empty b) (Stays-IsKept.same c)
        (record { topic = refl; hit = refl })

  bye_sent_by-Stays :
      (bye : Bytes) (i : Immediate) (c : Client D)
      → ByOnTopic c.session.topic i
      → Stays c (bye_sent_by bye i c)
  unfolding bye_sent_by
  bye_sent_by-Stays bye (written req) c e = record { topic = refl; hit = refl }
  bye_sent_by-Stays bye (by_queue (queued s)) c e = record { topic = e; hit = refl }
  bye_sent_by-Stays bye (by_queue (refused why)) c e = record { topic = refl; hit = refl }
  bye_sent_by-Stays bye (by_queue (blocks s)) c e = record { topic = e; hit = refl }

module _ (lib : Dia) (roles : Roles lib.D) where
  if_ByOnTopic :
      (b : Bool) (t : Bytes) (x y : Immediate)
      → ByOnTopic t x
      → ByOnTopic t y
      → ByOnTopic t (if b then x else y)
  if_ByOnTopic true t x y p q = p
  if_ByOnTopic false t x y p q = q

  on_stream-ByOnTopic :
      (payload : Bytes) (s : Subscriber.Session) (o : Option Bytes)
      → ByOnTopic s.topic (on_stream lib.mac payload s o)
  unfolding on_stream
  on_stream-ByOnTopic payload s none = tt
  on_stream-ByOnTopic payload s (some ticket) =
      if_ByOnTopic s.connected s.topic _ _ tt
        (with_ticket-OnTopic publish_type s.topic payload s (some ticket))

  send_immediate-ByOnTopic :
      (payload : Bytes) (s : Subscriber.Session)
      → ByOnTopic s.topic (send_immediate lib.mac payload s)
  unfolding send_immediate
  send_immediate-ByOnTopic payload s =
      if_ByOnTopic s.closed s.topic _ _ tt
        (if_ByOnTopic (is_empty payload) s.topic _ _ tt (on_stream-ByOnTopic payload s _))

  bye_made-Stays : (o : Option Bytes) (c : Client lib.D) → Stays c (bye_made lib roles o c)
  unfolding bye_made
  bye_made-Stays none c = record { topic = refl; hit = refl }
  bye_made-Stays (some bye) c = bye_sent_by-Stays bye _ c (send_immediate-ByOnTopic bye c.session)

  send_bye_then_stop-Stays : (c : Client lib.D) → Stays c (send_bye_then_stop lib roles c)
  unfolding send_bye_then_stop
  send_bye_then_stop-Stays c =
      let parting : Client lib.D = record c {
        runtime = record c.runtime { bye_sent = true };
        call_state = (lib.create_bye c.call_state).1;
      } in
      either_way Stays Stays-IsKept c.runtime.bye_sent (record { topic = refl; hit = refl })
        (Stays-IsKept.after c parting _ (record { topic = refl; hit = refl })
          (bye_made-Stays (lib.create_bye c.call_state).0 parting))

  finish_rua-Stays : (cfg : AppConfig) (c : Client lib.D) → Stays c (finish_rua lib roles cfg c)
  unfolding finish_rua
  finish_rua-Stays cfg c =
      let scheduled = maybe_schedule_oda cfg c in
      let done = set_runtime (λ r. record r { rua_complete = true }) scheduled in
      let first =
        Stays-IsKept.after c scheduled done (maybe_schedule_oda-Stays cfg c)
          (record { topic = refl; hit = refl }) in
      either_way Stays Stays-IsKept _
        (Stays-IsKept.after c done _ first
          (store_blob-Stays (lib.export_peer_session done.call_state) done))
        first

  module _ (cfg : AppConfig) where
    Stays-Parts : Parts lib roles cfg Stays
    Stays-Parts = record {
      kept = Stays-IsKept;
      sends = λ payload c. sent-Stays _ c (send-OnTopic lib payload c.session);
      rua = finish_rua-Stays cfg;
      bye = send_bye_then_stop-Stays;
      handled = λ c. record { topic = refl; hit = refl };
      stops = λ c. record { topic = refl; hit = refl };
    }

    Move-Stays :
        (c d : Client lib.D) → c.runtime.cache_hit ≡ true → Move lib roles cfg c d → Stays c d
    Move-Stays c _ hit (receives raw) =
        handle_message-R lib roles cfg Stays Stays-Parts raw c (inl hit)
    Move-Stays c _ hit asks = run_oda-R lib roles cfg Stays Stays-Parts c

    -- Whatever messages come and goroutines run: a client that took its peer session from the cache
    -- stays subscribed to the topic that it started with, and goes on to count as one with a cache hit.
    pub Moves-Stays :
        (c d : Client lib.D) → c.runtime.cache_hit ≡ true → Moves lib roles cfg c d → Stays c d
    Moves-Stays c _ hit none_yet = Stays-IsKept.same c
    Moves-Stays c e hit (later {d = d} before move) =
        let first = Moves-Stays c d hit before in
        Stays-IsKept.after c d e first (Move-Stays d e (first.hit ∙ hit) move)

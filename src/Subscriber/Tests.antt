-- ===== src/Subscriber/Tests.antt =====
-- The theorems on accepted requests at a session with a token of 32 zero bytes.
use dia.Prelude.{
  inl, inr, ◌≡◌, ◌≢◌, ℕ, arith, refl, true, false, [], ◌∷◌, ◌++◌, none, some, Bytes, codes,
}
use dia.Wire.{MacLib, RelayRequest, subscribe_type}
use dia.Relay.Store.{Redis, value}
use dia.Relay.Server.{State, World, MsgType, join, add_to_topic, replay}
use dia.Relay.Steps.{Reach, here, next, joins}
use dia.Relay.Invariant.{new_server}
use dia.Subscriber.Delivery.{Listens, Arrives, send-Arrives}
use dia.Subscriber.{resubscribe, Session, build_mac_ticket, send, subscribe_to_new_topic}
use dia.Subscriber.Accepted.{IsIssued, IsAccepted, subscribe_to_new_topic-IsAccepted}
use dia.Subscriber.Tunnel.{
  Round, Code, status, eof, event, dial_fails, streams, new_loop, tunnel_loop, transient,
  reconnects,
}
use dia.Subscriber.Pace.{AreShort, Misses, Drops, tunnel_loop-AreShort, tunnel_loop-paces}
use dia.Subscriber.Welcome.{AllPass, tunnel_loop-AllPass}

token : Bytes
token =
    0 ∷ 0 ∷ 0 ∷ 0 ∷ 0 ∷ 0 ∷ 0 ∷ 0 ∷ 0 ∷ 0 ∷ 0 ∷ 0 ∷ 0 ∷ 0 ∷ 0 ∷ 0 ∷ 0 ∷ 0 ∷ 0 ∷ 0 ∷ 0 ∷ 0 ∷ 0 ∷ 0
    ∷ 0 ∷ 0 ∷ 0 ∷ 0 ∷ 0 ∷ 0 ∷ 0 ∷ 0 ∷ []

-- Each MAC is the token, and every MAC verifies.
abbrev demo_mac : MacLib
demo_mac = record {
  create_message_mac = λ t d. some token;
  verify_message_mac = λ k p d m. some true;
}

abbrev no_redis : Redis
no_redis = record {
  Db = ℕ;
  lpush = λ k v m. (true, m);
  expire = λ k ttl m. (true, m);
  ltrim = λ k first last m. (true, m);
  lrange_all = λ k m. value [];
  key_exists = λ k m. value 0;
  set_key = λ k v ttl m. (true, m);
  del = λ ks m. (true, m);
  llen = λ k m. value 0;
}

abbrev demo : World
demo = record {
  redis = no_redis;
  codec = record { marshal = λ m. none; unmarshal = λ text. none };
  message_type = λ p. some MsgType.ake_request;
  mac = demo_mac;
  at_private_key = [];
  ttl = 20;
}

demo-IsIssued : IsIssued demo_mac [] token
unfolding token
demo-IsIssued = record { mac_length = λ d mac e. ground (arith, e); verifies = λ d mac e. refl }

abbrev client : Session
client = record {
  topic = codes "t";
  ticket = token;
  sender_id = codes "a";
  closed = false;
  connected = true;
  send_q = [];
}

subscribe_to_new_topic-IsAccepted_example :
    IsAccepted demo client subscribe_type
      (codes "u")
      []
      (subscribe_to_new_topic demo_mac (codes "u") [] token client)
unfolding token build_mac_ticket
subscribe_to_new_topic-IsAccepted_example =
    subscribe_to_new_topic-IsAccepted demo client refl (omega arith) (codes "u") [] token
      (token ++ token) refl refl demo-IsIssued refl

abbrev other_subscribes : RelayRequest
other_subscribes = record {
  sender_id = codes "b";
  type = subscribe_type;
  topic = codes "t";
  payload = [];
  ticket = [];
}

-- Session 2 of a new server joins the client's topic.
joined : State demo
unfolding new_server join
joined = join demo 2 other_subscribes [] (new_server 0)

Reach-joined : Reach demo (new_server 0) joined
unfolding joined
Reach-joined = next here (joins 2 other_subscribes [] not_empty)
  where
    not_empty : codes "t" ≢ []
    not_empty e = cc

joined-Listens : Listens (codes "t") (joined.sess 2)
unfolding joined replay add_to_topic
joined-Listens = record { is_subscribed = refl; is_open = refl; live = refl; room = omega arith }

send-Arrives_example :
    Arrives demo joined client 1 2 (codes "hi") (send demo_mac (codes "hi") client)
unfolding token build_mac_ticket
send-Arrives_example =
    send-Arrives demo joined client 1 2 (codes "hi") 0 (token ++ token) Reach-joined refl
      (omega arith) refl refl demo-IsIssued refl (λ e. omega (arith, e)) joined-Listens

abbrev missed : Round
missed = record {
  session = client;
  attempt = dial_fails (status Code.unavailable);
  cancelled = false;
  cancelled_later = false;
}

abbrev ended : Round
ended = record {
  session = client;
  attempt = streams (event (codes "m") ∷ []) eof;
  cancelled = false;
  cancelled_later = false;
}

missed-Misses : Misses demo_mac missed
unfolding transient
missed-Misses = record {
  fault = status Code.unavailable;
  attempt = refl;
  passing = refl;
  live = refl;
  live_later = refl;
}

abbrev first_request : RelayRequest
first_request = record {
  sender_id = codes "a";
  type = subscribe_type;
  topic = codes "t";
  payload = [];
  ticket = token ++ token;
}

ended-Drops : Drops demo_mac ended
unfolding token build_mac_ticket resubscribe reconnects
ended-Drops = record {
  incoming = event (codes "m") ∷ [];
  end = eof;
  request = first_request;
  attempt = refl;
  subscribes = refl;
  passing = refl;
  live = refl;
  live_later = refl;
}

tunnel_loop-AreShort_example :
    AreShort (tunnel_loop demo_mac (missed ∷ ended ∷ missed ∷ []) new_loop)
tunnel_loop-AreShort_example =
    tunnel_loop-AreShort demo_mac (missed ∷ ended ∷ missed ∷ []) new_loop tt

tunnel_loop-paces_example :
    (tunnel_loop demo_mac (missed ∷ missed ∷ ended ∷ missed ∷ []) new_loop).waits
    ≡ some 0 ∷ some 500 ∷ some 0 ∷ some 500 ∷ []
tunnel_loop-paces_example =
    tunnel_loop-paces demo_mac (missed ∷ missed ∷ ended ∷ missed ∷ []) new_loop
      (inl missed-Misses, (inl missed-Misses, (inr ended-Drops, (inl missed-Misses, tt))))

tunnel_loop-AllPass_example : AllPass demo (tunnel_loop demo_mac (missed ∷ ended ∷ []) new_loop)
unfolding token
tunnel_loop-AllPass_example =
    tunnel_loop-AllPass demo (missed ∷ ended ∷ []) new_loop (demo-IsIssued, (demo-IsIssued, tt)) tt

-- ===== src/Subscriber/Welcome.antt =====
-- The SUBSCRIBE that begins each stream of the client is one that the relay server accepts.
use dia.Prelude.{
  ◌≡◌, refl, ◌+◌, inl, inr, Bool, true, false, not, ◌&&◌, List, [], ◌∷◌, ◌++◌, Option, none, some,
  arith, if◌then◌else◌, All, All-append, Option-cases,
}
use dia.Wire.{RelayRequest, subscribe_type}
use dia.Relay.Server.{World}
use dia.Relay.Tunnel.{refusal}
use dia.Subscriber.{Session, resubscribe, backoff, build_mac_ticket}
use dia.Subscriber.Accepted.{IsIssued, token_of, build_mac_ticket-verifies}
use dia.Subscriber.Tunnel.{
  Attempt, dial_fails, subscribe_fails, streams, Round, Loop, Turn, again, returned, transient,
  reconnects, payloads, sleep_and_retry, on_stream_open, with_request, after_dial, turn,
  continue_with, tunnel_loop,
}

module _ (w : World) where
  abbrev pub Passes : RelayRequest → Type 0
  Passes req = refusal w req ≡ none

  -- The token of a round's session was issued under the server's key.
  abbrev pub HasToken : Round → Type 0
  HasToken r = IsIssued w.mac w.at_private_key (token_of w r.session.ticket r.session)

  resubscribe-Passes :
      (s : Session) (req : RelayRequest)
      → IsIssued w.mac w.at_private_key (token_of w s.ticket s)
      → resubscribe w.mac s ≡ some req
      → Passes req
  unfolding resubscribe
  resubscribe-Passes s req iss e =
      elim (Option-cases (build_mac_ticket w.mac subscribe_type s.topic [] s.ticket s)) [
        | inl n ↦ absurd (ground (arith, e, n))
        | inr (ticket, made) ↦
            build_mac_ticket-verifies w subscribe_type s.topic [] s.ticket ticket s iss made req
              (ground (arith, e, made)) (ground (arith, e, made)) (ground (arith, e, made))
              (ground (arith, e, made))
      ]

  abbrev loop_of : Turn → Loop
  loop_of (again l) = l
  loop_of (returned l) = l

  abbrev pub AllPass : Loop → Type 0
  AllPass l = All Passes l.subscribed

  sleep_and_retry-AllPass :
      (retry cancelled : Bool) (l : Loop)
      → AllPass l
      → AllPass (loop_of (sleep_and_retry retry cancelled l))
  unfolding sleep_and_retry
  sleep_and_retry-AllPass retry cancelled l h = either (retry && not cancelled)
    where
      either :
          (b : Bool)
          → AllPass (
              loop_of (
                if b
                then again (record l {
                  waits = l.waits ++ backoff l.backoff_idx ∷ [];
                  backoff_idx = l.backoff_idx + 1;
                })
                else returned l))
      either true = h
      either false = h

  with_request-AllPass :
      (r : Round) (a : Attempt) (o : Option RelayRequest) (l : Loop)
      → ((req : RelayRequest) → o ≡ some req → Passes req)
      → AllPass l
      → AllPass (loop_of (with_request r a o l))
  unfolding with_request on_stream_open
  with_request-AllPass r a none l p h = sleep_and_retry-AllPass true r.cancelled_later l h
  with_request-AllPass r (dial_fails f) (some req) l p h =
      sleep_and_retry-AllPass (transient f) r.cancelled_later l h
  with_request-AllPass r (subscribe_fails f) (some req) l p h =
      sleep_and_retry-AllPass (transient f) r.cancelled_later l h
  with_request-AllPass r (streams incoming end) (some req) l p h =
      sleep_and_retry-AllPass (reconnects end) r.cancelled_later
        (record l {
          backoff_idx = 0;
          subscribed = l.subscribed ++ req ∷ [];
          delivered = l.delivered ++ payloads incoming;
        })
        (All-append Passes l.subscribed (req ∷ []) h (p req refl, tt))

  after_dial-AllPass :
      (r : Round) (a : Attempt) (l : Loop)
      → HasToken r
      → AllPass l
      → AllPass (loop_of (after_dial w.mac r a l))
  unfolding after_dial
  after_dial-AllPass r (dial_fails f) l iss h =
      sleep_and_retry-AllPass (transient f) r.cancelled_later l h
  after_dial-AllPass r (subscribe_fails f) l iss h =
      with_request-AllPass r (subscribe_fails f) (resubscribe w.mac r.session) l
        (λ req e. resubscribe-Passes r.session req iss e) h
  after_dial-AllPass r (streams incoming end) l iss h =
      with_request-AllPass r (streams incoming end) (resubscribe w.mac r.session) l
        (λ req e. resubscribe-Passes r.session req iss e) h

  turn-AllPass :
      (r : Round) (l : Loop) → HasToken r → AllPass l → AllPass (loop_of (turn w.mac r l))
  unfolding turn
  turn-AllPass r l iss h = either r.cancelled
    where
      either :
          (b : Bool) → AllPass (loop_of (if b then returned l else after_dial w.mac r r.attempt l))
      either true = h
      either false = after_dial-AllPass r r.attempt l iss h

  continued :
      (rs : List Round) (t : Turn)
      → AllPass (loop_of t)
      → ((l : Loop) → AllPass l → AllPass (tunnel_loop w.mac rs l))
      → AllPass (continue_with w.mac (tunnel_loop w.mac rs) t)
  unfolding continue_with
  continued rs (again l) h k = k l h
  continued rs (returned l) h k = h

  -- Whatever the network does and however the topic changes between the rounds: if the tokens were
  -- issued under the server's key, every SUBSCRIBE that the loop sends first on a stream passes the
  -- server's MAC check.
  pub tunnel_loop-AllPass :
      (rs : List Round) (l : Loop) → All HasToken rs → AllPass l → AllPass (tunnel_loop w.mac rs l)
  unfolding tunnel_loop
  tunnel_loop-AllPass [] l iss h = h
  tunnel_loop-AllPass (r ∷ rs) l (i, iss) h =
      continued rs (turn w.mac r l) (turn-AllPass r l i h) λ l' h'. tunnel_loop-AllPass rs l' iss h'

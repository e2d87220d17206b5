-- ===== src/Subscriber/Tunnel.antt =====
-- internal/subscriber/session.go: `tunnelLoop`, which opens the stream, reads it and reconnects. What
-- the network and the context do in a round is an input.
use dia.Prelude.{
  ℕ, ◌+◌, Bool, true, false, not, ◌&&◌, List, [], ◌∷◌, ◌++◌, Option, none, some, Bytes,
  if◌then◌else◌,
}
use dia.Wire.{RelayRequest, MacLib}
use dia.Subscriber.{Session, resubscribe, backoff}

-- The codes that `transient` and the read loop name.
pub data Code : Type 0 where
  unavailable resource_exhausted canceled deadline_exceeded other_code : Code

pub data Fault : Type 0 where
  no_status : Fault
  status : Code → Fault

-- What `Recv` returns before the stream ends.
pub data Incoming : Type 0 where
  nothing : Incoming
  event : Bytes → Incoming
  error_frame unknown : Incoming

pub data End : Type 0 where
  eof : End
  broken : Fault → End

-- A round: the dial fails, the SUBSCRIBE cannot be sent, or the stream runs until it ends.
pub data Attempt : Type 0 where
  dial_fails subscribe_fails : Fault → Attempt
  streams : List Incoming → End → Attempt

-- A round with the session as it stands then, and whether the context is cancelled before it, or in
-- it before the wait is over.
pub record Round : Type 0 where
  pub session : Session
  pub attempt : Attempt
  pub cancelled : Bool
  pub cancelled_later : Bool

-- `transient`, while the context is live.
unfoldable pub transient : Fault → Bool
transient no_status = true
transient (status unavailable) = true
transient (status resource_exhausted) = true
transient (status canceled) = true
transient (status deadline_exceeded) = true
transient (status other_code) = false

-- The stream's end that leads to a new one.
unfoldable pub reconnects : End → Bool
reconnects eof = true
reconnects (broken (status canceled)) = false
reconnects (broken (status deadline_exceeded)) = false
reconnects (broken _) = true

-- The payloads that `onMessage` gets.
unfoldable pub payloads : List Incoming → List Bytes
payloads [] = []
payloads (event p ∷ more) = p ∷ payloads more
payloads (nothing ∷ more) = payloads more
payloads (error_frame ∷ more) = payloads more
payloads (unknown ∷ more) = payloads more

-- The loop's index, with its waits, the requests sent first on a stream, and the payloads handed on.
pub record Loop : Type 0 where
  pub backoff_idx : ℕ
  pub waits : List (Option ℕ)
  pub subscribed : List RelayRequest
  pub delivered : List Bytes

abbrev pub new_loop : Loop
new_loop = record { backoff_idx = 0; waits = []; subscribed = []; delivered = [] }

-- What a round leads to.
pub data Turn : Type 0 where
  again returned : Loop → Turn

-- `sleepBackoff`, and the next round; with the context cancelled the loop returns.
unfoldable pub sleep_and_retry : Bool → Bool → Loop → Turn
unfolding backoff
sleep_and_retry retry cancelled l =
    if retry && not cancelled
    then again (record l {
      waits = l.waits ++ backoff l.backoff_idx ∷ [];
      backoff_idx = l.backoff_idx + 1;
    })
    else returned l

unfoldable pub on_stream_open : Round → Attempt → RelayRequest → Loop → Turn
unfolding sleep_and_retry transient reconnects payloads
on_stream_open r (dial_fails f) req l = sleep_and_retry (transient f) r.cancelled_later l
on_stream_open r (subscribe_fails f) req l = sleep_and_retry (transient f) r.cancelled_later l
on_stream_open r (streams incoming end) req l =
    sleep_and_retry (reconnects end) r.cancelled_later (record l {
      backoff_idx = 0;
      subscribed = l.subscribed ++ req ∷ [];
      delivered = l.delivered ++ payloads incoming;
    })

-- An error of libdia has no status, and counts as transient.
unfoldable pub with_request : Round → Attempt → Option RelayRequest → Loop → Turn
unfolding on_stream_open sleep_and_retry
with_request r attempt none l = sleep_and_retry true r.cancelled_later l
with_request r attempt (some req) l = on_stream_open r attempt req l

module _ (lib : MacLib) where
  unfoldable pub after_dial : Round → Attempt → Loop → Turn
  unfolding with_request sleep_and_retry transient
  after_dial r (dial_fails f) l = sleep_and_retry (transient f) r.cancelled_later l
  after_dial r (subscribe_fails f) l =
      with_request r (subscribe_fails f) (resubscribe lib r.session) l
  after_dial r (streams incoming end) l =
      with_request r (streams incoming end) (resubscribe lib r.session) l

  -- One round of `tunnelLoop`.
  unfoldable pub turn : Round → Loop → Turn
  unfolding after_dial
  turn r l = if r.cancelled then returned l else after_dial r r.attempt l

  unfoldable pub continue_with : (Loop → Loop) → Turn → Loop
  continue_with loop (again l) = loop l
  continue_with loop (returned l) = l

  -- `tunnelLoop` over the rounds at hand.
  unfoldable pub tunnel_loop : List Round → Loop → Loop
  unfolding turn continue_with
  tunnel_loop [] l = l
  tunnel_loop (r ∷ rs) l = continue_with (tunnel_loop rs) (turn r l)

-- ===== src/Subscriber/Pace.antt =====
-- How long the client waits before it reconnects.
use dia.Prelude.{
  get_elem?, ℕ, zero, suc, ◌+◌, ◌≤◌, ◌≡◌, refl, sym, ◌⊎◌, ap, ◌∙◌, inl, inr, Bool, true, false, not,
  ◌&&◌, List, [], ◌∷◌, ◌++◌, append_assoc, append-nil, Option, none, some, arith, if◌then◌else◌,
  leb, All, All-append,
}
use dia.Wire.{RelayRequest, MacLib}
use dia.Subscriber.{resubscribe, backoff}
use dia.Subscriber.Tunnel.{
  Incoming, Attempt, dial_fails, subscribe_fails, streams, End, Fault, Round, Loop, Turn, again,
  returned, transient, reconnects, payloads, sleep_and_retry, on_stream_open, with_request,
  after_dial, turn, continue_with, tunnel_loop,
}

-- The waits in milliseconds, written out.
abbrev pub table : List ℕ
table = 0 ∷ 500 ∷ 1000 ∷ 2000 ∷ 5000 ∷ []

-- A wait that the table has, of five seconds at most.
abbrev pub IsShort : Option ℕ → Type 0
IsShort none = ⊥
IsShort (some t) = (t ≤ 5000) × ((n : ℕ) × (get_elem? table n ≡ some t))

at_cap : (n : ℕ) → leb 5 (suc (suc (suc (suc (suc n))))) ≡ true
at_cap n = ground arith

backoff-IsShort : (idx : ℕ) → IsShort (backoff idx)
unfolding backoff
backoff-IsShort zero = (omega arith, (0, refl))
backoff-IsShort (suc zero) = (omega arith, (1, refl))
backoff-IsShort (suc (suc zero)) = (omega arith, (2, refl))
backoff-IsShort (suc (suc (suc zero))) = (omega arith, (3, refl))
backoff-IsShort (suc (suc (suc (suc zero)))) = (omega arith, (4, refl))
backoff-IsShort (suc (suc (suc (suc (suc n))))) = rw (at_cap n) (omega arith, (4, refl))

abbrev loop_of : Turn → Loop
loop_of (again l) = l
loop_of (returned l) = l

-- Every wait so far is short.
abbrev pub AreShort : Loop → Type 0
AreShort l = All IsShort l.waits

sleep_and_retry-AreShort :
    (retry cancelled : Bool) (l : Loop)
    → AreShort l
    → AreShort (loop_of (sleep_and_retry retry cancelled l))
unfolding sleep_and_retry
sleep_and_retry-AreShort retry cancelled l h = either (retry && not cancelled)
  where
    either :
        (b : Bool)
        → AreShort (
            loop_of (
              if b
              then again (record l {
                waits = l.waits ++ backoff l.backoff_idx ∷ [];
                backoff_idx = l.backoff_idx + 1;
              })
              else returned l))
    either true =
        All-append IsShort l.waits (backoff l.backoff_idx ∷ []) h
          (backoff-IsShort l.backoff_idx, tt)
    either false = h

on_stream_open-AreShort :
    (r : Round) (a : Attempt) (req : RelayRequest) (l : Loop)
    → AreShort l
    → AreShort (loop_of (on_stream_open r a req l))
unfolding on_stream_open
on_stream_open-AreShort r (dial_fails f) req l h = sleep_and_retry-AreShort _ _ l h
on_stream_open-AreShort r (subscribe_fails f) req l h = sleep_and_retry-AreShort _ _ l h
on_stream_open-AreShort r (streams incoming end) req l h =
    sleep_and_retry-AreShort _ _
      (record l {
        backoff_idx = 0;
        subscribed = l.subscribed ++ req ∷ [];
        delivered = l.delivered ++ payloads incoming;
      })
      h

with_request-AreShort :
    (r : Round) (a : Attempt) (o : Option RelayRequest) (l : Loop)
    → AreShort l
    → AreShort (loop_of (with_request r a o l))
unfolding with_request
with_request-AreShort r a none l h = sleep_and_retry-AreShort true r.cancelled_later l h
with_request-AreShort r a (some req) l h = on_stream_open-AreShort r a req l h

module _ (lib : MacLib) where
  after_dial-AreShort :
      (r : Round) (a : Attempt) (l : Loop) → AreShort l → AreShort (loop_of (after_dial lib r a l))
  unfolding after_dial
  after_dial-AreShort r (dial_fails f) l h = sleep_and_retry-AreShort _ _ l h
  after_dial-AreShort r (subscribe_fails f) l h =
      with_request-AreShort r (subscribe_fails f) (resubscribe lib r.session) l h
  after_dial-AreShort r (streams incoming end) l h =
      with_request-AreShort r (streams incoming end) (resubscribe lib r.session) l h

  turn-AreShort : (r : Round) (l : Loop) → AreShort l → AreShort (loop_of (turn lib r l))
  unfolding turn
  turn-AreShort r l h = either r.cancelled
    where
      either :
          (b : Bool) → AreShort (loop_of (if b then returned l else after_dial lib r r.attempt l))
      either true = h
      either false = after_dial-AreShort r r.attempt l h

  continued :
      (rs : List Round) (t : Turn)
      → AreShort (loop_of t)
      → ((l : Loop) → AreShort l → AreShort (tunnel_loop lib rs l))
      → AreShort (continue_with lib (tunnel_loop lib rs) t)
  unfolding continue_with
  continued rs (again l) h k = k l h
  continued rs (returned l) h k = h

  -- Whatever the network does, and however long: if the waits so far are of the table 0, 500, 1000,
  -- 2000 and 5000 milliseconds, as they are at the start, so is every wait between two attempts, and
  -- none is longer than five seconds.
  pub tunnel_loop-AreShort :
      (rs : List Round) (l : Loop) → AreShort l → AreShort (tunnel_loop lib rs l)
  unfolding tunnel_loop
  tunnel_loop-AreShort [] l h = h
  tunnel_loop-AreShort (r ∷ rs) l h =
      continued rs (turn lib r l) (turn-AreShort r l h) (tunnel_loop-AreShort rs)

  -- A live round whose dial fails in passing, and one whose stream opens and then ends so that the
  -- client reconnects.
  pub record Misses (r : Round) : Type 0 where
    pub fault : Fault
    pub attempt : r.attempt ≡ dial_fails fault
    pub passing : transient fault ≡ true
    pub live : r.cancelled ≡ false
    pub live_later : r.cancelled_later ≡ false

  pub record Drops (r : Round) : Type 0 where
    pub incoming : List Incoming
    pub end : End
    pub request : RelayRequest
    pub attempt : r.attempt ≡ streams incoming end
    pub subscribes : resubscribe lib r.session ≡ some request
    pub passing : reconnects end ≡ true
    pub live : r.cancelled ≡ false
    pub live_later : r.cancelled_later ≡ false

  -- The wait after n failures in a row, in milliseconds.
  abbrev pub wait_after : ℕ → ℕ
  wait_after zero = 0
  wait_after (suc zero) = 500
  wait_after (suc (suc zero)) = 1000
  wait_after (suc (suc (suc zero))) = 2000
  wait_after (suc (suc (suc (suc n)))) = 5000

  backoff-wait_after : (n : ℕ) → backoff n ≡ some (wait_after n)
  unfolding backoff
  backoff-wait_after zero = refl
  backoff-wait_after (suc zero) = refl
  backoff-wait_after (suc (suc zero)) = refl
  backoff-wait_after (suc (suc (suc zero))) = refl
  backoff-wait_after (suc (suc (suc (suc zero)))) = refl
  backoff-wait_after (suc (suc (suc (suc (suc n))))) = rw (at_cap n) refl

  abbrev pub Retried : Round → Type 0
  Retried r = Misses r ⊎ Drops r

  -- The waits of such rounds, from a number of failures on.
  abbrev pub paces : ℕ → (rs : List Round) → All Retried rs → List (Option ℕ)
  paces n [] h = []
  paces n (r ∷ rs) (inl m, h) = some (wait_after n) ∷ paces (n + 1) rs h
  paces n (r ∷ rs) (inr d, h) = some 0 ∷ paces 1 rs h

  abbrev slept : Loop → Loop
  slept l = record l {
    waits = l.waits ++ backoff l.backoff_idx ∷ [];
    backoff_idx = l.backoff_idx + 1;
  }

  turn-Misses : (r : Round) (l : Loop) → Misses r → turn lib r l ≡ again (slept l)
  unfolding turn after_dial sleep_and_retry
  turn-Misses r l m = ground (arith, m.attempt, m.passing, m.live, m.live_later)

  turn-Drops :
      (r : Round) (l : Loop) (d : Drops r)
      → turn lib r l
        ≡ again (
            slept (record l {
              backoff_idx = 0;
              subscribed = l.subscribed ++ d.request ∷ [];
              delivered = l.delivered ++ payloads d.incoming;
            }))
  unfolding turn after_dial with_request on_stream_open sleep_and_retry
  turn-Drops r l d = ground (arith, d.attempt, d.subscribes, d.passing, d.live, d.live_later)

  -- While dials fail in passing and streams end, the client waits by the number of failed dials since
  -- the last stream: 0, 500, 1000, 2000, then 5000 milliseconds. After a stream it waits 0, and the
  -- stream's own end counts as the first failure.
  pub tunnel_loop-paces :
      (rs : List Round) (l : Loop) (h : All Retried rs)
      → (tunnel_loop lib rs l).waits ≡ l.waits ++ paces l.backoff_idx rs h
  unfolding tunnel_loop continue_with
  tunnel_loop-paces [] l h = sym (append-nil l.waits)
  tunnel_loop-paces (r ∷ rs) l (inl m, h) = rw (turn-Misses r l m) (
      tunnel_loop-paces rs (slept l) h
      ∙ append_assoc l.waits (backoff l.backoff_idx ∷ []) (paces (l.backoff_idx + 1) rs h)
      ∙ ap (λ w. l.waits ++ w ∷ paces (l.backoff_idx + 1) rs h) (backoff-wait_after l.backoff_idx))
  tunnel_loop-paces (r ∷ rs) l (inr d, h) = rw (turn-Drops r l d) (
      tunnel_loop-paces rs
        (slept (record l {
          backoff_idx = 0;
          subscribed = l.subscribed ++ d.request ∷ [];
          delivered = l.delivered ++ payloads d.incoming;
        }))
        h
      ∙ append_assoc l.waits (backoff 0 ∷ []) (paces 1 rs h)
      ∙ ap (λ w. l.waits ++ w ∷ paces 1 rs h) (backoff-wait_after 0))

-- ===== src/Callauth.antt =====
-- cmd/client/callauth/main.go: the command line client that authenticates one call. A handler is one
-- step on the client's state; the state of libdia and the relay session are those of the controller.
pub mod Messages
pub mod Keep
pub mod Flags
pub mod Start
pub mod Moves
pub mod Topic
pub mod Run
pub mod Options
mod Tests
use dia.Prelude.{
  ℕ, ◌+◌, Bool, true, false, not, ◌&&◌, ◌||◌, List, [], ◌∷◌, ◌++◌, Option, none, some, Bytes,
  str_eq, is_empty, if◌then◌else◌,
}
use dia.Relay.Server.{MsgType}
use dia.Subscriber
use dia.Subscriber.{
  Sent, queued, refused, blocks, Immediate, written, by_queue, send, send_to_topic,
  subscribe_to_new_topic, send_immediate,
}
use dia.Controller.State.{Dia}
use dia.Controller.Messages.{or_empty, is_bye}

-- `AppConfig`, the fields that the handlers read; a negative delay is `none`.
pub record AppConfig : Type 0 where
  pub oda_delay_sec : Option ℕ
  pub oda_attrs : List Bytes
  pub bye : Bool
  pub cache_enabled : Bool
  pub self_phone : Bytes

-- `RuntimeState`
pub record RuntimeState : Type 0 where
  pub oda_triggered : Bool
  pub oda_handled : Bool
  pub rua_complete : Bool
  pub bye_sent : Bool
  pub cache_hit : Bool

abbrev pub new_runtime : RuntimeState
new_runtime = record {
  oda_triggered = false;
  oda_handled = false;
  rua_complete = false;
  bye_sent = false;
  cache_hit = false;
}

-- The client's state, with the BYE messages handed to the session, the ODA goroutines started, the peer
-- sessions handed to the cache, and whether `stop` was called.
pub record Client (D : Type 0) : Type 0 where
  pub call_state : D
  pub session : Subscriber.Session
  pub runtime : RuntimeState
  pub byes : List Bytes
  pub oda_tasks : ℕ
  pub stored : List Bytes
  pub stopped : Bool

-- What libdia further tells of a message and of a call state.
pub record Roles (D : Type 0) : Type 0 where
  pub topic_of : Bytes → Bytes
  pub is_recipient : D → Bool
  pub is_caller : D → Bool

abbrev pub Steps : Type 0 → Type 0 → Type 0
Steps D A = Client D → Option A × Client D

unfoldable pub go_on :
    {D A B : Type 0} → (A → Steps D B) → Option A → Client D → Option B × Client D
go_on f none c = (none, c)
go_on f (some x) c = f x c

infixl 5 ◌>>=◌ ◌>>◌
abbrev pub ◌>>=◌ : {D A B : Type 0} → Steps D A → (A → Steps D B) → Steps D B
◌>>=◌ m f = λ c. go_on f (m c).0 (m c).1

abbrev pub ◌>>◌ : {D B : Type 0} → Steps D (Unit {0}) → Steps D B → Steps D B
m >> k = m >>= λ _. k

module _ {D : Type 0} where
  abbrev pub set_runtime : (RuntimeState → RuntimeState) → Client D → Client D
  set_runtime f c = record c { runtime = f c.runtime }

  abbrev pub act : (Client D → Client D) → Steps D (Unit {0})
  act f = λ c. (some tt, f c)

  -- A method of the call state; on an error the handler only logs, and returns.
  unfoldable pub call : {A : Type 0} → (D → Option A × D) → Steps D A
  call f c = ((f c.call_state).0, record c { call_state = (f c.call_state).1 })

  abbrev pub check : (D → Bool × D) → D → Option (Unit {0}) × D
  check f d = (if (f d).0 then some tt else none, (f d).1)

  -- A send, which may be refused, or block the handler for good.
  unfoldable pub sent : Sent → Steps D (Unit {0})
  sent (queued s) c = (some tt, record c { session = s })
  sent (refused why) c = (none, c)
  sent (blocks s) c = (none, record c { session = s })

  abbrev pub send_through : (Subscriber.Session → Sent) → Steps D (Unit {0})
  send_through f = λ c. sent (f c.session) c

  abbrev pub stop : Client D → Client D
  stop c = record c { stopped = true }

  -- `maybeScheduleODA`
  unfoldable pub maybe_schedule_oda : AppConfig → Client D → Client D
  maybe_schedule_oda cfg c = elim cfg.oda_delay_sec [
    | none ↦ c
    | some delay ↦ if is_empty cfg.oda_attrs || c.runtime.oda_triggered then c else record c {
      runtime = record c.runtime { oda_triggered = true };
      oda_tasks = c.oda_tasks + 1;
    }
  ]

  -- The cache gets the exported session; failing is only logged.
  unfoldable pub store_blob : Option Bytes → Client D → Client D
  store_blob none c = c
  store_blob (some blob) c =
      if is_empty blob then c else record c { stored = c.stored ++ blob ∷ [] }

  -- After `SendImmediate` the client stops, unless the queue is full and the send blocks.
  unfoldable pub bye_sent_by : Bytes → Immediate → Client D → Client D
  bye_sent_by bye (written req) c = stop (record c { byes = c.byes ++ bye ∷ [] })
  bye_sent_by bye (by_queue (queued s)) c =
      stop (record c { byes = c.byes ++ bye ∷ []; session = s })
  bye_sent_by bye (by_queue (refused why)) c = stop c
  bye_sent_by bye (by_queue (blocks s)) c = record c { session = s }

module _ (lib : Dia) (roles : Roles lib.D) where
  abbrev C : Type 0
  C = Client lib.D

  abbrev pub run : Steps lib.D (Unit {0}) → C → C
  run m c = (m c).1

  bye_made : Option Bytes → C → C
  unfolding bye_sent_by send_immediate
  bye_made none c = stop c
  bye_made (some bye) c = bye_sent_by bye (send_immediate lib.mac bye c.session) c

  -- `sendByeThenStop`
  unfoldable pub send_bye_then_stop : C → C
  unfolding bye_made
  send_bye_then_stop c =
      let (bye, d) = lib.create_bye c.call_state in
      if c.runtime.bye_sent
      then stop c
      else bye_made bye
          (record c { runtime = record c.runtime { bye_sent = true }; call_state = d })

  -- After RUA: the ODA is scheduled, and the peer session is stored.
  unfoldable pub finish_rua : AppConfig → C → C
  unfolding maybe_schedule_oda store_blob
  finish_rua cfg c =
      let done = set_runtime (λ r. record r { rua_complete = true }) (maybe_schedule_oda cfg c) in
      if cfg.cache_enabled && not (is_empty cfg.self_phone)
      then store_blob (lib.export_peer_session done.call_state) done
      else done

  unfoldable pub recipient_ake_request : Bytes → C → C
  unfolding send
  recipient_ake_request raw =
      run (do response ← call (lib.ake_response raw); send_through (send lib.mac response))

  unfoldable pub recipient_ake_complete : Bytes → C → C
  unfolding subscribe_to_new_topic
  recipient_ake_complete raw = run (do
    call (check (lib.ake_finalize raw))
    rua_topic ← call lib.rua_derive_topic
    call (check lib.transition_to_rua)
    ticket ← call lib.ticket
    send_through (subscribe_to_new_topic lib.mac rua_topic [] ticket)
    call (check lib.rua_init))

  abbrev bye_if_last : AppConfig → C → C
  bye_if_last cfg c =
      if cfg.bye && (elim cfg.oda_delay_sec [ none ↦ true | some n ↦ false ])
      then send_bye_then_stop c
      else c

  unfoldable pub recipient_rua_request : AppConfig → Bytes → C → C
  unfolding send finish_rua send_bye_then_stop
  recipient_rua_request cfg raw c =
      let answer : Steps lib.D (Unit {0}) = do
        response ← call (lib.rua_response raw)
        send_through (send lib.mac response)
        act (finish_rua cfg)
        act (bye_if_last cfg)
      in if c.runtime.rua_complete then c else run answer c

  -- `handleRecipientMessage`
  unfoldable pub handle_recipient : AppConfig → MsgType → Bytes → C → C
  unfolding recipient_ake_request recipient_ake_complete recipient_rua_request
  handle_recipient cfg MsgType.ake_request raw c = recipient_ake_request raw c
  handle_recipient cfg MsgType.ake_complete raw c = recipient_ake_complete raw c
  handle_recipient cfg MsgType.rua_request raw c = recipient_rua_request cfg raw c
  handle_recipient cfg _ raw c = c

  -- A ticket that cannot be had is empty.
  abbrev lenient_ticket : lib.D → Option Bytes × lib.D
  lenient_ticket d = (some (or_empty (lib.ticket d).0), (lib.ticket d).1)

  unfoldable pub caller_ake_response : Bytes → C → C
  unfolding send_to_topic subscribe_to_new_topic
  caller_ake_response raw c =
      let old_topic = or_empty (lib.current_topic c.call_state) in
      let body : Steps lib.D (Unit {0}) = do
        complete ← call (lib.ake_complete raw)
        send_through (send_to_topic lib.mac old_topic complete [])
        rua_topic ← call lib.rua_derive_topic
        rua_request ← call lib.rua_request
        ticket ← call lenient_ticket
        call (check lib.transition_to_rua)
        send_through (subscribe_to_new_topic lib.mac rua_topic rua_request ticket)
      in run body c

  unfoldable pub caller_rua_response : AppConfig → Bytes → C → C
  unfolding finish_rua
  caller_rua_response cfg raw = run (do call (check (lib.rua_finalize raw)); act (finish_rua cfg))

  -- `handleCallerMessage`
  unfoldable pub handle_caller : AppConfig → MsgType → Bytes → C → C
  unfolding caller_ake_response caller_rua_response
  handle_caller cfg MsgType.ake_response raw c = caller_ake_response raw c
  handle_caller cfg MsgType.rua_response raw c = caller_rua_response cfg raw c
  handle_caller cfg _ raw c = c

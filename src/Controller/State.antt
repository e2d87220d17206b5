-- ===== src/Controller/State.antt =====
-- The parts of controller.go that every handler uses: the session at hand with what the handler sends
-- out, the steps that may stop a handler, and the results.
-- A handler is one step on one session: what it reads of the session is what it has just written. Where
-- two goroutines may both pass a test that takes no lock, the second one has a step of its own.
pub use dia.Controller.Data.{
  ℤ, Dia, Config, Reason, Command, CallResult, Task, Act, pos, negsuc, dial, accept, hangup,
  baseline_hangup,
}
use dia.Prelude.{
  ℕ, ◌-◌, ◌/◌, Bool, true, false, ◌||◌, [], ◌∷◌, ◌++◌, Option, none, some, is_empty, ltb, leb,
  if◌then◌else◌, length,
}
use dia.Subscriber
use dia.Subscriber.{Sent, queued, refused, blocks}
use dia.CallManager.{CallState, Outcome, answered, CallSession, cleanup, is_incoming}

abbrev pub result_cap : ℕ
result_cap = 1000

-- `t.UnixMilli()` of a time in nanoseconds.
abbrev pub unix_milli : ℕ → ℕ
unix_milli t = t / 1000000

-- `t.Sub(u).Milliseconds()`, rounded towards zero.
unfoldable pub millis_between : ℕ → ℕ → ℤ
millis_between t u =
    if leb u t
    then pos ((t - u) / 1000000)
    else if ltb (u - t) 1000000
    then pos 0
    else negsuc ((u - t) / 1000000 - 1)

abbrev pub map_time : Option ℕ → Option ℕ
map_time none = none
map_time (some t) = some (unix_milli t)

abbrev pub dial_millis : Option ℕ → Option ℤ
dial_millis none = none
dial_millis (some t) = some (pos (unix_milli t))

-- `UnixMilli` of a time that may be the zero time, the start of year 1.
abbrev pub sent_millis : Option ℕ → ℤ
sent_millis none = negsuc 62135596799999
sent_millis (some t) = pos (unix_milli t)

abbrev pub latency : Option ℕ → Option ℕ → Option ℤ
latency none u = none
latency (some t) none = none
latency (some t) (some u) = some (millis_between t u)

abbrev pub is_zero : Option ℕ → Bool
is_zero none = true
is_zero (some t) = false

module _ {D : Type 0} where
  abbrev pub set_session : (CallSession D → CallSession D) → Act D → Act D
  set_session f a = record a { session = f a.session }

  unfoldable pub command : Command → Act D → Act D
  command c a = record a { commands = a.commands ++ c ∷ [] }

  unfoldable pub spawn : Task → Act D → Act D
  spawn t a = record a { tasks = a.tasks ++ t ∷ [] }

  -- `emitResult`: dropped if the channel is full.
  unfoldable pub emit_result : CallResult → Act D → Act D
  emit_result r a =
      if ltb (length a.results) result_cap then record a { results = a.results ++ r ∷ [] } else a

  -- The fields that every result takes from its session.
  unfoldable pub result_of : Outcome → CallSession D → CallResult
  result_of o s = record {
    attempt_id = s.attempt_id;
    call_id = s.call_id;
    peer_phone = s.peer_phone;
    direction = s.direction;
    protocol_enabled = s.protocol_enabled;
    peer_uri = s.peer_uri;
    dial_sent_ms = dial_millis s.dial_sent_at;
    answered_ms = map_time s.answered_at;
    latency_ms = latency s.answered_at s.dial_sent_at;
    oda_requested_ms = none;
    oda_completed_ms = none;
    oda_latency_ms = none;
    outcome = o;
  }

  -- What `maybeEmitAnsweredResult` does behind its tests, which take no lock: the row, then the flag.
  unfoldable pub emit_answered : Act D → Act D
  unfolding emit_result result_of
  emit_answered a =
      set_session (λ s. record s { answered_result_emitted = true })
        (emit_result (result_of answered a.session) a)

  -- `maybeEmitAnsweredResult`, with no other goroutine between its tests and the flag.
  unfoldable pub maybe_emit_answered : Act D → Act D
  unfolding emit_answered
  maybe_emit_answered a =
      let s = a.session in
      if is_incoming s
        || s.answered_result_emitted
        || is_zero s.dial_sent_at
        || is_zero s.answered_at
      then a
      else emit_answered a

  -- `answerCall`: the reply is only logged.
  unfoldable pub answer_call : Act D → Act D
  unfolding command
  answer_call a = command (accept a.session.call_id) a

  -- `rejectCall`
  unfoldable pub reject_call : ℕ → Reason → Act D → Act D
  unfolding command cleanup
  reject_call code why a =
      let stopped = set_session (λ s. record s { dia_timeout = false }) a in
      let hung =
        if is_empty a.session.call_id
        then stopped
        else command (hangup a.session.call_id code why) stopped in
      record hung {
        session = cleanup (record hung.session { state = CallState.closed });
        removed = true;
      }

-- A handler's steps: a result, or `none` where the handler returns early.
abbrev pub Steps : Type 0 → Type 0 → Type 0
Steps D A = Act D → Option A × Act D

infixl 5 ◌>>=◌ ◌>>◌
unfoldable pub go_on : {D A B : Type 0} → (A → Steps D B) → Option A → Act D → Option B × Act D
go_on f none a = (none, a)
go_on f (some x) a = f x a

abbrev pub ◌>>=◌ : {D A B : Type 0} → Steps D A → (A → Steps D B) → Steps D B
◌>>=◌ m f = λ a. go_on f (m a).0 (m a).1

abbrev pub ◌>>◌ : {D B : Type 0} → Steps D (Unit {0}) → Steps D B → Steps D B
m >> k = m >>= λ _. k

module _ {D : Type 0} where
  unfoldable pub choose : {A : Type 0} → Bool → Steps D A → Steps D A → Act D → Option A × Act D
  choose true m k a = m a
  choose false m k a = k a

  abbrev pub run : Steps D (Unit {0}) → Act D → Act D
  run m a = (m a).1

  -- Always goes on.
  abbrev pub act : (Act D → Act D) → Steps D (Unit {0})
  act f = λ a. (some tt, f a)

  -- The handler returns.
  abbrev pub stop : {A : Type 0} → (Act D → Act D) → Steps D A
  stop f = λ a. (none, f a)

  abbrev pub set_dia : D → Act D → Act D
  set_dia d a = set_session (λ s. record s { dia_state = some d }) a

  -- What a call has returned: on an error `failing` runs and the handler ends.
  unfoldable pub returned : {A : Type 0} → (Act D → Act D) → Option A → Act D → Option A × Act D
  returned failing none a = (none, failing a)
  returned failing (some x) a = (some x, a)

  unfoldable pub call_on :
      {A : Type 0} → (D → Option A × D) → (Act D → Act D) → Act D → Option D → Option A × Act D
  unfolding returned
  call_on f failing a none = (none, a)
  call_on f failing a (some d) = returned failing (f d).0 (set_dia (f d).1 a)

  -- A call of a method of the session's DIA state; on an error `failing` runs and the handler ends.
  abbrev pub call : {A : Type 0} → (D → Option A × D) → (Act D → Act D) → Steps D A
  call f failing = λ a. call_on f failing a a.session.dia_state

  -- A method that returns only an error.
  abbrev pub check : (D → Bool × D) → D → Option (Unit {0}) × D
  check f d = (if (f d).0 then some tt else none, (f d).1)

  abbrev pub keep_controller : Subscriber.Session → Act D → Act D
  keep_controller r a = set_session (λ s. record s { dia_controller = some r }) a

  unfoldable pub sent : (Act D → Act D) → Sent → Act D → Option (Unit {0}) × Act D
  sent failing (queued r) a = (some tt, keep_controller r a)
  sent failing (refused why) a = (none, failing a)
  sent failing (blocks r) a = (none, keep_controller r a)

  unfoldable pub send_on :
      (Subscriber.Session → Sent)
      → (Act D → Act D)
      → Act D
      → Option Subscriber.Session
      → Option (Unit {0}) × Act D
  unfolding sent
  send_on f failing a none = (none, a)
  send_on f failing a (some r) = sent failing (f r) a

  -- A send through the session's relay controller; one that blocks holds the handler up for good.
  abbrev pub send_through : (Subscriber.Session → Sent) → (Act D → Act D) → Steps D (Unit {0})
  send_through f failing = λ a. send_on f failing a a.session.dia_controller

  -- An error that is only logged, and one that is kept in `LastError`.
  abbrev pub logged : Act D → Act D
  logged a = a

  abbrev pub noted : Act D → Act D
  noted a = set_session (λ s. record s { failed = true }) a

  abbrev pub set_state : CallState → Act D → Act D
  set_state st a = set_session (λ s. record s { state = st }) a

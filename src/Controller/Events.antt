-- ===== src/Controller/Events.antt =====
-- controller.go, the events of Baresip and the calls of the controller's users, over the call manager.
use dia.Prelude.{
  ℕ, Bool, true, false, not, ◌&&◌, ◌||◌, List, [], ◌++◌, map, Option, none, some, Bytes, is_empty,
  if◌then◌else◌, get_elem?,
}
use dia.Phone.{extract_phone}
use dia.Subscriber
use dia.Subscriber.{Sent, queued, refused, blocks, send}
use dia.CallManager.{
  CallState, CallSession, call_closed, call_error, cleanup, is_incoming, CallManager,
  new_incoming_session, bind_outgoing, get_by_call_id, remove_session, modify, update_at,
}
use dia.Controller.State.{
  ℤ, sent_millis, Dia, Config, Command, Task, baseline_hangup, CallResult, Act, Steps, ◌>>=◌, ◌>>◌,
  run, act, call, set_state, set_session, command, keep_controller, choose, spawn, emit_result,
  result_of, is_zero, maybe_emit_answered, answer_call,
}
use dia.Controller.Oda.{
  maybe_emit_oda, start_oda_incoming, start_oda_outgoing, has_state, has_controller, hang_up,
}

-- `BaresipEvent`, the fields that the handlers read.
pub record Event : Type 0 where
  pub is_incoming_call : Bool
  pub id : Bytes
  pub peer_uri : Bytes
  pub peer_name : Bytes
  pub account_aor : Bytes

pub data EventType : Type 0 where
  call_incoming call_remote_sdp call_outgoing call_ringing call_answered call_established :
      EventType
  call_was_closed other_event : EventType

-- The controller: the calls, the commands and results sent out, the work of each session that is
-- left to goroutines, and the cache.
pub record Ctl (D : Type 0) : Type 0 where
  pub calls : CallManager D
  pub commands : List Command
  pub results : List CallResult
  pub tasks : List (ℕ × Task)
  pub stored : List Bytes

-- `DialWithSentAt` as it comes back, with the time of sending; an error has the zero time instead.
pub data Dialed : Type 0 where
  accepted rejected : ℕ → Dialed
  failed : Dialed

module _ {D : Type 0} where
  unfoldable pub put : ℕ → Act D → Ctl D → Ctl D
  unfolding remove_session update_at
  put r a c =
      let kept = modify r (λ _. a.session) c.calls in
      record {
        calls = if a.removed then remove_session r kept else kept;
        commands = a.commands;
        results = a.results;
        tasks = c.tasks ++ map (λ t. (r, t)) a.tasks;
        stored = a.stored;
      }

  -- A session as a handler gets it.
  abbrev pub load : CallSession D → Ctl D → Act D
  load s c = record {
    session = s;
    commands = c.commands;
    results = c.results;
    tasks = [];
    stored = c.stored;
    removed = false;
  }

  unfoldable pub run_on : (Act D → Act D) → ℕ → Ctl D → Option (CallSession D) → Ctl D
  unfolding put
  run_on f r c none = c
  run_on f r c (some s) = put r (f (load s c)) c

  -- A handler on the session of a pointer.
  unfoldable pub on_session : (Act D → Act D) → ℕ → Ctl D → Ctl D
  unfolding run_on
  on_session f r c = run_on f r c (get_elem? c.calls.sessions r)

  abbrev pub on_found : (Act D → Act D) → Option ℕ → Ctl D → Ctl D
  on_found f none c = c
  on_found f (some r) c = on_session f r c

  abbrev pub bind_event : Event → Ctl D → Option ℕ × Ctl D
  bind_event ev c =
      let (r, calls) =
        bind_outgoing (extract_phone ev.peer_uri) ev.id ev.peer_uri ev.account_aor c.calls in
      (r, record c { calls = calls })

  -- The session of the event's call-id, or the pending attempt of its peer that it is bound to.
  unfoldable pub find_or_bind : Event → Ctl D → Option ℕ × Ctl D
  unfolding bind_outgoing
  find_or_bind ev c = elim (get_by_call_id ev.id c.calls) [
    | none ↦ bind_event ev c
    | some r ↦ (some r, c)
  ]

  -- `HangupAfterODARequested`, once the call-id is known.
  unfoldable pub hang_up_if_asked : Act D → Act D
  unfolding command
  hang_up_if_asked a =
      if a.session.hangup_after_oda_requested && not (is_empty a.session.call_id)
      then hang_up (set_session (λ s. record s { hangup_after_oda_requested = false }) a)
      else a

  -- What an answered and an established call share.
  unfoldable pub on_answer : Config → ℕ → Act D → Act D
  unfolding maybe_emit_answered start_oda_outgoing start_oda_incoming maybe_emit_oda
      hang_up_if_asked
  on_answer cfg now a =
      let stamped =
        set_session
          (λ s. record s {
            answered_at = if is_zero s.answered_at then some now else s.answered_at;
          })
          a in
      let asked =
        start_oda_incoming cfg now (start_oda_outgoing cfg (maybe_emit_answered stamped)) in
      hang_up_if_asked (maybe_emit_oda asked)

  -- `scheduleBaselineHangup`
  unfoldable pub schedule_baseline_hangup : Act D → Act D
  unfolding spawn
  schedule_baseline_hangup a =
      if is_empty a.session.call_id || a.session.baseline_hangup_scheduled
      then a
      else spawn (baseline_hangup a.session.call_id)
          (set_session (λ s. record s { baseline_hangup_scheduled = true }) a)

  -- `handleCallEstablished`, on its session.
  unfoldable pub on_established : Config → ℕ → Act D → Act D
  unfolding on_answer schedule_baseline_hangup
  on_established cfg now a =
      let up =
        set_session
          (λ s. record s { sip_established = true; state = CallState.baresip_established }) a in
      let answered = on_answer cfg now up in
      if is_incoming answered.session && cfg.baseline
      then schedule_baseline_hangup answered
      else answered

  -- The session is dropped, as `handleCallClosed` and the failed dials do.
  abbrev pub drop_session : Act D → Act D
  drop_session a = record a { session = cleanup a.session; removed = true }

  -- The row of a call that could not be dialed, with the time of sending that it states: no answer is
  -- in it.
  abbrev pub undialed_row : Option ℤ → CallSession D → CallResult
  undialed_row dialed s = record (result_of call_error s) {
    dial_sent_ms = dialed;
    answered_ms = none;
    latency_ms = none;
  }

  unfoldable pub emit_error : Option ℤ → Act D → Act D
  unfolding emit_result result_of
  emit_error dialed a = emit_result (undialed_row dialed a.session) a

-- The session of a dialed call when Baresip has answered: the time of sending, and what follows.
module _ {D : Type 0} where
  unfoldable pub stamp_dialed : Option ℕ → Act D → Act D
  unfolding maybe_emit_answered
  stamp_dialed t a = maybe_emit_answered (set_session (λ s. record s { dial_sent_at = t }) a)

  unfoldable pub not_dialed : Act D → Act D
  unfolding emit_error
  not_dialed a = drop_session (
      emit_error (some (sent_millis a.session.dial_sent_at))
        (set_session (λ s. record s { failed = true }) a))

  unfoldable pub on_dialed : Dialed → Act D → Act D
  unfolding stamp_dialed not_dialed
  on_dialed (accepted t) a = set_state CallState.baresip_dialing (stamp_dialed (some t) a)
  on_dialed (rejected t) a = not_dialed (stamp_dialed (some t) a)
  on_dialed failed a = not_dialed (stamp_dialed none a)

module _ (lib : Dia) (cfg : Config) where
  abbrev pub C : Type 0
  C = Ctl lib.D

  -- A send whose error is only logged; the handler goes on, unless it blocks.
  abbrev pub sent_or_logged : Sent → Act lib.D → Option (Unit {0}) × Act lib.D
  sent_or_logged (queued r) a = (some tt, keep_controller r a)
  sent_or_logged (refused why) a = (some tt, a)
  sent_or_logged (blocks r) a = (none, a)

  abbrev pub send_logged_on :
      Bytes → Option Subscriber.Session → Act lib.D → Option (Unit {0}) × Act lib.D
  send_logged_on payload none a = (some tt, a)
  send_logged_on payload (some r) a = sent_or_logged (send lib.mac payload r) a

  abbrev pub send_logged : Bytes → Steps lib.D (Unit {0})
  send_logged payload = λ a. send_logged_on payload a.session.dia_controller a

  abbrev pub say : Option Bytes → Steps lib.D (Unit {0})
  say none = act (λ a. a)
  say (some b) = send_logged b

  unfoldable pub finish_close : Act lib.D → Act lib.D
  unfolding emit_result result_of cleanup
  finish_close a =
      let closed = set_state CallState.closed a in
      drop_session (emit_result (result_of call_closed closed.session) closed)

  -- `handleCallClosed`, on its session: a BYE is sent if DIA runs.
  unfoldable pub on_closed : Act lib.D → Act lib.D
  unfolding send finish_close
  on_closed a =
      let say_bye : Steps lib.D (Unit {0}) = do
        bye ← call (λ d. (some (lib.create_bye d).0, (lib.create_bye d).1)) (λ a. a)
        say bye
      in let quiet : Steps lib.D (Unit {0}) = act (λ a. a) in
        let body : Steps lib.D (Unit {0}) = do
          choose (has_controller a.session && has_state a.session) say_bye quiet
          act finish_close
        in run body a

  -- A call that rings is answered at once in baseline mode.
  abbrev pub ring_and_answer : Act lib.D → Act lib.D
  ring_and_answer a = answer_call (
      set_session (λ s. record s { protocol_enabled = false; state = CallState.baresip_ringing }) a)

  -- Else the protocol runs first, under its timer.
  abbrev pub begin_protocol : Act lib.D → Act lib.D
  begin_protocol a = spawn Task.run_incoming_dia (
      set_session
        (λ s. record s {
          protocol_enabled = true;
          state = CallState.dia_initializing;
          dia_timeout = true;
        })
        a)

  -- A new incoming session.
  unfoldable pub start_incoming : Event → C → C
  unfolding new_incoming_session on_session answer_call spawn
  start_incoming ev c =
      let (r, calls) = new_incoming_session ev.id ev.peer_uri ev.peer_name ev.account_aor c.calls in
      on_session (if cfg.baseline then ring_and_answer else begin_protocol) r
        (record c { calls = calls })

  abbrev pub is_outgoing_ref : C → Option ℕ → Bool
  is_outgoing_ref c none = false
  is_outgoing_ref c (some r) = elim (get_elem? c.calls.sessions r) [
    | none ↦ false
    | some s ↦ not (is_incoming s)
  ]

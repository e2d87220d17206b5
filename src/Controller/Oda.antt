-- ===== src/Controller/Oda.antt =====
-- controller.go, the on-demand authentication (ODA) that follows an answered call: its start, its
-- timer, its request and response, and the result that it emits.
-- Times come from the caller of the handler.
use dia.Prelude.{
  ℕ, Bool, true, false, not, ◌&&◌, ◌||◌, List, Option, none, some, Bytes, is_empty, ltb,
  if◌then◌else◌,
}
use dia.Subscriber.{send}
use dia.CallManager.{
  CallState, Outcome, OdaEnd, oda_done, oda_timed_out, oda_ended, CallSession, is_incoming,
}
use dia.Controller.State.{
  Dia, Config, Reason, hangup, Task, CallResult, Act, Steps, ◌>>=◌, ◌>>◌, run, act, call, check,
  send_through, logged, set_state, set_session, command, spawn, emit_result, result_of, is_zero,
  map_time, latency,
}

abbrev pub has_delay : Config → Bool
has_delay cfg = elim cfg.outgoing_oda_delay [ none ↦ false | some n ↦ true ]

module _ {D : Type 0} where
  -- The row that `maybeEmitODATerminalResult` fills in.
  unfoldable pub oda_result : Outcome → CallSession D → CallResult
  unfolding result_of
  oda_result o s = record (result_of o s) {
    oda_requested_ms = map_time s.oda_requested_at;
    oda_completed_ms = map_time s.oda_completed_at;
    oda_latency_ms = latency s.oda_completed_at s.oda_requested_at;
  }

  unfoldable pub emit_terminal : Option OdaEnd → Act D → Act D
  unfolding emit_result oda_result
  emit_terminal none a = a
  emit_terminal (some o) a =
      emit_result (oda_result (oda_ended o) a.session)
        (set_session (λ s. record s { oda_terminal_emitted = true }) a)

  -- `maybeEmitODATerminalResult`
  unfoldable pub maybe_emit_oda : Act D → Act D
  unfolding emit_terminal
  maybe_emit_oda a =
      let s = a.session in
      if s.oda_terminal_emitted
        || is_zero s.oda_requested_at
        || is_zero s.oda_completed_at
        || is_empty s.call_id
      then a
      else emit_terminal s.oda_terminal_outcome a

  -- Whether the end of a requested ODA is still open.
  abbrev pub should_record : CallSession D → Bool
  should_record s = not (is_zero s.oda_requested_at) && is_zero s.oda_completed_at

  abbrev pub record_end : ℕ → OdaEnd → CallSession D → CallSession D
  record_end now o s = record s { oda_completed_at = some now; oda_terminal_outcome = some o }

  abbrev pub hang_up_later : Act D → Act D
  hang_up_later a = set_session (λ s. record s { hangup_after_oda_requested = true }) a

  abbrev pub hang_up : Act D → Act D
  hang_up a = command (hangup a.session.call_id 0 Reason.none_given) a

  -- The timer's callback.
  unfoldable pub oda_timeout : ℕ → Act D → Act D
  unfolding maybe_emit_oda command
  oda_timeout now a =
      let ended = set_session (record_end now oda_timed_out) a in
      let later = maybe_emit_oda (hang_up_later ended) in
      let soon = hang_up (maybe_emit_oda ended) in
      if should_record a.session then (if is_empty a.session.call_id then later else soon) else a

  abbrev pub arm_oda_timer : Config → Act D → Act D
  arm_oda_timer cfg a =
      set_session (λ s. record s { oda_timeout = ltb 0 cfg.oda_timeout_sec || s.oda_timeout }) a

  abbrev pub has_controller : CallSession D → Bool
  has_controller s = elim s.dia_controller [ none ↦ false | some r ↦ true ]

  abbrev pub has_state : CallSession D → Bool
  has_state s = elim s.dia_state [ none ↦ false | some d ↦ true ]

  -- `startODAAfterAnswerIfConfigured`, for an incoming call.
  unfoldable pub start_oda_incoming : Config → ℕ → Act D → Act D
  unfolding spawn
  start_oda_incoming cfg now a =
      let s = a.session in
      let ready = has_state s && has_controller s && s.dia_done in
      let requested = set_session (λ s. record s { oda_requested_at = some now }) a in
      if cfg.integrated
        && is_incoming s
        && not (is_empty cfg.oda_attributes)
        && ready
        && is_zero s.oda_requested_at
      then spawn (Task.trigger_oda cfg.oda_attributes) (arm_oda_timer cfg requested)
      else a

  -- `startODAAfterAnswerForOutgoingIfConfigured`; its goroutine is `run_outgoing_oda`.
  unfoldable pub start_oda_outgoing : Config → Act D → Act D
  unfolding spawn
  start_oda_outgoing cfg a =
      let s = a.session in
      let configured = has_delay cfg && not (is_empty cfg.oda_attributes) && s.protocol_enabled in
      let unasked = not (s.oda_request_scheduled || not (is_zero s.oda_requested_at)) in
      if not (is_incoming s) && configured && s.dia_done && not (is_zero s.answered_at) && unasked
      then spawn Task.start_outgoing_oda
          (set_session (λ s. record s { oda_request_scheduled = true }) a)
      else a

-- `d.M` and `d.mac` stand for libdia throughout the handlers.
module _ (lib : Dia) where
  -- `triggerODA`
  unfoldable pub trigger_oda : List Bytes → Act lib.D → Act lib.D
  unfolding send
  trigger_oda attributes a =
      let body : Steps lib.D (Unit {0}) = do
        request ← call (lib.oda_request attributes) logged
        send_through (send lib.mac request) logged
        act (set_state CallState.oda_active)
      in if has_state a.session && has_controller a.session then run body a else a

  -- The goroutine, once its delay is over (`cancelled`: the controller stops during the delay).
  unfoldable pub run_outgoing_oda : Config → Bool → ℕ → Act lib.D → Act lib.D
  unfolding trigger_oda
  run_outgoing_oda cfg cancelled now a =
      let requested = set_session (λ s. record s { oda_requested_at = some now }) a in
      if cancelled
      then set_session
          (λ s. record s {
            oda_request_scheduled = not (is_zero s.oda_requested_at) && s.oda_request_scheduled;
          })
          a
      else trigger_oda cfg.oda_attributes (arm_oda_timer cfg requested)

  -- `handleODARequest`
  unfoldable pub handle_oda_request : Bytes → Act lib.D → Act lib.D
  unfolding send
  handle_oda_request raw a =
      let body : Steps lib.D (Unit {0}) = do
        response ← call (lib.oda_response raw) logged
        send_through (send lib.mac response) logged
      in run body a

  -- What follows a verified ODA response, whatever the verification says.
  unfoldable pub finish_oda : ℕ → Act lib.D → Act lib.D
  unfolding maybe_emit_oda command
  finish_oda now a =
      let ended = set_session (record_end now oda_done) a in
      let stopped = set_session (λ s. record s { oda_timeout = false }) ended in
      let emitted = maybe_emit_oda stopped in
      if should_record a.session
      then (if is_empty a.session.call_id then hang_up_later emitted else hang_up emitted)
      else a

  -- `handleODAResponse`
  unfoldable pub handle_oda_response : ℕ → Bytes → Act lib.D → Act lib.D
  unfolding finish_oda
  handle_oda_response now raw a =
      let body : Steps lib.D (Unit {0}) = do
        call (check (lib.oda_verify raw)) logged
        act (finish_oda now)
      in run body a

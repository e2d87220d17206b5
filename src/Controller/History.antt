-- ===== src/Controller/History.antt =====
-- The events of a session respect what their smallest steps respect.
use dia.Prelude.{ℕ, refl, true, false, Option, none, some, Bytes, if◌then◌else◌}
use dia.Subscriber
use dia.Subscriber.{Sent, queued, refused, blocks, send}
use dia.CallManager.{CallState, call_closed, cleanup}
use dia.Controller.State.{
  sent_millis, Dia, Config, Act, set_session, set_state, command, spawn, emit_result, result_of,
  is_zero, maybe_emit_answered, keep_controller, baseline_hangup,
}
use dia.Controller.Oda.{maybe_emit_oda, start_oda_incoming, start_oda_outgoing, hang_up}
use dia.Controller.Keep.{next, called, either_way}
use dia.Controller.Starts.{either_step}
use dia.Controller.Events.{
  Dialed, accepted, rejected, failed, stamp_dialed, not_dialed, on_dialed, drop_session,
  undialed_row, emit_error, hang_up_if_asked, on_answer, schedule_baseline_hangup, on_established,
  say, send_logged_on, sent_or_logged, finish_close, on_closed,
}
use dia.Controller.Leaves.{Leaves}
use dia.Controller.Reports.{parts, start_oda_outgoing-R, start_oda_incoming-R}

module _ {D : Type 0} (R : Act D → Act D → Type 0) (l : Leaves R) where
  hang_up_if_asked-R : (a : Act D) → R a (hang_up_if_asked a)
  unfolding hang_up_if_asked command
  hang_up_if_asked-R a =
      let hung = hang_up (set_session (λ s. record s { hangup_after_oda_requested = false }) a) in
      either_way R l.kept _ (l.quiet a hung refl refl refl refl) (l.kept.same a)

  pub on_answer-R : (cfg : Config) (now : ℕ) (a : Act D) → R a (on_answer cfg now a)
  unfolding on_answer
  on_answer-R cfg now a =
      let stamped =
        set_session
          (λ s. record s {
            answered_at = if is_zero s.answered_at then some now else s.answered_at;
          })
          a in
      let emitted = maybe_emit_answered stamped in
      let out = start_oda_outgoing cfg emitted in
      let asked = start_oda_incoming cfg now out in
      let told = maybe_emit_oda asked in
      l.kept.after a stamped _ (l.quiet a stamped refl refl refl refl) (
        l.kept.after stamped emitted _ (l.answered stamped) (
          l.kept.after emitted out _ (start_oda_outgoing-R R l cfg emitted) (
            l.kept.after out asked _ (start_oda_incoming-R R l cfg now out)
              (l.kept.after asked told _ (l.oda asked) (hang_up_if_asked-R told)))))

  schedule-R : (a : Act D) → R a (schedule_baseline_hangup a)
  unfolding schedule_baseline_hangup spawn
  schedule-R a =
      let done =
        spawn (baseline_hangup a.session.call_id)
          (set_session (λ s. record s { baseline_hangup_scheduled = true }) a) in
      either_way R l.kept _ (l.kept.same a) (l.quiet a done refl refl refl refl)

  pub on_established-R : (cfg : Config) (now : ℕ) (a : Act D) → R a (on_established cfg now a)
  unfolding on_established
  on_established-R cfg now a =
      let up =
        set_session
          (λ s. record s { sip_established = true; state = CallState.baresip_established }) a in
      let answered = on_answer cfg now up in
      let paid =
        l.kept.after a up answered (l.quiet a up refl refl refl refl) (on_answer-R cfg now up) in
      either_way R l.kept _ (l.kept.after a answered _ paid (schedule-R answered)) paid

  not_dialed-R : (a : Act D) → R a (not_dialed a)
  unfolding not_dialed emit_error result_of cleanup
  not_dialed-R a =
      let b = set_session (λ s. record s { failed = true }) a in
      let row = undialed_row (some (sent_millis a.session.dial_sent_at)) b.session in
      let c = emit_result row b in
      l.kept.after a b _ (l.quiet a b refl refl refl refl) (
        l.kept.after b c _ (l.row row refl refl b) (l.quiet c (drop_session c) refl refl refl refl))

  stamp_dialed-R : (t : Option ℕ) (a : Act D) → R a (stamp_dialed t a)
  unfolding stamp_dialed
  stamp_dialed-R t a =
      let b = set_session (λ s. record s { dial_sent_at = t }) a in
      l.kept.after a b _ (l.quiet a b refl refl refl refl) (l.answered b)

  pub on_dialed-R : (reply : Dialed) (a : Act D) → R a (on_dialed reply a)
  unfolding on_dialed
  on_dialed-R (accepted t) a =
      let b = stamp_dialed (some t) a in
      l.kept.after a b _ (stamp_dialed-R (some t) a)
        (l.quiet b (set_state CallState.baresip_dialing b) refl refl refl refl)
  on_dialed-R (rejected t) a =
      let b = stamp_dialed (some t) a in
      l.kept.after a b _ (stamp_dialed-R (some t) a) (not_dialed-R b)
  on_dialed-R failed a =
      let b = stamp_dialed none a in l.kept.after a b _ (stamp_dialed-R none a) (not_dialed-R b)

module _ (lib : Dia) (R : Act lib.D → Act lib.D → Type 0) (l : Leaves R) where
  sent_or_logged-R : (cfg : Config) (r : Sent) (a : Act lib.D) → R a (sent_or_logged lib cfg r a).1
  sent_or_logged-R cfg (queued r) a = l.quiet a (keep_controller r a) refl refl refl refl
  sent_or_logged-R cfg (refused why) a = l.kept.same a
  sent_or_logged-R cfg (blocks r) a = l.kept.same a

  say-R : (cfg : Config) (bye : Option Bytes) (a : Act lib.D) → R a (say lib cfg bye a).1
  say-R cfg none a = l.kept.same a
  say-R cfg (some b) a = send_logged_on-R a.session.dia_controller
    where
      send_logged_on-R : (o : Option Subscriber.Session) → R a (send_logged_on lib cfg b o a).1
      send_logged_on-R none = l.kept.same a
      send_logged_on-R (some r) = sent_or_logged-R cfg (send lib.mac b r) a

  finish_close-R : (cfg : Config) (a : Act lib.D) → R a (finish_close lib cfg a)
  unfolding finish_close result_of cleanup
  finish_close-R cfg a =
      let closed = set_state CallState.closed a in
      let b = emit_result (result_of call_closed closed.session) closed in
      l.kept.after a closed _ (l.quiet a closed refl refl refl refl) (
        l.kept.after closed b _ (l.row (result_of call_closed closed.session) refl refl closed)
          (l.quiet b (drop_session b) refl refl refl refl))

  pub on_closed-R : (cfg : Config) (a : Act lib.D) → R a (on_closed lib cfg a)
  unfolding on_closed
  on_closed-R cfg a =
      next R l.kept _ _
        (either_step lib R (parts lib R l) cfg _ _ _ a
          (next R l.kept _ _ (called R l.kept _ _ _ _ λ b. l.kept.same b) λ bye. say-R cfg bye _)
          (l.kept.same a))
        λ _. finish_close-R cfg _

-- ===== src/Controller/Moves.antt =====
-- Whatever happens to a session respects what the smallest steps respect.
use dia.Prelude.{ℕ, refl, Bool, not, ◌&&◌, Option, some, Bytes, List}
use dia.CallManager.{CallState}
use dia.Controller.State.{Dia, Config, Reason, Act, set_session, set_state, is_zero}
use dia.Controller.Oda.{oda_timeout, trigger_oda, run_outgoing_oda, arm_oda_timer}
use dia.Controller.Keep.{either_way}
use dia.Controller.Parts.{trigger_oda-R}
use dia.Controller.Messages.{handle_dia_message}
use dia.Controller.Protocol.{run_outgoing_dia, run_incoming_dia, handle_dia_timeout}
use dia.Controller.Events.{Dialed, on_dialed, on_answer, on_established, on_closed}
use dia.Controller.Leaves.{Leaves}
use dia.Controller.Reports.{parts, oda_timeout-R, any_message-R}
use dia.Controller.History.{on_answer-R, on_established-R, on_dialed-R, on_closed-R}
use dia.Controller.Starts.{run_outgoing_dia-R, run_incoming_dia-R}

module _ (lib : Dia) (cfg : Config) where
  -- What may happen to a session: a message, a timer, an event, or a goroutine of its own.
  pub data Move : Act lib.D → Act lib.D → Type 0 where
    message :
        (now : ℕ) (raw : Bytes) (a : Act lib.D) → Move a (handle_dia_message lib cfg now raw a)
    dia_timer : (a : Act lib.D) → Move a (handle_dia_timeout a)
    oda_timer : (now : ℕ) (a : Act lib.D) → Move a (oda_timeout now a)
    ringing : (a : Act lib.D) → Move a (set_state CallState.baresip_ringing a)
    answers : (now : ℕ) (a : Act lib.D) → Move a (on_answer cfg now a)
    establishes : (now : ℕ) (a : Act lib.D) → Move a (on_established cfg now a)
    closes : (a : Act lib.D) → Move a (on_closed lib cfg a)
    dials : (reply : Dialed) (a : Act lib.D) → Move a (on_dialed reply a)
    calls_out : (cached : Option Bytes) (a : Act lib.D) → Move a (run_outgoing_dia lib cfg cached a)
    takes_in : (cached : Option Bytes) (a : Act lib.D) → Move a (run_incoming_dia lib cfg cached a)
    delayed_oda :
        (cancelled : Bool) (now : ℕ) (a : Act lib.D)
        → Move a (run_outgoing_oda lib cfg cancelled now a)
    requests_oda : (attributes : List Bytes) (a : Act lib.D) → Move a (trigger_oda lib attributes a)

  module _ (R : Act lib.D → Act lib.D → Type 0) (l : Leaves R) where
    run_outgoing_oda-R :
        (cancelled : Bool) (now : ℕ) (a : Act lib.D)
        → R a (run_outgoing_oda lib cfg cancelled now a)
    unfolding run_outgoing_oda
    run_outgoing_oda-R cancelled now a =
        let reset =
          set_session
            (λ s. record s {
              oda_request_scheduled = not (is_zero s.oda_requested_at) && s.oda_request_scheduled;
            })
            a in
        let armed =
          arm_oda_timer cfg (set_session (λ s. record s { oda_requested_at = some now }) a) in
        either_way R l.kept _ (l.quiet a reset refl refl refl refl) (
          l.kept.after a armed _ (l.quiet a armed refl refl refl refl)
            (trigger_oda-R lib R (parts lib R l) cfg.oda_attributes armed))

    pub Move-R : (a b : Act lib.D) → Move a b → R a b
    unfolding handle_dia_timeout
    Move-R a _ (message now raw _) = any_message-R lib R l cfg now raw a
    Move-R a _ (dia_timer _) = l.reject 603 Reason.authentication_timeout a
    Move-R a _ (oda_timer now _) = oda_timeout-R R l now a
    Move-R a _ (ringing _) = (parts lib R l).state CallState.baresip_ringing a
    Move-R a _ (answers now _) = on_answer-R R l cfg now a
    Move-R a _ (establishes now _) = on_established-R R l cfg now a
    Move-R a _ (closes _) = on_closed-R lib R l cfg a
    Move-R a _ (dials reply _) = on_dialed-R R l reply a
    Move-R a _ (calls_out cached _) = run_outgoing_dia-R lib R (parts lib R l) cfg cached a
    Move-R a _ (takes_in cached _) = run_incoming_dia-R lib R (parts lib R l) cfg cached a
    Move-R a _ (delayed_oda cancelled now _) = run_outgoing_oda-R cancelled now a
    Move-R a _ (requests_oda attributes _) = trigger_oda-R lib R (parts lib R l) attributes a

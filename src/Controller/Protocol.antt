-- ===== src/Controller/Protocol.antt =====
-- controller.go, the goroutines that start the DIA protocol of a call, the DIA timer, and
-- internal/subscriber/controller.go, which opens the relay session.
-- A goroutine is one step here: nothing else changes its session while it runs.
use dia.Prelude.{Bool, true, false, not, [], Option, none, some, Bytes, is_empty, if◌then◌else◌}
use dia.Subscriber
use dia.Subscriber.{new_session, send}
use dia.CallManager.{CallState}
use dia.Controller.State.{
  Dia, Config, Reason, Act, Steps, ◌>>=◌, ◌>>◌, run, act, call, check, send_through, noted,
  set_state, set_dia, keep_controller, choose, reject_call,
}

module _ (lib : Dia) where
  -- The value that is given, unless it is empty.
  abbrev pub given_or : Bytes → Option Bytes → Option Bytes
  given_or given other = if is_empty given then other else some given

  open_with : Option Bytes → Option Bytes → Option Bytes → Option Subscriber.Session
  open_with (some topic) (some ticket) (some sender) = some (new_session topic ticket sender)
  open_with topic ticket sender = none

  -- `subscriber.NewController`: without a topic or a ticket, those of the DIA state are taken.
  unfoldable pub new_controller : Bool → Bytes → Bytes → lib.D → Option Subscriber.Session × lib.D
  unfolding open_with new_session
  new_controller dials topic ticket d =
      let t = given_or topic (lib.current_topic d) in
      let (k, d') : Option Bytes × lib.D =
        if is_empty ticket then lib.ticket d else (some ticket, d) in
      if not dials
      then (none, d)
      else elim t [ none ↦ (none, d) | some x ↦ (open_with (some x) k (lib.sender_id d'), d') ]

  abbrev pub create_with :
      (Act lib.D → Act lib.D) → Option lib.D → Act lib.D → Option (Unit {0}) × Act lib.D
  create_with failing none a = (none, failing a)
  create_with failing (some d) a = (some tt, set_dia d a)

  -- `dia.NewCallState`; the session keeps the state.
  unfoldable pub create_state : Bool → (Act lib.D → Act lib.D) → Steps lib.D (Unit {0})
  create_state outgoing failing a =
      create_with failing (lib.new_call_state a.session.peer_phone outgoing) a

  -- A cached peer session is applied if there is one; a failure counts as a miss.
  unfoldable pub apply_cached : Option Bytes → Steps lib.D Bool
  apply_cached none a = (some false, a)
  apply_cached (some blob) a =
      call (λ d. let (ok, d') = lib.apply_peer_session blob d in (some ok, d')) (λ a. a) a

  module _ (cfg : Config) where
    -- `runOutgoingDIA`; `cached` is what the cache answers.
    unfoldable pub run_outgoing_dia : Option Bytes → Act lib.D → Act lib.D
    unfolding create_state apply_cached new_controller send
    run_outgoing_dia cached a =
        let on_hit : Steps lib.D (Unit {0}) = do
          topic ← call lib.rua_derive_topic noted
          request ← call lib.rua_request noted
          call (check lib.transition_to_rua) noted
          act (set_state CallState.dia_rua_in_progress)
          ticket ← call lib.ticket noted
          controller ← call (new_controller cfg.relay_dials topic ticket) noted
          act (keep_controller controller)
          send_through (send lib.mac request) noted
        in let on_miss : Steps lib.D (Unit {0}) = do
          act (set_state CallState.dia_ake_in_progress)
          controller ← call (new_controller cfg.relay_dials [] []) noted
          act (keep_controller controller)
          request ← call lib.ake_request noted
          send_through (send lib.mac request) noted
          in let body : Steps lib.D (Unit {0}) = do
            create_state true noted
            call (check lib.ake_init) noted
            hit ← apply_cached cached
            choose hit on_hit on_miss
            in run body a

    -- `runIncomingDIA`
    unfoldable pub run_incoming_dia : Option Bytes → Act lib.D → Act lib.D
    unfolding create_state apply_cached new_controller reject_call
    run_incoming_dia cached a =
        let on_hit : Steps lib.D (Unit {0}) = do
          topic ← call lib.rua_derive_topic (reject_call 500 Reason.rua_topic_failed)
          call (check lib.transition_to_rua) (reject_call 500 Reason.rua_transition_failed)
          ticket ← call lib.ticket (reject_call 500 Reason.rua_ticket_failed)
          call (check lib.rua_init) (reject_call 500 Reason.rua_init_failed)
          act (set_state CallState.dia_rua_in_progress)
          controller ←
              call (new_controller cfg.relay_dials topic ticket)
                (reject_call 500 Reason.dia_controller_failed)
          act (keep_controller controller)
        in let on_miss : Steps lib.D (Unit {0}) = do
          act (set_state CallState.dia_ake_in_progress)
          controller ←
              call (new_controller cfg.relay_dials [] [])
                (reject_call 500 Reason.dia_controller_failed)
          act (keep_controller controller)
          in let body : Steps lib.D (Unit {0}) = do
            create_state false (reject_call 500 Reason.dia_init_failed)
            call (check lib.ake_init) (reject_call 500 Reason.ake_init_failed)
            hit ← apply_cached cached
            choose hit on_hit on_miss
            in run body a

-- `handleDIATimeout`
unfoldable pub handle_dia_timeout : {D : Type 0} → Act D → Act D
unfolding reject_call
handle_dia_timeout a = reject_call 603 Reason.authentication_timeout a

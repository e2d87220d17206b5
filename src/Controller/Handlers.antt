-- ===== src/Controller/Handlers.antt =====
-- controller.go, the dispatch of Baresip's events and the calls that a user starts.
use dia.Prelude.{
  ℕ, Bool, true, false, not, ◌&&◌, List, [], ◌∷◌, ◌++◌, Option, none, some, Bytes, is_empty,
  if◌then◌else◌, get_elem?,
}
use dia.Phone.{extract_phone}
use dia.CallManager.{
  CallState, Entries, new_outgoing_attempt, get_by_call_id, get_active_session_by_peer,
  bind_outgoing,
}
use dia.Controller.State.{Dia, Config, Reason, dial, hangup, Task, Act, set_state, spawn}
use dia.Controller.Events.{
  on_dialed, Event, EventType, call_incoming, call_remote_sdp, call_outgoing, call_ringing,
  call_answered, call_established, call_was_closed, other_event, Ctl, Dialed, on_session, on_found,
  bind_event, find_or_bind, on_answer, on_established, on_closed, start_incoming, is_outgoing_ref,
  drop_session, emit_error,
}

module _ (lib : Dia) (cfg : Config) (order : Entries ℕ → Entries ℕ) where
  abbrev pub busy_here : Event → Ctl lib.D → Ctl lib.D
  busy_here ev c =
      if is_empty ev.id
      then c
      else record c { commands = c.commands ++ hangup ev.id 486 Reason.busy_here ∷ [] }

  -- An event that belongs to no attempt: the peer may have one active session unless in baseline mode.
  unfoldable pub admit : Event → Ctl lib.D → Ctl lib.D
  unfolding start_incoming get_active_session_by_peer
  admit ev c =
      let active = get_active_session_by_peer order (extract_phone ev.peer_uri) c.calls in
      let is_active : Bool = elim active [ none ↦ false | some r ↦ true ] in
      if not cfg.baseline && is_active then busy_here ev c else start_incoming lib cfg ev c

  -- `handleIncomingCall`
  unfoldable pub handle_incoming_call : Event → Ctl lib.D → Ctl lib.D
  unfolding admit bind_outgoing
  handle_incoming_call ev c =
      let bound = bind_event ev c in
      let rest : Ctl lib.D = elim bound.0 [ none ↦ admit ev bound.1 | some r ↦ bound.1 ] in
      if is_outgoing_ref lib cfg c (get_by_call_id ev.id c.calls) then c else rest

  -- `handleCallOutgoing`
  unfoldable pub handle_call_outgoing : Event → Ctl lib.D → Ctl lib.D
  unfolding find_or_bind
  handle_call_outgoing ev c = (find_or_bind ev c).1

  -- `handleCallRinging`
  unfoldable pub handle_call_ringing : Event → Ctl lib.D → Ctl lib.D
  unfolding handle_incoming_call on_session bind_outgoing
  handle_call_ringing ev c =
      let ring : Option ℕ × Ctl lib.D → Ctl lib.D =
        λ p. on_found (set_state CallState.baresip_ringing) p.0 p.1 in
      elim (get_by_call_id ev.id c.calls) [
        | some r ↦ ring (some r, c)
        | none ↦ if ev.is_incoming_call then handle_incoming_call ev c else ring (bind_event ev c)
      ]

  abbrev pub on_bound : (Act lib.D → Act lib.D) → Event → Ctl lib.D → Ctl lib.D
  on_bound f ev c = let p = find_or_bind ev c in on_found f p.0 p.1

  -- `handleBaresipEvent`; the other events are only logged or mark the registration.
  unfoldable pub handle_baresip_event : EventType → ℕ → Event → Ctl lib.D → Ctl lib.D
  unfolding find_or_bind on_session on_answer on_established on_closed handle_incoming_call
      handle_call_outgoing handle_call_ringing
  handle_baresip_event call_incoming now ev c = handle_incoming_call ev c
  handle_baresip_event call_remote_sdp now ev c = elim (get_by_call_id ev.id c.calls) [
    | none ↦ handle_incoming_call ev c
    | some r ↦ c
  ]
  handle_baresip_event call_outgoing now ev c = handle_call_outgoing ev c
  handle_baresip_event call_ringing now ev c = handle_call_ringing ev c
  handle_baresip_event call_answered now ev c = on_bound (on_answer cfg now) ev c
  handle_baresip_event call_established now ev c = on_bound (on_established cfg now) ev c
  handle_baresip_event call_was_closed now ev c = on_bound (on_closed lib cfg) ev c
  handle_baresip_event other_event now ev c = c

  abbrev pub begun : Bool → Act lib.D → Act lib.D
  begun protocol a =
      let started = set_state CallState.dia_initializing a in
      if protocol then spawn Task.run_outgoing_dia started else started

  abbrev pub refused : Act lib.D → Act lib.D
  refused a = drop_session (set_state CallState.closed (emit_error none a))

  -- A second call to a peer is refused, with an error row; else the new session starts.
  unfoldable pub begin_with : Bytes → Bool → ℕ → Ctl lib.D → Option ℕ → Option ℕ × Ctl lib.D
  unfolding on_session emit_error spawn
  begin_with number protocol r c (some e) = (none, on_session refused r c)
  begin_with number protocol r c none =
      let started = on_session (begun protocol) r c in
      (some r, record started { commands = started.commands ++ dial number ∷ [] })

  -- `InitiateOutgoingCall` up to the command, which waits for its response; `none` is the refusal.
  unfoldable pub begin_outgoing : Bytes → Bool → Ctl lib.D → Option ℕ × Ctl lib.D
  unfolding new_outgoing_attempt get_active_session_by_peer begin_with
  begin_outgoing number protocol c =
      let peer = extract_phone number in
      let (r, calls) = new_outgoing_attempt peer [] protocol c.calls in
      begin_with number protocol r (record c { calls = calls })
        (get_active_session_by_peer order peer c.calls)

  -- The rest of it, once Baresip has answered; a call that is not dialed leaves an error row.
  unfoldable pub finish_outgoing : Dialed → ℕ → Ctl lib.D → Ctl lib.D
  unfolding on_session on_dialed
  finish_outgoing reply r c = on_session (on_dialed reply) r c

  -- `TriggerODAForCall`; `false` is a returned error.
  unfoldable pub trigger_oda_for_call : Bytes → List Bytes → Ctl lib.D → Bool × Ctl lib.D
  unfolding on_session spawn
  trigger_oda_for_call call_id attributes c =
      let asked : ℕ → Bool =
        λ r. elim (get_elem? c.calls.sessions r) [ none ↦ false | some s ↦ s.dia_done ] in
      elim (get_by_call_id call_id c.calls) [
        | none ↦ (false, c)
        | some r ↦
            if asked r
            then (true, on_session (spawn (Task.trigger_oda attributes)) r c)
            else (false, c)
      ]

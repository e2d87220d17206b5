-- ===== src/Controller/Serve.antt =====
-- The call manager stays sound through the events of Baresip and the calls of the controller's users.
use dia.Prelude.{
  ℕ, refl, inl, inr, Bool, true, false, List, [], Option, none, some, Bytes, is_empty,
  if◌then◌else◌, Bool-cases, Option-cases,
}
use dia.Phone.{extract_phone}
use dia.CallManager.{
  CallState, Entries, cleanup, new_outgoing_attempt, new_incoming_session, get_by_call_id,
  get_active_session_by_peer,
}
use dia.CallManager.Sound.{IsSound}
use dia.CallManager.Kept.{new_incoming_session-IsSound, new_outgoing_attempt-IsSound}
use dia.CallManager.Bound.{bind_outgoing-IsSound}
use dia.Controller.State.{Dia, Config, Task, Act, set_state, spawn, answer_call}
use dia.Controller.Moves.{Move, Move-R, answers, establishes, closes, dials}
use dia.Controller.Events.{
  Ctl, Dialed, Event, EventType, call_incoming, call_remote_sdp, call_outgoing, call_ringing,
  call_answered, call_established, call_was_closed, other_event, on_session, on_found, bind_event,
  find_or_bind, start_incoming, ring_and_answer, begin_protocol, on_dialed, emit_error, on_answer,
  on_established, on_closed,
}
use dia.Controller.Handlers.{
  busy_here, admit, handle_incoming_call, handle_call_outgoing, handle_call_ringing, on_bound,
  handle_baresip_event, begun, refused, begin_with, begin_outgoing, finish_outgoing,
  trigger_oda_for_call,
}
use dia.Controller.Registry.{SameIds, SameIds-leaves, emit-SameIds, on_session-IsSound}

module _ (lib : Dia) (cfg : Config) (order : Entries ℕ → Entries ℕ) where
  abbrev SoundCtl : Ctl lib.D → Type 0
  SoundCtl c = IsSound c.calls

  -- What an event or a call of a user does on a session changes no ids.
  pub Move-SameIds : (a b : Act lib.D) → Move lib cfg a b → SameIds a b
  Move-SameIds a b m = Move-R lib cfg SameIds SameIds-leaves a b m

  on_found-IsSound :
      (f : Act lib.D → Act lib.D) (o : Option ℕ) (c : Ctl lib.D)
      → ((a : Act lib.D) → SameIds a (f a))
      → SoundCtl c
      → SoundCtl (on_found f o c)
  on_found-IsSound f none c i h = h
  on_found-IsSound f (some r) c i h = on_session-IsSound f r c i h

  bind_event-IsSound : (ev : Event) (c : Ctl lib.D) → SoundCtl c → SoundCtl (bind_event ev c).1
  bind_event-IsSound ev c h =
      bind_outgoing-IsSound c.calls h (extract_phone ev.peer_uri) ev.id ev.peer_uri ev.account_aor

  find_or_bind-IsSound : (ev : Event) (c : Ctl lib.D) → SoundCtl c → SoundCtl (find_or_bind ev c).1
  unfolding find_or_bind
  find_or_bind-IsSound ev c h = elim (Option-cases (get_by_call_id ev.id c.calls)) [
    | inl e ↦ rw (e, find_or_bind) (bind_event-IsSound ev c h)
    | inr (r, e) ↦ rw (e, find_or_bind) h
  ]

  start_incoming-IsSound :
      (ev : Event) (c : Ctl lib.D) → SoundCtl c → SoundCtl (start_incoming lib cfg ev c)
  unfolding start_incoming answer_call spawn
  start_incoming-IsSound ev c h =
      let (r, calls) = new_incoming_session ev.id ev.peer_uri ev.peer_name ev.account_aor c.calls in
      on_session-IsSound (if cfg.baseline then ring_and_answer lib cfg else begin_protocol lib cfg)
        r (record c { calls = calls }) (either_way cfg.baseline)
        (new_incoming_session-IsSound c.calls h ev.id ev.peer_uri ev.peer_name ev.account_aor)
    where
      either_way :
          (b : Bool) (a : Act lib.D)
          → SameIds a ((if b then ring_and_answer lib cfg else begin_protocol lib cfg) a)
      either_way true a = refl
      either_way false a = refl

  busy_here-IsSound :
      (ev : Event) (c : Ctl lib.D) → SoundCtl c → SoundCtl (busy_here lib cfg order ev c)
  busy_here-IsSound ev c h = elim (Bool-cases (is_empty ev.id)) [ inl e ↦ rw e h | inr e ↦ rw e h ]

  if-IsSound :
      (b : Bool) (c d : Ctl lib.D) → SoundCtl c → SoundCtl d → SoundCtl (if b then c else d)
  if-IsSound true c d h g = h
  if-IsSound false c d h g = g

  admit-IsSound : (ev : Event) (c : Ctl lib.D) → SoundCtl c → SoundCtl (admit lib cfg order ev c)
  unfolding admit
  admit-IsSound ev c h = if-IsSound _ _ _ (busy_here-IsSound ev c h) (start_incoming-IsSound ev c h)

  handle_incoming_call-IsSound :
      (ev : Event) (c : Ctl lib.D) → SoundCtl c → SoundCtl (handle_incoming_call lib cfg order ev c)
  unfolding handle_incoming_call
  handle_incoming_call-IsSound ev c h =
      if-IsSound _ _ _ h (rest (bind_event ev c).0 (bind_event ev c).1 (bind_event-IsSound ev c h))
    where
      rest :
          (o : Option ℕ) (d : Ctl lib.D)
          → SoundCtl d
          → SoundCtl (elim o [ none ↦ admit lib cfg order ev d | some r ↦ d ])
      rest none d g = admit-IsSound ev d g
      rest (some r) d g = g

  on_bound-IsSound :
      (f : Act lib.D → Act lib.D) (ev : Event) (c : Ctl lib.D)
      → ((a : Act lib.D) → SameIds a (f a))
      → SoundCtl c
      → SoundCtl (on_bound lib cfg order f ev c)
  on_bound-IsSound f ev c i h =
      on_found-IsSound f (find_or_bind ev c).0 (find_or_bind ev c).1 i (find_or_bind-IsSound ev c h)

  handle_call_ringing-IsSound :
      (ev : Event) (c : Ctl lib.D) → SoundCtl c → SoundCtl (handle_call_ringing lib cfg order ev c)
  unfolding handle_call_ringing
  handle_call_ringing-IsSound ev c h = elim (Option-cases (get_by_call_id ev.id c.calls)) [
    | inl e ↦
        rw (e, handle_call_ringing)
          (if-IsSound ev.is_incoming_call (handle_incoming_call lib cfg order ev c)
            (on_found (set_state CallState.baresip_ringing) (bind_event ev c).0 (bind_event ev c).1)
            (handle_incoming_call-IsSound ev c h)
            (on_found-IsSound (set_state CallState.baresip_ringing) (bind_event ev c).0
              (bind_event ev c).1 (λ a. refl) (bind_event-IsSound ev c h)))
    | inr (r, e) ↦
        rw (e, handle_call_ringing)
          (on_session-IsSound (set_state CallState.baresip_ringing) r c (λ a. refl) h)
  ]

  pub handle_baresip_event-IsSound :
      (t : EventType) (now : ℕ) (ev : Event) (c : Ctl lib.D)
      → SoundCtl c
      → SoundCtl (handle_baresip_event lib cfg order t now ev c)
  unfolding handle_baresip_event handle_call_outgoing
  handle_baresip_event-IsSound call_incoming now ev c h = handle_incoming_call-IsSound ev c h
  handle_baresip_event-IsSound call_remote_sdp now ev c h =
      elim (Option-cases (get_by_call_id ev.id c.calls)) [
        | inl e ↦ rw (e, handle_baresip_event) (handle_incoming_call-IsSound ev c h)
        | inr (r, e) ↦ rw (e, handle_baresip_event) h
      ]
  handle_baresip_event-IsSound call_outgoing now ev c h = find_or_bind-IsSound ev c h
  handle_baresip_event-IsSound call_ringing now ev c h = handle_call_ringing-IsSound ev c h
  handle_baresip_event-IsSound call_answered now ev c h =
      on_bound-IsSound (on_answer cfg now) ev c (λ a. Move-SameIds a _ (answers now a)) h
  handle_baresip_event-IsSound call_established now ev c h =
      on_bound-IsSound (on_established cfg now) ev c (λ a. Move-SameIds a _ (establishes now a)) h
  handle_baresip_event-IsSound call_was_closed now ev c h =
      on_bound-IsSound (on_closed lib cfg) ev c (λ a. Move-SameIds a _ (closes a)) h
  handle_baresip_event-IsSound other_event now ev c h = h

  begun-SameIds : (protocol : Bool) (a : Act lib.D) → SameIds a (begun lib cfg order protocol a)
  unfolding spawn
  begun-SameIds true a = refl
  begun-SameIds false a = refl

  refused-SameIds : (a : Act lib.D) → SameIds a (refused lib cfg order a)
  unfolding emit_error cleanup
  refused-SameIds a = emit-SameIds _ a

  begin_with-IsSound :
      (number : Bytes) (protocol : Bool) (r : ℕ) (c : Ctl lib.D) (o : Option ℕ)
      → SoundCtl c
      → SoundCtl (begin_with lib cfg order number protocol r c o).1
  unfolding begin_with
  begin_with-IsSound number protocol r c none h =
      on_session-IsSound (begun lib cfg order protocol) r c (begun-SameIds protocol) h
  begin_with-IsSound number protocol r c (some e) h =
      on_session-IsSound (refused lib cfg order) r c refused-SameIds h

  pub begin_outgoing-IsSound :
      (number : Bytes) (protocol : Bool) (c : Ctl lib.D)
      → SoundCtl c
      → SoundCtl (begin_outgoing lib cfg order number protocol c).1
  unfolding begin_outgoing
  begin_outgoing-IsSound number protocol c h =
      let peer = extract_phone number in
      let (r, calls) = new_outgoing_attempt peer [] protocol c.calls in
      begin_with-IsSound number protocol r (record c { calls = calls })
        (get_active_session_by_peer order peer c.calls)
        (new_outgoing_attempt-IsSound c.calls h peer [] protocol)

  pub finish_outgoing-IsSound :
      (reply : Dialed) (r : ℕ) (c : Ctl lib.D)
      → SoundCtl c
      → SoundCtl (finish_outgoing lib cfg order reply r c)
  unfolding finish_outgoing
  finish_outgoing-IsSound reply r c h =
      on_session-IsSound (on_dialed reply) r c (λ a. Move-SameIds a _ (dials reply a)) h

  if_second :
      (b : Bool) (c d : Ctl lib.D)
      → SoundCtl c
      → SoundCtl d
      → let asked : Bool × Ctl lib.D = if b then (true, c) else (false, d) in SoundCtl asked.1
  if_second true c d h g = h
  if_second false c d h g = g

  spawned : (t : Task) (a : Act lib.D) → SameIds a (spawn t a)
  unfolding spawn
  spawned t a = refl

  pub trigger_oda_for_call-IsSound :
      (call_id : Bytes) (attributes : List Bytes) (c : Ctl lib.D)
      → SoundCtl c
      → SoundCtl (trigger_oda_for_call lib cfg order call_id attributes c).1
  unfolding trigger_oda_for_call
  trigger_oda_for_call-IsSound call_id attributes c h =
      elim (Option-cases (get_by_call_id call_id c.calls)) [
        | inl e ↦ rw (e, trigger_oda_for_call) h
        | inr (r, e) ↦
            rw (e, trigger_oda_for_call)
              (if_second _ (on_session (spawn (Task.trigger_oda attributes)) r c) c
                (on_session-IsSound (spawn (Task.trigger_oda attributes)) r c
                  (spawned (Task.trigger_oda attributes)) h)
                h)
      ]

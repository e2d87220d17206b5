-- ===== src/Controller/Messages.antt =====
-- controller.go, the messages of the DIA protocol: `handleDIAMessage` and the handlers of both roles.
-- A handler that meets an error either logs it, notes it in `LastError` or rejects the call.
use dia.Prelude.{
  ℕ, Bool, true, false, not, ◌&&◌, ◌||◌, [], ◌∷◌, ◌++◌, Option, none, some, Bytes, is_empty, str_eq,
  if◌then◌else◌,
}
use dia.Relay.Server.{MsgType}
use dia.Subscriber.{send, send_to_topic, subscribe_to_new_topic}
use dia.CallManager.{CallState, RemoteParty, is_incoming, is_closed}
use dia.Controller.State.{
  Dia, Config, Reason, Act, Steps, ◌>>=◌, ◌>>◌, run, act, call, check, send_through, logged, noted,
  set_state, set_session, answer_call, reject_call,
}
use dia.Controller.Oda.{
  start_oda_outgoing, handle_oda_request, handle_oda_response, has_state, has_controller,
}

abbrev pub or_empty : Option Bytes → Bytes
or_empty none = []
or_empty (some b) = b

abbrev pub is_verified : Option RemoteParty → Bool
is_verified none = false
is_verified (some p) = p.verified

module _ (lib : Dia) where
  abbrev pub A : Type 0
  A = Act lib.D

  -- A value that is read from the DIA state and changes nothing.
  abbrev pub peek : {B : Type 0} → (lib.D → Option B) → A → Option B
  peek f a = elim a.session.dia_state [ none ↦ none | some d ↦ f d ]

  -- What `RemoteParty` returns beside its error, and what of it counts where the error is tested.
  abbrev pub party : A → Option RemoteParty
  party = peek (λ d. (lib.remote_party d).1)

  abbrev pub sure_party : A → Option RemoteParty
  sure_party = peek (λ d. if (lib.remote_party d).0 then (lib.remote_party d).1 else none)

  -- A method whose error is ignored; its result is then empty.
  abbrev pub lenient : (lib.D → Option Bytes × lib.D) → lib.D → Option Bytes × lib.D
  lenient f d = (some (or_empty (f d).0), (f d).1)

  -- `cacheStorePeerSession`: a blob goes to the cache, which may fail, and failing is only logged.
  unfoldable pub cache_store : Config → Bytes → A → A
  cache_store cfg blob a =
      if cfg.cache_on && not (is_empty blob) then record a { stored = a.stored ++ blob ∷ [] } else a

  -- The remote party is kept, and the peer session of a verified one is exported and stored.
  unfoldable pub keep_remote : Config → Option RemoteParty → A → A
  unfolding cache_store
  keep_remote cfg none a = a
  keep_remote cfg (some p) a =
      let kept = set_session (λ s. record s { remote_party = some p }) a in
      if p.verified
      then cache_store cfg (or_empty (peek lib.export_peer_session kept)) kept
      else kept

  abbrev pub complete : A → A
  complete a = set_session (λ s. record s { dia_done = true; state = CallState.dia_complete }) a

  -- `handleCallerDIAMessage`, `MsgAKEResponse`
  unfoldable pub caller_ake_response : Bytes → A → A
  unfolding send_to_topic subscribe_to_new_topic
  caller_ake_response raw a =
      let old_topic = or_empty (peek lib.current_topic a) in
      let body : Steps lib.D (Unit {0}) = do
        ake_complete ← call (lib.ake_complete raw) noted
        send_through (send_to_topic lib.mac old_topic ake_complete []) logged
        rua_topic ← call lib.rua_derive_topic logged
        rua_request ← call lib.rua_request logged
        ticket ← call (lenient lib.ticket) logged
        call (check lib.transition_to_rua) logged
        act (set_state CallState.dia_rua_in_progress)
        send_through (subscribe_to_new_topic lib.mac rua_topic rua_request ticket) logged
      in run body a

  -- `MsgRUAResponse`
  unfoldable pub caller_rua_response : Config → Bytes → A → A
  unfolding start_oda_outgoing keep_remote
  caller_rua_response cfg raw a =
      let body : Steps lib.D (Unit {0}) = do
        call (check (lib.rua_finalize raw)) noted
        act complete
        act (start_oda_outgoing cfg)
        act (λ a. keep_remote cfg (sure_party a) a)
      in run body a

  -- `handleCallerDIAMessage`
  unfoldable pub handle_caller : Config → ℕ → MsgType → Bytes → A → A
  unfolding caller_ake_response caller_rua_response handle_oda_request handle_oda_response
  handle_caller cfg now MsgType.ake_response raw a = caller_ake_response raw a
  handle_caller cfg now MsgType.rua_response raw a = caller_rua_response cfg raw a
  handle_caller cfg now MsgType.oda_request raw a = handle_oda_request lib raw a
  handle_caller cfg now MsgType.oda_response raw a = handle_oda_response lib now raw a
  handle_caller cfg now _ raw a = a

  -- `handleRecipientDIAMessage`, `MsgAKERequest`
  unfoldable pub recipient_ake_request : Bytes → A → A
  unfolding send reject_call
  recipient_ake_request raw a =
      let body : Steps lib.D (Unit {0}) = do
        response ← call (lib.ake_response raw) (reject_call 500 Reason.ake_failed)
        send_through (send lib.mac response) (reject_call 500 Reason.ake_send_failed)
      in run body a

  -- `MsgAKEComplete`
  unfoldable pub recipient_ake_complete : Bytes → A → A
  unfolding subscribe_to_new_topic reject_call
  recipient_ake_complete raw a =
      let body : Steps lib.D (Unit {0}) = do
        call (check (lib.ake_finalize raw)) (reject_call 500 Reason.ake_finalize_failed)
        rua_topic ← call lib.rua_derive_topic (reject_call 500 Reason.rua_topic_failed)
        call (check lib.transition_to_rua) (reject_call 500 Reason.rua_transition_failed)
        ticket ← call lib.ticket (reject_call 500 Reason.rua_ticket_failed)
        send_through (subscribe_to_new_topic lib.mac rua_topic [] ticket)
            (reject_call 500 Reason.rua_topic_subscribe_failed)
        call (check lib.rua_init) (reject_call 500 Reason.rua_init_failed)
        act (set_state CallState.dia_rua_in_progress)
      in run body a

  -- The decision on the call: the timer is stopped; a verified caller's call is answered.
  unfoldable pub gate : Option RemoteParty → A → A
  unfolding answer_call reject_call
  gate p a =
      let stopped = set_session (λ s. record s { dia_timeout = false }) a in
      if is_verified p then answer_call stopped else reject_call 603 Reason.not_verified stopped

  -- After the RUA response is sent.
  unfoldable pub decide : Config → A → A
  unfolding keep_remote gate
  decide cfg a = let done = complete a in gate (party done) (keep_remote cfg (sure_party done) done)

  -- `MsgRUARequest`
  unfoldable pub recipient_rua_request : Config → Bytes → A → A
  unfolding send reject_call decide
  recipient_rua_request cfg raw a =
      let body : Steps lib.D (Unit {0}) = do
        response ← call (lib.rua_response raw) (reject_call 500 Reason.rua_failed)
        send_through (send lib.mac response) (reject_call 500 Reason.rua_send_failed)
        act (decide cfg)
      in let is_complete : Bool = elim a.session.state [
        | CallState.dia_complete ↦ true
        | _ ↦ false
      ] in
        if is_complete then a else run body a

  -- `handleRecipientDIAMessage`
  unfoldable pub handle_recipient : Config → ℕ → MsgType → Bytes → A → A
  unfolding recipient_ake_request recipient_ake_complete recipient_rua_request handle_oda_request
      handle_oda_response
  handle_recipient cfg now MsgType.ake_request raw a = recipient_ake_request raw a
  handle_recipient cfg now MsgType.ake_complete raw a = recipient_ake_complete raw a
  handle_recipient cfg now MsgType.rua_request raw a = recipient_rua_request cfg raw a
  handle_recipient cfg now MsgType.oda_request raw a = handle_oda_request lib raw a
  handle_recipient cfg now MsgType.oda_response raw a = handle_oda_response lib now raw a
  handle_recipient cfg now _ raw a = a

  abbrev pub is_bye : MsgType → Bool
  is_bye t = elim t [ MsgType.bye ↦ true | _ ↦ false ]

  -- A parsed message: one of our own and a bye end here, the others go to the role's handler.
  unfoldable pub route : Config → ℕ → Bytes → Option (MsgType × Bytes) → A → A
  unfolding handle_caller handle_recipient
  route cfg now raw none a = a
  route cfg now raw (some (t, sender)) a =
      let mine = str_eq sender (or_empty (peek lib.sender_id a)) in
      if mine || is_bye t
      then a
      else if is_incoming a.session
      then handle_recipient cfg now t raw a
      else handle_caller cfg now t raw a

  -- `handleDIAMessage`
  unfoldable pub handle_dia_message : Config → ℕ → Bytes → A → A
  unfolding route
  handle_dia_message cfg now raw a =
      let s = a.session in
      if is_closed s || not (has_state s && has_controller s) || is_empty raw
      then a
      else route cfg now raw (lib.parse_message raw) a

-- ===== src/Controller/Parts.antt =====
-- What the message handlers keep, from what their parts keep.
use dia.Prelude.{ℕ, List, Option, none, some, Bytes}
use dia.Relay.Server.{MsgType}
use dia.CallManager.{CallState, RemoteParty}
use dia.Controller.State.{Dia, Config, Reason, Act, logged, noted, set_state, reject_call}
use dia.Controller.Oda.{
  start_oda_outgoing, finish_oda, handle_oda_request, handle_oda_response, trigger_oda,
}
use dia.Controller.Keep.{IsKept, KeptBy, next, called, sent_through, either_way}
use dia.Controller.Messages.{
  keep_remote, complete, caller_ake_response, caller_rua_response, handle_caller,
  recipient_ake_request, recipient_ake_complete, recipient_rua_request, handle_recipient, decide,
  route, handle_dia_message,
}

module _ (lib : Dia) where
  -- The parts of the handlers that a relation respects.
  pub record Parts (R : Act lib.D → Act lib.D → Type 0) : Type 0 where
    pub kept : IsKept R
    pub reject : (code : ℕ) (why : Reason) → KeptBy R kept (reject_call code why)
    pub state : (st : CallState) → KeptBy R kept (set_state st)
    pub note : KeptBy R kept noted
    pub done : KeptBy R kept (complete lib)
    pub remote : (cfg : Config) (p : Option RemoteParty) → KeptBy R kept (keep_remote lib cfg p)
    pub oda_start : (cfg : Config) → KeptBy R kept (start_oda_outgoing cfg)
    pub oda_finish : (now : ℕ) → KeptBy R kept (finish_oda lib now)

  module _ (R : Act lib.D → Act lib.D → Type 0) (p : Parts R) where
    quiet-R : KeptBy R p.kept logged
    quiet-R a = p.kept.same a

    recipient_ake_request-R : (raw : Bytes) → KeptBy R p.kept (recipient_ake_request lib raw)
    unfolding recipient_ake_request
    recipient_ake_request-R raw a =
        next R p.kept _ _ (called R p.kept _ _ _ _ (p.reject 500 Reason.ake_failed))
          λ r. sent_through R p.kept _ _ _ _ (p.reject 500 Reason.ake_send_failed)

    recipient_ake_complete-R : (raw : Bytes) → KeptBy R p.kept (recipient_ake_complete lib raw)
    unfolding recipient_ake_complete
    recipient_ake_complete-R raw a =
        next R p.kept _ _ (called R p.kept _ _ _ _ (p.reject 500 Reason.ake_finalize_failed)) λ _.
          next R p.kept _ _ (called R p.kept _ _ _ _ (p.reject 500 Reason.rua_topic_failed)) λ _.
            next R p.kept _ _ (called R p.kept _ _ _ _ (p.reject 500 Reason.rua_transition_failed))
              λ _.
                next R p.kept _ _ (called R p.kept _ _ _ _ (p.reject 500 Reason.rua_ticket_failed))
                  λ _.
                    next R p.kept _ _
                      (sent_through R p.kept _ _ _ _
                        (p.reject 500 Reason.rua_topic_subscribe_failed))
                      λ _.
                        next R p.kept _ _
                          (called R p.kept _ _ _ _ (p.reject 500 Reason.rua_init_failed))
                          λ _. p.state CallState.dia_rua_in_progress _

    caller_ake_response-R : (raw : Bytes) → KeptBy R p.kept (caller_ake_response lib raw)
    unfolding caller_ake_response
    caller_ake_response-R raw a = next R p.kept _ _ (called R p.kept _ _ _ _ p.note) λ _.
        next R p.kept _ _ (sent_through R p.kept _ _ _ _ quiet-R) λ _.
          next R p.kept _ _ (called R p.kept _ _ _ _ quiet-R) λ _.
            next R p.kept _ _ (called R p.kept _ _ _ _ quiet-R) λ _.
              next R p.kept _ _ (called R p.kept _ _ _ _ quiet-R) λ _.
                next R p.kept _ _ (called R p.kept _ _ _ _ quiet-R) λ _.
                  next R p.kept _ _ (p.state CallState.dia_rua_in_progress _)
                    λ _. sent_through R p.kept _ _ _ _ quiet-R

    caller_rua_response-R :
        (cfg : Config) (raw : Bytes) → KeptBy R p.kept (caller_rua_response lib cfg raw)
    unfolding caller_rua_response
    caller_rua_response-R cfg raw a = next R p.kept _ _ (called R p.kept _ _ _ _ p.note) λ _.
        next R p.kept _ _ (p.done _)
          λ _. next R p.kept _ _ (p.oda_start cfg _) λ _. p.remote cfg _ _

    handle_oda_request-R : (raw : Bytes) → KeptBy R p.kept (handle_oda_request lib raw)
    unfolding handle_oda_request
    handle_oda_request-R raw a =
        next R p.kept _ _ (called R p.kept _ _ _ _ quiet-R)
          λ _. sent_through R p.kept _ _ _ _ quiet-R

    handle_oda_response-R :
        (now : ℕ) (raw : Bytes) → KeptBy R p.kept (handle_oda_response lib now raw)
    unfolding handle_oda_response
    handle_oda_response-R now raw a =
        next R p.kept _ _ (called R p.kept _ _ _ _ quiet-R) λ _. p.oda_finish now _

    pub trigger_oda-R : (attributes : List Bytes) → KeptBy R p.kept (trigger_oda lib attributes)
    unfolding trigger_oda
    trigger_oda-R attributes a =
        either_way R p.kept _
          (next R p.kept _ _ (called R p.kept _ _ _ _ quiet-R) λ _.
            next R p.kept _ _ (sent_through R p.kept _ _ _ _ quiet-R)
              λ _. p.state CallState.oda_active _)
          (p.kept.same a)

    -- The RUA request, for what the decision of its end keeps.
    pub recipient_rua_request-R :
        (cfg : Config) (raw : Bytes)
        → KeptBy R p.kept (decide lib cfg)
        → KeptBy R p.kept (recipient_rua_request lib cfg raw)
    unfolding recipient_rua_request
    recipient_rua_request-R cfg raw d a = either_way R p.kept _ (p.kept.same a) (
        next R p.kept _ _ (called R p.kept _ _ _ _ (p.reject 500 Reason.rua_failed)) λ _.
          next R p.kept _ _ (sent_through R p.kept _ _ _ _ (p.reject 500 Reason.rua_send_failed))
            λ _. d _)

    pub handle_caller-R :
        (cfg : Config) (now : ℕ) (t : MsgType) (raw : Bytes)
        → KeptBy R p.kept (handle_caller lib cfg now t raw)
    unfolding handle_caller
    handle_caller-R cfg now MsgType.ake_response raw a = caller_ake_response-R raw a
    handle_caller-R cfg now MsgType.rua_response raw a = caller_rua_response-R cfg raw a
    handle_caller-R cfg now MsgType.oda_request raw a = handle_oda_request-R raw a
    handle_caller-R cfg now MsgType.oda_response raw a = handle_oda_response-R now raw a
    handle_caller-R cfg now _ raw a = p.kept.same a

    pub handle_recipient-R :
        (cfg : Config) (now : ℕ) (t : MsgType) (raw : Bytes)
        → KeptBy R p.kept (recipient_rua_request lib cfg raw)
        → KeptBy R p.kept (handle_recipient lib cfg now t raw)
    unfolding handle_recipient
    handle_recipient-R cfg now MsgType.ake_request raw d a = recipient_ake_request-R raw a
    handle_recipient-R cfg now MsgType.ake_complete raw d a = recipient_ake_complete-R raw a
    handle_recipient-R cfg now MsgType.rua_request raw d a = d a
    handle_recipient-R cfg now MsgType.oda_request raw d a = handle_oda_request-R raw a
    handle_recipient-R cfg now MsgType.oda_response raw d a = handle_oda_response-R now raw a
    handle_recipient-R cfg now _ raw d a = p.kept.same a

    route-R :
        (cfg : Config) (now : ℕ) (raw : Bytes)
        → KeptBy R p.kept (recipient_rua_request lib cfg raw)
        → (m : Option (MsgType × Bytes)) → KeptBy R p.kept (route lib cfg now raw m)
    unfolding route
    route-R cfg now raw d none a = p.kept.same a
    route-R cfg now raw d (some (t, sender)) a = either_way R p.kept _ (p.kept.same a) (
        either_way R p.kept _ (handle_recipient-R cfg now t raw d a)
          (handle_caller-R cfg now t raw a))

    pub handle_dia_message-R :
        (cfg : Config) (now : ℕ) (raw : Bytes)
        → KeptBy R p.kept (recipient_rua_request lib cfg raw)
        → KeptBy R p.kept (handle_dia_message lib cfg now raw)
    unfolding handle_dia_message
    handle_dia_message-R cfg now raw d a =
        either_way R p.kept _ (p.kept.same a) (route-R cfg now raw d (lib.parse_message raw) a)

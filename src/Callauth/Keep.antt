-- ===== src/Callauth/Keep.antt =====
-- What the handlers of the command line client keep: a relation between the states before and after.
use dia.Prelude.{
  ◌≡◌, refl, ◌⊎◌, inl, inr, Bool, true, false, Option, none, some, Bytes, ◌&&◌, if◌then◌else◌, [],
}
use dia.Subscriber
use dia.Subscriber.{
  Sent, queued, refused, blocks, Immediate, written, by_queue, send, send_to_topic,
  subscribe_to_new_topic, send_immediate,
}
use dia.Relay.Server.{MsgType}
use dia.Controller.State.{Dia}
use dia.Controller.Messages.{or_empty}
use dia.Callauth.{
  AppConfig, Client, Roles, Steps, go_on, call, sent, set_runtime, stop, send_bye_then_stop,
  finish_rua, recipient_ake_request, recipient_ake_complete, recipient_rua_request,
  handle_recipient, caller_ake_response, caller_rua_response, handle_caller,
}
use dia.Callauth.Messages.{
  handle_oda_request, handle_oda_response, by_role, on_topic, run_oda, is_ake, filtered,
  handle_message,
}

module _ {D : Type 0} where
  -- A relation that is reflexive and transitive and does not see a new call state.
  pub record IsKept (R : Client D → Client D → Type 0) : Type 0 where
    pub same : (c : Client D) → R c c
    pub after : (a b c : Client D) → R a b → R b c → R a c
    pub dia : (d : D) (c : Client D) → R c (record c { call_state = d })

module _ {D : Type 0} (R : Client D → Client D → Type 0) (k : IsKept R) where
  abbrev pub KeptBy : (Client D → Client D) → Type 0
  KeptBy f = (c : Client D) → R c (f c)

  -- A send whatever its end.
  abbrev pub KeptBySend : (Subscriber.Session → Sent) → Type 0
  KeptBySend f = (c : Client D) → R c (sent (f c.session) c).1

  pub next :
      {A B : Type 0} (f : A → Steps D B) (o : Option A) {a b : Client D}
      → R a b
      → ((x : A) → R b (f x b).1)
      → R a (go_on f o b).1
  unfolding go_on
  next f none p q = p
  next f (some x) {a = a} {b = b} p q = k.after a b (f x b).1 p (q x)

  pub call-R : {A : Type 0} (f : D → Option A × D) (c : Client D) → R c (call f c).1
  unfolding call
  call-R f c = k.dia (f c.call_state).1 c

  pub either_way : (b : Bool) {a x y : Client D} → R a x → R a y → R a (if b then x else y)
  either_way true p q = p
  either_way false p q = q

module _ (lib : Dia) (roles : Roles lib.D) (cfg : AppConfig) where
  -- The parts of the handlers that send on the current topic.
  pub record Parts (R : Client lib.D → Client lib.D → Type 0) : Type 0 where
    pub kept : IsKept R
    pub sends : (payload : Bytes) → KeptBySend R kept (send lib.mac payload)
    pub rua : KeptBy R kept (finish_rua lib roles cfg)
    pub bye : KeptBy R kept (send_bye_then_stop lib roles)
    pub handled : KeptBy R kept (set_runtime (λ r. record r { oda_handled = true }))
    pub stops : KeptBy R kept stop

  -- Those of the AKE handlers that change the topic.
  pub record Switches (R : Client lib.D → Client lib.D → Type 0) (k : IsKept R) : Type 0 where
    pub publishes :
        (topic payload ticket : Bytes) → KeptBySend R k (send_to_topic lib.mac topic payload ticket)
    pub subscribes :
        (topic payload ticket : Bytes)
        → KeptBySend R k (subscribe_to_new_topic lib.mac topic payload ticket)

  module _ (R : Client lib.D → Client lib.D → Type 0) (p : Parts R) where
    recipient_ake_request-R : (raw : Bytes) → KeptBy R p.kept (recipient_ake_request lib roles raw)
    unfolding recipient_ake_request
    recipient_ake_request-R raw c = next R p.kept _ _ (call-R R p.kept _ _) λ r. p.sends r _

    recipient_rua_request-R :
        (raw : Bytes) → KeptBy R p.kept (recipient_rua_request lib roles cfg raw)
    unfolding recipient_rua_request
    recipient_rua_request-R raw c = either_way R p.kept c.runtime.rua_complete (p.kept.same c) (
        next R p.kept _ _ (call-R R p.kept _ _) λ r.
          next R p.kept _ _ (p.sends r _)
            λ _. next R p.kept _ _ (p.rua _) λ _. either_way R p.kept _ (p.bye _) (p.kept.same _))

    caller_rua_response-R : (raw : Bytes) → KeptBy R p.kept (caller_rua_response lib roles cfg raw)
    unfolding caller_rua_response
    caller_rua_response-R raw c = next R p.kept _ _ (call-R R p.kept _ _) λ _. p.rua _

    handle_oda_request-R : (raw : Bytes) → KeptBy R p.kept (handle_oda_request lib roles cfg raw)
    unfolding handle_oda_request
    handle_oda_request-R raw c =
        next R p.kept _ _ (call-R R p.kept _ _)
          λ r. next R p.kept _ _ (p.sends r _) λ _. p.handled _

    handle_oda_response-R : (raw : Bytes) → KeptBy R p.kept (handle_oda_response lib roles cfg raw)
    unfolding handle_oda_response
    handle_oda_response-R raw c =
        next R p.kept _ _ (call-R R p.kept _ _)
          λ _. next R p.kept _ _ (p.handled _) λ _. either_way R p.kept _ (p.bye _) (p.kept.same _)

    pub run_oda-R : KeptBy R p.kept (run_oda lib roles cfg)
    unfolding run_oda
    run_oda-R c = next R p.kept _ _ (call-R R p.kept _ _) λ r. p.sends r _

    module _ (w : Switches R p.kept) where
      recipient_ake_complete-R :
          (raw : Bytes) → KeptBy R p.kept (recipient_ake_complete lib roles raw)
      unfolding recipient_ake_complete
      recipient_ake_complete-R raw c = next R p.kept _ _ (call-R R p.kept _ _) λ _.
          next R p.kept _ _ (call-R R p.kept _ _) λ t. next R p.kept _ _ (call-R R p.kept _ _) λ _.
            next R p.kept _ _ (call-R R p.kept _ _)
              λ k. next R p.kept _ _ (w.subscribes t [] k _) λ _. call-R R p.kept _ _

      caller_ake_response-R : (raw : Bytes) → KeptBy R p.kept (caller_ake_response lib roles raw)
      unfolding caller_ake_response
      caller_ake_response-R raw c = next R p.kept _ _ (call-R R p.kept _ _) λ m.
          next R p.kept _ _ (w.publishes (or_empty (lib.current_topic c.call_state)) m [] _) λ _.
            next R p.kept _ _ (call-R R p.kept _ _) λ t.
              next R p.kept _ _ (call-R R p.kept _ _) λ q.
                next R p.kept _ _ (call-R R p.kept _ _)
                  λ k. next R p.kept _ _ (call-R R p.kept _ _) λ _. w.subscribes t q k _

    -- A message that may be handled: one outside of AKE, or any if the topic may change.
    abbrev pub Allowed : MsgType → Type 0
    Allowed t = (is_ake t ≡ false) ⊎ Switches R p.kept

    false-true : true ≡ false → ⊥
    false-true e = cc

    handle_recipient-R :
        (t : MsgType) (raw : Bytes)
        → Allowed t
        → KeptBy R p.kept (handle_recipient lib roles cfg t raw)
    unfolding handle_recipient
    handle_recipient-R MsgType.ake_request raw ok c = recipient_ake_request-R raw c
    handle_recipient-R MsgType.ake_complete raw (inl e) c = absurd (false-true e)
    handle_recipient-R MsgType.ake_complete raw (inr w) c = recipient_ake_complete-R w raw c
    handle_recipient-R MsgType.rua_request raw ok c = recipient_rua_request-R raw c
    handle_recipient-R _ raw ok c = p.kept.same c

    handle_caller-R :
        (t : MsgType) (raw : Bytes)
        → Allowed t
        → KeptBy R p.kept (handle_caller lib roles cfg t raw)
    unfolding handle_caller
    handle_caller-R MsgType.ake_response raw (inl e) c = absurd (false-true e)
    handle_caller-R MsgType.ake_response raw (inr w) c = caller_ake_response-R w raw c
    handle_caller-R MsgType.rua_response raw ok c = caller_rua_response-R raw c
    handle_caller-R _ raw ok c = p.kept.same c

    by_role-R :
        (t : MsgType) (raw : Bytes) → Allowed t → KeptBy R p.kept (by_role lib roles cfg t raw)
    unfolding by_role
    by_role-R t raw ok c =
        either_way R p.kept _ (handle_recipient-R t raw ok c)
          (either_way R p.kept _ (handle_caller-R t raw ok c) (p.kept.same c))

    on_topic-R :
        (t : MsgType) (raw : Bytes) → Allowed t → KeptBy R p.kept (on_topic lib roles cfg t raw)
    unfolding on_topic
    on_topic-R MsgType.heartbeat raw ok c = p.kept.same c
    on_topic-R MsgType.oda_request raw ok c = handle_oda_request-R raw c
    on_topic-R MsgType.oda_response raw ok c = handle_oda_response-R raw c
    on_topic-R t raw ok c = by_role-R t raw ok c

    filtered-R :
        (raw : Bytes) (m : Option (MsgType × Bytes)) (c : Client lib.D)
        → ((t : MsgType) → (c.runtime.cache_hit && is_ake t) ≡ false → Allowed t)
        → R c (filtered lib roles cfg raw m c)
    unfolding filtered
    filtered-R raw none c ok = p.kept.same c
    filtered-R raw (some (t, sender)) c ok = either_way R p.kept _ (p.kept.same c) (
        either_way R p.kept _ (p.stops c) (
          either_way R p.kept _ (p.kept.same c)
            (unless_ake (c.runtime.cache_hit && is_ake t) refl)))
      where
        unless_ake :
            (b : Bool)
            → (c.runtime.cache_hit && is_ake t) ≡ b
            → R c (if b then c else on_topic lib roles cfg t raw c)
        unless_ake true e = p.kept.same c
        unless_ake false e = on_topic-R t raw (ok t e) c

    -- A handler of messages keeps what its parts keep, and on a cache hit without those of AKE.
    pub handle_message-R :
        (raw : Bytes) (c : Client lib.D)
        → (c.runtime.cache_hit ≡ true) ⊎ Switches R p.kept
        → R c (handle_message lib roles cfg raw c)
    unfolding handle_message
    handle_message-R raw c (inr w) = filtered-R raw (lib.parse_message raw) c (λ t e. inr w)
    handle_message-R raw c (inl hit) =
        filtered-R raw (lib.parse_message raw) c (λ t e. inl (rw hit at e))

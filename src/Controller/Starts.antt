-- ===== src/Controller/Starts.antt =====
-- What the goroutines that start the DIA protocol keep, from what their parts keep.
use dia.Prelude.{Bool, true, false, Option, none, some, Bytes}
use dia.CallManager.{CallState}
use dia.Controller.State.{Dia, Config, Reason, Act, Steps, choose, noted}
use dia.Controller.Keep.{KeptBy, next, called, sent_through}
use dia.Controller.Parts.{Parts}
use dia.Controller.Protocol.{
  create_state, create_with, apply_cached, run_outgoing_dia, run_incoming_dia,
}

module _ (lib : Dia) (R : Act lib.D → Act lib.D → Type 0) (p : Parts lib R) (cfg : Config) where
  pub either_step :
      {A : Type 0} (b : Bool) (m k : Steps lib.D A) (a : Act lib.D)
      → R a (m a).1
      → R a (k a).1
      → R a (choose b m k a).1
  unfolding choose
  either_step true m k a x y = x
  either_step false m k a x y = y

  create_with-R :
      (failing : Act lib.D → Act lib.D)
      → KeptBy R p.kept failing
      → (o : Option lib.D) (a : Act lib.D) → R a (create_with lib failing o a).1
  create_with-R failing f none a = f a
  create_with-R failing f (some d) a = p.kept.dia d a

  pub create_state-R :
      (outgoing : Bool) (failing : Act lib.D → Act lib.D)
      → KeptBy R p.kept failing
      → (a : Act lib.D) → R a (create_state lib outgoing failing a).1
  unfolding create_state
  create_state-R outgoing failing f a =
      create_with-R failing f (lib.new_call_state a.session.peer_phone outgoing) a

  pub apply_cached-R : (cached : Option Bytes) (a : Act lib.D) → R a (apply_cached lib cached a).1
  unfolding apply_cached
  apply_cached-R none a = p.kept.same a
  apply_cached-R (some blob) a = called R p.kept _ _ _ _ λ b. p.kept.same b

  pub run_outgoing_dia-R :
      (cached : Option Bytes) (a : Act lib.D) → R a (run_outgoing_dia lib cfg cached a)
  unfolding run_outgoing_dia
  run_outgoing_dia-R cached a = next R p.kept _ _ (create_state-R true noted p.note a) λ _.
      next R p.kept _ _ (called R p.kept _ _ _ _ p.note) λ _.
        next R p.kept _ _ (apply_cached-R cached _) λ hit.
          either_step hit _ _ _
            (next R p.kept _ _ (called R p.kept _ _ _ _ p.note) λ _.
              next R p.kept _ _ (called R p.kept _ _ _ _ p.note) λ _.
                next R p.kept _ _ (called R p.kept _ _ _ _ p.note) λ _.
                  next R p.kept _ _ (p.state CallState.dia_rua_in_progress _) λ _.
                    next R p.kept _ _ (called R p.kept _ _ _ _ p.note) λ _.
                      next R p.kept _ _ (called R p.kept _ _ _ _ p.note) λ r.
                        next R p.kept _ _ (p.kept.controller r _)
                          λ _. sent_through R p.kept _ _ _ _ p.note)
            (next R p.kept _ _ (p.state CallState.dia_ake_in_progress _) λ _.
              next R p.kept _ _ (called R p.kept _ _ _ _ p.note) λ r.
                next R p.kept _ _ (p.kept.controller r _) λ _.
                  next R p.kept _ _ (called R p.kept _ _ _ _ p.note)
                    λ _. sent_through R p.kept _ _ _ _ p.note)

  pub run_incoming_dia-R :
      (cached : Option Bytes) (a : Act lib.D) → R a (run_incoming_dia lib cfg cached a)
  unfolding run_incoming_dia
  run_incoming_dia-R cached a =
      next R p.kept _ _ (create_state-R false _ (p.reject 500 Reason.dia_init_failed) a) λ _.
        next R p.kept _ _ (called R p.kept _ _ _ _ (p.reject 500 Reason.ake_init_failed)) λ _.
          next R p.kept _ _ (apply_cached-R cached _) λ hit.
            either_step hit _ _ _
              (next R p.kept _ _ (called R p.kept _ _ _ _ (p.reject 500 Reason.rua_topic_failed))
                λ _.
                  next R p.kept _ _
                    (called R p.kept _ _ _ _ (p.reject 500 Reason.rua_transition_failed))
                    λ _.
                      next R p.kept _ _
                        (called R p.kept _ _ _ _ (p.reject 500 Reason.rua_ticket_failed))
                        λ _.
                          next R p.kept _ _
                            (called R p.kept _ _ _ _ (p.reject 500 Reason.rua_init_failed))
                            λ _. next R p.kept _ _ (p.state CallState.dia_rua_in_progress _) λ _.
                              next R p.kept _ _
                                (called R p.kept _ _ _ _
                                  (p.reject 500 Reason.dia_controller_failed))
                                λ r. p.kept.controller r _)
              (next R p.kept _ _ (p.state CallState.dia_ake_in_progress _) λ _.
                next R p.kept _ _
                  (called R p.kept _ _ _ _ (p.reject 500 Reason.dia_controller_failed))
                  λ r. p.kept.controller r _)

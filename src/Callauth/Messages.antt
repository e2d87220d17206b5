-- ===== src/Callauth/Messages.antt =====
-- cmd/client/callauth/main.go: `handleMessage`, and the goroutine that asks for ODA.
use dia.Prelude.{Bool, true, false, not, ◌&&◌, Option, none, some, Bytes, str_eq, if◌then◌else◌}
use dia.Relay.Server.{MsgType}
use dia.Subscriber.{send}
use dia.Controller.State.{Dia}
use dia.Controller.Messages.{or_empty, is_bye}
use dia.Callauth.{
  AppConfig, Client, Roles, ◌>>=◌, ◌>>◌, act, call, check, send_through, set_runtime, stop, run,
  send_bye_then_stop, handle_recipient, handle_caller,
}

abbrev pub is_ake : MsgType → Bool
is_ake t = elim t [
  | MsgType.ake_request ↦ true
  | MsgType.ake_response ↦ true
  | MsgType.ake_complete ↦ true
  | _ ↦ false
]

module _ (lib : Dia) (roles : Roles lib.D) (cfg : AppConfig) where
  abbrev C : Type 0
  C = Client lib.D

  abbrev handled : C → C
  handled c = set_runtime (λ r. record r { oda_handled = true }) c

  unfoldable pub handle_oda_request : Bytes → C → C
  unfolding send
  handle_oda_request raw =
      run lib roles (do
        response ← call (lib.oda_response raw)
        send_through (send lib.mac response)
        act handled)

  abbrev bye_if_asked : C → C
  bye_if_asked c = if c.runtime.oda_triggered && cfg.bye then send_bye_then_stop lib roles c else c

  unfoldable pub handle_oda_response : Bytes → C → C
  unfolding send_bye_then_stop
  handle_oda_response raw =
      run lib roles (do call (check (lib.oda_verify raw)); act handled; act bye_if_asked)

  -- Routed by the role.
  unfoldable pub by_role : MsgType → Bytes → C → C
  unfolding handle_recipient handle_caller
  by_role t raw c =
      if roles.is_recipient c.call_state
      then handle_recipient lib roles cfg t raw c
      else if roles.is_caller c.call_state
      then handle_caller lib roles cfg t raw c
      else c

  -- A message of the current topic.
  unfoldable pub on_topic : MsgType → Bytes → C → C
  unfolding handle_oda_request handle_oda_response by_role
  on_topic MsgType.heartbeat raw c = c
  on_topic MsgType.oda_request raw c = handle_oda_request raw c
  on_topic MsgType.oda_response raw c = handle_oda_response raw c
  on_topic t raw c = by_role t raw c

  unfoldable pub filtered : Bytes → Option (MsgType × Bytes) → C → C
  unfolding on_topic
  filtered raw none c = c
  filtered raw (some (t, sender)) c =
      if str_eq sender (or_empty (lib.sender_id c.call_state))
      then c
      else if is_bye lib t
      then stop c
      else if not (str_eq (roles.topic_of raw) (or_empty (lib.current_topic c.call_state)))
      then c
      else if c.runtime.cache_hit && is_ake t
      then c
      else on_topic t raw c

  -- `handleMessage`
  unfoldable pub handle_message : Bytes → C → C
  unfolding filtered
  handle_message raw c = filtered raw (lib.parse_message raw) c

  -- The goroutine of `maybeScheduleODA`, after its delay.
  unfoldable pub run_oda : C → C
  unfolding send
  run_oda =
      run lib roles
        (do request ← call (lib.oda_request cfg.oda_attrs); send_through (send lib.mac request))

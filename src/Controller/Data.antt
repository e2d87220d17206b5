-- ===== src/Controller/Data.antt =====
-- The data of controller.go, and what it uses of libdia.
use dia.Prelude.{ℕ, Bool, List, Option, Bytes}
use dia.Wire.{MacLib}
use dia.Relay.Server.{MsgType}
use dia.CallManager.{Direction, Outcome, RemoteParty, CallSession}

-- A difference of times, which may be negative.
pub data ℤ : Type 0 where
  pos : ℕ → ℤ
  negsuc : ℕ → ℤ

-- The call state of libdia and its methods, which are not code of the repository. A method changes
-- the state; `none` and `false` are returned errors. `parse_message` gives type and sender, and
-- `remote_party` whether it succeeds, with the party, if there is one.
pub record Dia : Type 1 where
  pub D : Type 0
  pub new_call_state : Bytes → Bool → Option D
  pub ake_init : D → Bool × D
  pub apply_peer_session : Bytes → D → Bool × D
  pub ake_request : D → Option Bytes × D
  pub ake_response : Bytes → D → Option Bytes × D
  pub ake_complete : Bytes → D → Option Bytes × D
  pub ake_finalize : Bytes → D → Bool × D
  pub rua_derive_topic : D → Option Bytes × D
  pub rua_request : D → Option Bytes × D
  pub transition_to_rua : D → Bool × D
  pub ticket : D → Option Bytes × D
  pub rua_init : D → Bool × D
  pub rua_response : Bytes → D → Option Bytes × D
  pub rua_finalize : Bytes → D → Bool × D
  pub oda_request : List Bytes → D → Option Bytes × D
  pub oda_response : Bytes → D → Option Bytes × D
  pub oda_verify : Bytes → D → Bool × D
  pub create_bye : D → Option Bytes × D
  pub current_topic : D → Option Bytes
  pub sender_id : D → Option Bytes
  pub remote_party : D → Bool × Option RemoteParty
  pub export_peer_session : D → Option Bytes
  pub parse_message : Bytes → Option (MsgType × Bytes)
  pub mac : MacLib

-- `Config`, the fields that the handlers read. `outgoing_oda_delay` is `none` when it is negative.
pub record Config : Type 0 where
  pub self_phone : Bytes
  pub baseline : Bool
  pub integrated : Bool
  pub oda_attributes : List Bytes
  pub oda_timeout_sec : ℕ
  pub outgoing_oda_delay : Option ℕ
  pub cache_on : Bool
  pub relay_dials : Bool

-- The reasons of a rejected call.
pub data Reason : Type 0 where
  none_given busy_here authentication_timeout not_verified internal_error dia_init_failed : Reason
  ake_init_failed rua_topic_failed rua_transition_failed rua_ticket_failed rua_init_failed : Reason
  dia_controller_failed ake_failed ake_send_failed ake_finalize_failed : Reason
  rua_topic_subscribe_failed rua_failed rua_send_failed : Reason

-- Commands written to Baresip.
pub data Command : Type 0 where
  dial accept : Bytes → Command
  hangup : Bytes → ℕ → Reason → Command

-- `CallResult`; a time that is omitted is `none`. Its `SelfPhone` is that of the configuration, for
-- every result, and its `Error` the text of a library or of a log: neither is a field here.
pub record CallResult : Type 0 where
  pub attempt_id : Bytes
  pub call_id : Bytes
  pub peer_phone : Bytes
  pub direction : Direction
  pub protocol_enabled : Bool
  pub peer_uri : Bytes
  pub dial_sent_ms : Option ℤ
  pub answered_ms : Option ℕ
  pub latency_ms : Option ℤ
  pub oda_requested_ms : Option ℕ
  pub oda_completed_ms : Option ℕ
  pub oda_latency_ms : Option ℤ
  pub outcome : Outcome

-- Work that a handler leaves to a goroutine or a timer.
pub data Task : Type 0 where
  run_outgoing_dia run_incoming_dia start_outgoing_oda : Task
  trigger_oda : List Bytes → Task
  baseline_hangup : Bytes → Task

-- The session at hand, and what the handler has sent out. `removed` is a call of `RemoveSession`.
pub record Act (D : Type 0) : Type 0 where
  pub session : CallSession D
  pub commands : List Command
  pub results : List CallResult
  pub tasks : List Task
  pub stored : List Bytes
  pub removed : Bool

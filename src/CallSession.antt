-- ===== src/CallSession.antt =====
-- internal/sipcontroller/callmanager.go: a call session and what its methods do to it.
use dia.Prelude.{ℕ, Bool, true, false, [], Option, none, Bytes}
use dia.Subscriber

pub data CallState : Type 0 where
  idle dia_initializing dia_ake_in_progress dia_rua_in_progress dia_complete : CallState
  baresip_dialing baresip_ringing baresip_established oda_active hanging_up closed : CallState

pub data Direction : Type 0 where
  outgoing incoming : Direction

-- The values of a session's `ODATerminalOutcome` that are not empty.
pub data OdaEnd : Type 0 where
  oda_done oda_timed_out : OdaEnd

-- The values of a result's `Outcome`.
pub data Outcome : Type 0 where
  answered call_closed call_error : Outcome
  oda_ended : OdaEnd → Outcome

-- `dia.RemoteParty`, the fields that the code reads.
pub record RemoteParty : Type 0 where
  pub name : Bytes
  pub verified : Bool

-- `CallSession`, over the type of libdia's call states. A time is `none` while it is zero, a timer
-- is a flag that says whether it is armed, and `RelaySession` stands for the subscriber controller.
pub record CallSession (D : Type 0) : Type 0 where
  pub attempt_id : Bytes
  pub call_id : Bytes
  pub account_aor : Bytes
  pub peer_phone : Bytes
  pub peer_uri : Bytes
  pub peer_name : Bytes
  pub direction : Direction
  pub protocol_enabled : Bool
  pub dial_sent_at : Option ℕ
  pub answered_at : Option ℕ
  pub oda_requested_at : Option ℕ
  pub oda_completed_at : Option ℕ
  pub oda_timeout : Bool
  pub state : CallState
  pub dia_done : Bool
  pub sip_established : Bool
  pub baseline_hangup_scheduled : Bool
  pub answered_result_emitted : Bool
  pub oda_request_scheduled : Bool
  pub hangup_after_oda_requested : Bool
  pub oda_terminal_emitted : Bool
  pub oda_terminal_outcome : Option OdaEnd
  pub dia_state : Option D
  pub dia_controller : Option Subscriber.Session
  pub remote_party : Option RemoteParty
  pub dia_timeout : Bool
  pub failed : Bool

module _ {D : Type 0} where
  -- `NewCallSession`
  unfoldable pub new_call_session : Bytes → Bytes → Direction → CallSession D
  new_call_session phone uri dir = record {
    attempt_id = [];
    call_id = [];
    account_aor = [];
    peer_phone = phone;
    peer_uri = uri;
    peer_name = [];
    direction = dir;
    protocol_enabled = false;
    dial_sent_at = none;
    answered_at = none;
    oda_requested_at = none;
    oda_completed_at = none;
    oda_timeout = false;
    state = idle;
    dia_done = false;
    sip_established = false;
    baseline_hangup_scheduled = false;
    answered_result_emitted = false;
    oda_request_scheduled = false;
    hangup_after_oda_requested = false;
    oda_terminal_emitted = false;
    oda_terminal_outcome = none;
    dia_state = none;
    dia_controller = none;
    remote_party = none;
    dia_timeout = false;
    failed = false;
  }

  -- `Cleanup`: both timers stop, the controller is closed and both parts of DIA are dropped.
  unfoldable pub cleanup : CallSession D → CallSession D
  cleanup s = record s {
    dia_timeout = false;
    oda_timeout = false;
    dia_controller = none;
    dia_state = none;
  }

  abbrev pub is_incoming : CallSession D → Bool
  is_incoming s = elim s.direction [ outgoing ↦ false | incoming ↦ true ]

  abbrev pub is_closed : CallSession D → Bool
  is_closed s = elim s.state [ CallState.closed ↦ true | _ ↦ false ]

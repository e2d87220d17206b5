-- ===== src/CallManager/Registry.antt =====
-- What is told of sessions: the names of their states, their flags and timers, and all of them.
-- Go walks a map in no fixed order.
use dia.Prelude.{ℕ, Bool, true, false, List, map, length, Bytes, codes}
use dia.CallManager.{Entries, CallState, CallSession, outgoing, incoming, CallManager}

-- `String`
unfoldable pub state_name : CallState → Bytes
state_name CallState.idle = codes "Idle"
state_name CallState.dia_initializing = codes "DIA_Initializing"
state_name CallState.dia_ake_in_progress = codes "DIA_AKE_InProgress"
state_name CallState.dia_rua_in_progress = codes "DIA_RUA_InProgress"
state_name CallState.dia_complete = codes "DIA_Complete"
state_name CallState.baresip_dialing = codes "Baresip_Dialing"
state_name CallState.baresip_ringing = codes "Baresip_Ringing"
state_name CallState.baresip_established = codes "Baresip_Established"
state_name CallState.oda_active = codes "ODA_Active"
state_name CallState.hanging_up = codes "HangingUp"
state_name CallState.closed = codes "Closed"

module _ {D : Type 0} where
  -- `SetState`
  unfoldable pub change_state : CallState → CallSession D → CallSession D
  change_state st s = record s { state = st }

  -- `IsOutgoing`
  unfoldable pub is_outgoing : CallSession D → Bool
  is_outgoing s = elim s.direction [ outgoing ↦ true | incoming ↦ false ]

  -- `CancelTimeout`
  unfoldable pub cancel_timeout : CallSession D → CallSession D
  cancel_timeout s = record s { dia_timeout = false }

  -- `CancelODATimeout`
  unfoldable pub cancel_oda_timeout : CallSession D → CallSession D
  cancel_oda_timeout s = record s { oda_timeout = false }

  -- `GetAllSessions`, as pointers; `order` is the walk's.
  unfoldable pub get_all_sessions : (Entries ℕ → Entries ℕ) → CallManager D → List ℕ
  get_all_sessions order m = map (λ e. e.1) (order m.by_attempt)

  -- `Count`
  unfoldable pub count : CallManager D → ℕ
  count m = length m.by_attempt

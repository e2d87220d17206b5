-- ===== src/Console/Loop.antt =====
-- cmd/sipcontroller/main.go: `commandLoop`, over the operations of the controller that it calls.
use dia.Prelude.{Bool, true, false, List, [], ◌∷◌, ◌++◌, Option, none, some, Bytes}
use dia.CallManager.{CallState, Direction, RemoteParty}
use dia.Controller.State.{ℤ}
use dia.Console.{
  Command, nothing, list, quit, help, dial_usage, dial_proto, oda_usage, run_usage, dial, oda, run,
  unknown, read_command,
}

-- What `ListActiveCalls` tells of a call.
pub record CallInfo : Type 0 where
  pub call_id : Bytes
  pub peer_phone : Bytes
  pub direction : Direction
  pub state : CallState
  pub dia_done : Bool
  pub sip_estab : Bool
  pub remote : Option RemoteParty

-- What is printed, without its wording.
pub data Message : Type 0 where
  dial_failed no_calls oda_failed run_failed commands : Message
  usage_dial bad_proto usage_oda usage_run : Message
  dial_started unknown_command : Bytes → Message
  active_calls : List CallInfo → Message

-- The operations that the loop calls, on a state of everything else. `none` and false are errors.
pub record Shell (W : Type 0) : Type 0 where
  pub initiate_outgoing_call : Bytes → Bool → W → Option Bytes × W
  pub list_active_calls : W → List CallInfo
  pub trigger_oda_for_call : Bytes → List Bytes → W → Bool × W
  pub run_experiment : Bytes → Bytes → ℤ → ℤ → W → Bool × W

abbrev pub dial_message : Option Bytes → Message
dial_message none = dial_failed
dial_message (some id) = dial_started id

abbrev pub calls_message : List CallInfo → Message
calls_message [] = no_calls
calls_message (c ∷ cs) = active_calls (c ∷ cs)

abbrev pub unless : Bool → Message → List Message
unless true m = []
unless false m = m ∷ []

-- The loop ends at the end of the input, or by `stop`.
pub data Ended (W : Type 0) : Type 0 where
  input_over stopped : List Message → W → Ended W

module _ {W : Type 0} (shell : Shell W) where
  -- What a command prints and does.
  unfoldable pub exec : Command → W → List Message × W
  exec nothing w = ([], w)
  exec dial_usage w = (usage_dial ∷ [], w)
  exec dial_proto w = (bad_proto ∷ [], w)
  exec (dial phone on) w =
      let (id, w') = shell.initiate_outgoing_call phone on w in (dial_message id ∷ [], w')
  exec list w = (calls_message (shell.list_active_calls w) ∷ [], w)
  exec oda_usage w = (usage_oda ∷ [], w)
  exec (oda call_id attrs) w =
      let (ok, w') = shell.trigger_oda_for_call call_id attrs w in (unless ok oda_failed, w')
  exec quit w = ([], w)
  exec run_usage w = (usage_run ∷ [], w)
  exec (run mode phone runs conc) w =
      let (ok, w') = shell.run_experiment mode phone runs conc w in (unless ok run_failed, w')
  exec help w = (commands ∷ [], w)
  exec (unknown cmd) w = (unknown_command cmd ∷ [], w)

  abbrev pub is_quit : Command → Bool
  is_quit quit = true
  is_quit _ = false

  -- `commandLoop` over the lines that the scanner gives, with what is printed so far.
  unfoldable pub command_loop : List Bytes → List Message → W → Ended W
  unfolding exec read_command
  command_loop [] out w = input_over out w
  command_loop (l ∷ lines) out w =
      let (more, w') = exec (read_command l) w in
      elim (is_quit (read_command l)) [
        | true ↦ stopped out w
        | false ↦ command_loop lines (out ++ more) w'
      ]

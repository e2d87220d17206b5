-- ===== src/Baresip/Commands.antt =====
-- internal/sipcontroller/baresip.go: the commands of the client's users, each up to its reply.
use dia.Prelude.{ℕ, Bool, true, false, [], Option, Bytes, codes, is_empty, if◌then◌else◌}
use dia.Baresip.{Json, BaresipClient, begin_command, hangup_params}

-- `Connect`: the read loop begins if Baresip can be reached.
unfoldable pub connect : Bool → BaresipClient → Bool × BaresipClient
connect false c = (false, c)
connect true c = (true, record c { reading = true })

module _ (json : Json) where
  -- The text to write, and the client that waits for the reply to it; `none` is an error of the coding.
  abbrev pub Sending : Type 0
  Sending = BaresipClient → Option Bytes × BaresipClient

  -- `Dial`
  unfoldable pub dial_command : Bytes → Sending
  unfolding begin_command
  dial_command uri c = begin_command json (codes "dial") uri c

  -- `Accept`: both ways give the call-id as it is.
  unfoldable pub accept_command : Bytes → Sending
  unfolding begin_command
  accept_command call_id c =
      if is_empty call_id
      then begin_command json (codes "accept") [] c
      else begin_command json (codes "accept") call_id c

  -- `Hangup`
  unfoldable pub hangup_command : Bytes → ℕ → Bytes → Sending
  unfolding begin_command hangup_params
  hangup_command call_id scode reason c =
      begin_command json (codes "hangup") (hangup_params call_id scode reason) c

  -- `HangupAll`
  unfoldable pub hangup_all : Sending
  unfolding begin_command
  hangup_all c = begin_command json (codes "hangupall") [] c

  -- `ListCalls`
  unfoldable pub list_calls : Sending
  unfolding begin_command
  list_calls c = begin_command json (codes "listcalls") [] c

  -- `RegInfo`
  unfoldable pub reg_info : Sending
  unfolding begin_command
  reg_info c = begin_command json (codes "reginfo") [] c

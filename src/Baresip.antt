-- ===== src/Baresip.antt =====
-- internal/sipcontroller/baresip.go: commands to Baresip and their replies, and its events.
-- JSON is a parameter. Each waiting call of `sendCommandCore` is a `Call`, with its channel of capacity
-- one; the map of pending commands holds its index.
pub mod Pending
pub mod Sound
pub mod Steps
pub mod Commands
mod Tests
use dia.Prelude.{
  ℕ, zero, suc, ◌+◌, ◌%◌, ◌^◌, ◌≡◌, Bool, true, false, not, ◌&&◌, ◌||◌, List, [], ◌∷◌, ◌++◌, Option,
  none, some, Bytes, codes, str_eq, is_empty, ltb, if◌then◌else◌, length, get_elem?, set,
}
use dia.Decimal.{format}
use dia.CallManager.{Entries, lookup, delete, store}

pub record BaresipEvent : Type 0 where
  pub event : Bool
  pub class : Bytes
  pub type : Bytes
  pub account_aor : Bytes
  pub direction : Bytes
  pub peer_uri : Bytes
  pub peer_name : Bytes
  pub id : Bytes
  pub param : Bytes

pub record BaresipResponse : Type 0 where
  pub response : Bool
  pub ok : Bool
  pub data_text : Bytes
  pub token : Bytes

pub record BaresipCommand : Type 0 where
  pub command : Bytes
  pub params : Bytes
  pub token : Bytes

-- `encoding/json`: the keys of an object, and its readings; `none` is an error.
pub record Json : Type 0 where
  pub keys : Bytes → Option (List Bytes)
  pub read_event : Bytes → Option BaresipEvent
  pub read_response : Bytes → Option BaresipResponse
  pub marshal : BaresipCommand → Option Bytes

-- How `sendCommandCore` returns.
pub data Outcome : Type 0 where
  replied : BaresipResponse → Outcome
  send_failed timed_out connection_closed : Outcome

pub record Call : Type 0 where
  pub token : Bytes
  pub channel : List BaresipResponse
  pub outcome : Option Outcome

-- `BaresipClient`, with the frames written to Baresip; `reading` is whether the read loop runs.
pub record BaresipClient : Type 0 where
  pub token_counter : ℕ
  pub pending_cmds : Entries ℕ
  pub calls : List Call
  pub event_chan : List BaresipEvent
  pub response_chan : List BaresipResponse
  pub errors : ℕ
  pub written : List Bytes
  pub closed : Bool
  pub reading : Bool

abbrev pub event_cap : ℕ
event_cap = 100

abbrev pub response_cap : ℕ
response_cap = 10

unfoldable pub new_baresip_client : BaresipClient
new_baresip_client = record {
  token_counter = 0;
  pending_cmds = [];
  calls = [];
  event_chan = [];
  response_chan = [];
  errors = 0;
  written = [];
  closed = false;
  reading = true;
}

unfoldable pub listed : Bytes → List Bytes → Bool
listed k [] = false
listed k (j ∷ js) = str_eq k j || listed k js

-- The call at an index is replaced.
abbrev pub set_call : ℕ → Call → BaresipClient → BaresipClient
set_call r call c = record c { calls = set c.calls r call }

-- `delete(b.pendingCmds, token)` and the return of the call.
unfoldable pub give_up : ℕ → Outcome → Call → BaresipClient → BaresipClient
unfolding delete set
give_up r o call c = record c {
  pending_cmds = delete call.token c.pending_cmds;
  calls = set c.calls r (record call { outcome = some o });
}

unfoldable pub next_token : BaresipClient → Bytes
unfolding format
next_token c = codes "tok" ++ format ((c.token_counter + 1) % 2 ^ 64)

-- The reply goes to the command's channel, under the lock of the map; `none` is a send that blocks.
unfoldable pub hand_over : ℕ → BaresipResponse → BaresipClient → Option Call → Option BaresipClient
unfolding delete set
hand_over r resp c none = none
hand_over r resp c (some call) =
    if is_empty call.channel
    then some (record c {
      calls = set c.calls r (record call { channel = resp ∷ [] });
      pending_cmds = delete resp.token c.pending_cmds;
    })
    else none

unfoldable pub route_to : BaresipResponse → BaresipClient → Option ℕ → Option BaresipClient
unfolding hand_over
route_to resp c none = some c
route_to resp c (some r) = hand_over r resp c (get_elem? c.calls r)

-- A response: by its token to the command that waits for it; one with no token is queued, or dropped.
unfoldable pub on_response : BaresipResponse → BaresipClient → Option BaresipClient
unfolding route_to lookup
on_response resp c =
    if not (is_empty resp.token)
    then route_to resp c (lookup resp.token c.pending_cmds)
    else if ltb (length c.response_chan) response_cap
    then some (record c { response_chan = c.response_chan ++ resp ∷ [] })
    else some c

-- An event is queued, or dropped.
unfoldable pub on_event : BaresipEvent → BaresipClient → BaresipClient
on_event e c =
    if ltb (length c.event_chan) event_cap
    then record c { event_chan = c.event_chan ++ e ∷ [] }
    else c

module _ (json : Json) where
  as_event : BaresipClient → Option BaresipEvent → Option BaresipClient
  unfolding on_event
  as_event c none = some c
  as_event c (some e) = some (on_event e c)

  as_response : BaresipClient → Option BaresipResponse → Option BaresipClient
  unfolding on_response
  as_response c none = some c
  as_response c (some resp) = on_response resp c

  by_keys : Bytes → BaresipClient → Option (List Bytes) → Option BaresipClient
  unfolding as_event as_response listed
  by_keys text c none = some c
  by_keys text c (some keys) =
      if listed (codes "event") keys
      then as_event c (json.read_event text)
      else if listed (codes "response") keys
      then as_response c (json.read_response text)
      else some c

  -- One round of `readLoop` with a frame; `none` blocks for good.
  unfoldable pub on_frame : Bytes → BaresipClient → Option BaresipClient
  unfolding by_keys
  on_frame text c = by_keys text c (json.keys text)

  registered : Bytes → BaresipClient → Option Bytes → Option Bytes × BaresipClient
  unfolding store next_token
  registered token c none = (none, record c { token_counter = (c.token_counter + 1) % 2 ^ 64 })
  registered token c (some text) = (
    some text,
    record c {
      token_counter = (c.token_counter + 1) % 2 ^ 64;
      pending_cmds = store token (length c.calls) c.pending_cmds;
      calls = c.calls ++ record { token = token; channel = []; outcome = none } ∷ [];
    },
  )

  -- `sendCommandCore` up to the write: the text to write, or an error of the coding.
  unfoldable pub begin_command : Bytes → Bytes → BaresipClient → Option Bytes × BaresipClient
  unfolding registered next_token
  begin_command command params c =
      registered (next_token c) c
        (json.marshal (record { command = command; params = params; token = next_token c }))

-- A failed write ends the call.
unfoldable pub write_command : ℕ → Call → Bytes → Bool → BaresipClient → BaresipClient
unfolding give_up
write_command r call text ok c =
    if ok then record c { written = c.written ++ text ∷ [] } else give_up r send_failed call c

-- The waiting call takes the reply from its channel.
unfoldable pub take_reply : ℕ → Call → BaresipResponse → BaresipClient → BaresipClient
unfolding set
take_reply r call resp c = record c {
  calls = set c.calls r (record call { channel = []; outcome = some (replied resp) });
}

-- The read loop ends on an error of the decoder, and reports it unless the client was closed.
unfoldable pub on_read_error : BaresipClient → BaresipClient
on_read_error c = record c { reading = false; errors = if c.closed then c.errors else c.errors + 1 }

unfoldable pub close : BaresipClient → BaresipClient
close c = record c { closed = true }

-- The parameters of `Hangup`; the code is decimal, and one of 0 is left out.
abbrev pub spaced : Bytes → Bytes → Bytes
spaced params more = (if is_empty params then params else params ++ codes " ") ++ more

unfoldable pub hangup_params : Bytes → ℕ → Bytes → Bytes
unfolding format
hangup_params call_id scode reason =
    let coded = if ltb 0 scode then spaced call_id (codes "scode=" ++ format scode) else call_id in
    if is_empty reason then coded else spaced coded (codes "reason=" ++ reason)

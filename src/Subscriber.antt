-- ===== src/Subscriber.antt =====
-- internal/subscriber/session.go: the client's end of the Tunnel stream.
-- A method returns the session with its queue of frames to send; `blocks` is a call that waits for
-- room in the queue, which the writer makes or a close ends.
pub mod Accepted
pub mod Tunnel
pub mod Pace
pub mod Delivery
pub mod Welcome
pub mod Controller
mod Tests
use dia.Prelude.{
  ℕ, ◌-◌, ◌+◌, ◌≡◌, Bool, true, false, not, ◌&&◌, ◌||◌, List, [], ◌∷◌, ◌++◌, Option, none, some,
  Bytes, is_empty, ltb, leb, ◌==◌, if◌then◌else◌, length, take, get_elem?,
}
use dia.Wire.{RelayRequest, publish_type, subscribe_type, mac_token_preimage_len, mac_data, MacLib}

pub record Session : Type 0 where
  pub topic : Bytes
  pub ticket : Bytes
  pub sender_id : Bytes
  pub closed : Bool
  pub connected : Bool
  pub send_q : List RelayRequest

abbrev pub send_cap : ℕ
send_cap = 256

-- `NewSession`
unfoldable pub new_session : Bytes → Bytes → Bytes → Session
new_session topic ticket sender_id = record {
  topic = topic;
  ticket = ticket;
  sender_id = sender_id;
  closed = false;
  connected = false;
  send_q = [];
}

pub data Refusal : Type 0 where
  session_closed empty_payload missing_topic_or_payload empty_topic missing_ticket mac_failed :
      Refusal

-- A call's end: the frame is queued, an error is returned, or the call blocks on a full queue.
pub data Sent : Type 0 where
  queued : Session → Sent
  refused : Refusal → Sent
  blocks : Session → Sent

-- How `SendImmediate` ends: the frame goes to the stream, or takes the way of the queue.
pub data Immediate : Type 0 where
  written : RelayRequest → Immediate
  by_queue : Sent → Immediate

-- `buildMacTicket`: the preimage and the MAC; `none` is an error, of a short token or of libdia.
unfoldable pub build_mac_ticket : MacLib → ℕ → Bytes → Bytes → Bytes → Session → Option Bytes
build_mac_ticket lib type topic payload given s =
    let token = if is_empty given then s.ticket else given in
    let ticketed : Option Bytes =
      elim (lib.create_message_mac token (mac_data type topic payload)) [
        | none ↦ none
        | some mac ↦ some (take mac_token_preimage_len token ++ mac)
      ] in
    if ltb (length token) mac_token_preimage_len then none else ticketed

unfoldable pub enqueue : RelayRequest → Session → Sent
enqueue req s =
    if s.closed
    then refused session_closed
    else if ltb (length s.send_q) send_cap
    then queued (record s { send_q = s.send_q ++ req ∷ [] })
    else blocks s

-- The request with its MAC ticket, queued; an error of the MAC is returned.
unfoldable pub with_ticket : ℕ → Bytes → Bytes → Session → Option Bytes → Sent
unfolding enqueue
with_ticket type topic payload s none = refused mac_failed
with_ticket type topic payload s (some ticket) =
    enqueue
      (record {
        sender_id = s.sender_id;
        type = type;
        topic = topic;
        payload = payload;
        ticket = ticket;
      })
      s

module _ (lib : MacLib) where
  unfoldable pub send : Bytes → Session → Sent
  unfolding with_ticket
  send payload s =
      if s.closed
      then refused session_closed
      else if is_empty payload
      then refused empty_payload
      else with_ticket publish_type s.topic payload s
          (build_mac_ticket lib publish_type s.topic payload s.ticket s)

  unfoldable pub send_to_topic : Bytes → Bytes → Bytes → Session → Sent
  unfolding with_ticket
  send_to_topic topic payload ticket s =
      if s.closed
      then refused session_closed
      else if is_empty topic || is_empty payload
      then refused missing_topic_or_payload
      else with_ticket publish_type topic payload s
          (build_mac_ticket lib publish_type topic payload ticket s)

  unfoldable pub on_stream : Bytes → Session → Option Bytes → Immediate
  unfolding with_ticket
  on_stream payload s none = by_queue (refused mac_failed)
  on_stream payload s (some ticket) =
      if s.connected
      then written (record {
        sender_id = s.sender_id;
        type = publish_type;
        topic = s.topic;
        payload = payload;
        ticket = ticket;
      })
      else by_queue (with_ticket publish_type s.topic payload s (some ticket))

  unfoldable pub send_immediate : Bytes → Session → Immediate
  unfolding on_stream build_mac_ticket
  send_immediate payload s =
      if s.closed
      then by_queue (refused session_closed)
      else if is_empty payload
      then by_queue (refused empty_payload)
      else on_stream payload s (build_mac_ticket lib publish_type s.topic payload s.ticket s)

  -- The topic is set once the ticket is built, whatever the server will answer.
  unfoldable pub subscribe_with : Bytes → Bytes → Session → Option Bytes → Sent
  unfolding with_ticket
  subscribe_with topic payload s none = refused mac_failed
  subscribe_with topic payload s (some ticket) =
      with_ticket subscribe_type topic payload (record s { topic = topic }) (some ticket)

  unfoldable pub subscribe_to_new_topic : Bytes → Bytes → Bytes → Session → Sent
  unfolding subscribe_with
  subscribe_to_new_topic topic payload ticket s =
      if s.closed
      then refused session_closed
      else if is_empty topic
      then refused empty_topic
      else if is_empty ticket
      then refused missing_ticket
      else subscribe_with topic payload s
          (build_mac_ticket lib subscribe_type topic payload ticket s)

  -- The SUBSCRIBE that `tunnelLoop` sends first on every new stream, outside of the queue.
  unfoldable pub resubscribe : Session → Option RelayRequest
  resubscribe s = elim (build_mac_ticket lib subscribe_type s.topic [] s.ticket s) [
    | none ↦ none
    | some ticket ↦ some (record {
      sender_id = s.sender_id;
      type = subscribe_type;
      topic = s.topic;
      payload = [];
      ticket = ticket;
    })
  ]

-- What `writerPump` fills in before it sends a frame.
unfoldable pub fill_request : Session → RelayRequest → RelayRequest
fill_request s req = record req {
  sender_id = if is_empty req.sender_id then s.sender_id else req.sender_id;
  topic = if req.type == publish_type && is_empty req.topic then s.topic else req.topic;
}

unfoldable pub close : Session → Session
close s = record s { closed = true }

-- `retryBackoff`, in milliseconds, and the index that `sleepBackoff` uses.
abbrev pub retry_backoff : List ℕ
retry_backoff = 0 ∷ 500 ∷ 1000 ∷ 2000 ∷ 5000 ∷ []

unfoldable pub backoff : ℕ → Option ℕ
backoff idx =
    get_elem? retry_backoff
      (if leb (length retry_backoff) idx then length retry_backoff - 1 else idx)

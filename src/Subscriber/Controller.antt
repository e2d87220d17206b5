-- ===== src/Subscriber/Controller.antt =====
-- internal/subscriber/controller.go and client.go: a session together with its gRPC connection.
-- Its errors are those of the session; the connection is a flag that says whether it is closed.
use dia.Prelude.{ℕ, ◌*◌, Bool, true, false, Option, none, some, Bytes, if◌then◌else◌}
use dia.Wire.{MacLib}
use dia.Subscriber.{
  Session, Sent, queued, refused, blocks, Immediate, send, send_immediate, send_to_topic,
  subscribe_to_new_topic, close,
}

-- The dial options of `NewRelayClient`; a limit is in bytes, a time in seconds.
pub record DialOptions : Type 0 where
  pub tls : Bool
  pub keepalive_time : ℕ
  pub keepalive_timeout : ℕ
  pub without_stream : Bool
  pub max_receive : ℕ
  pub max_send : ℕ

abbrev pub dial_options : Bool → DialOptions
dial_options use_tls = record {
  tls = use_tls;
  keepalive_time = 300;
  keepalive_timeout = 20;
  without_stream = false;
  max_receive = 4 * 1024 * 1024;
  max_send = 4 * 1024 * 1024;
}

-- `RelayClient`
pub record RelayClient : Type 0 where
  pub addr : Bytes
  pub options : DialOptions
  pub shut : Bool

-- `NewRelayClient`; `dials` is what `grpc.NewClient` says of an address and its options.
unfoldable pub new_relay_client : (Bytes → DialOptions → Bool) → Bytes → Bool → Option RelayClient
new_relay_client dials addr use_tls =
    let options = dial_options use_tls in
    if dials addr options
    then some (record { addr = addr; options = options; shut = false })
    else none

-- `Controller`, and whether its tunnel runs.
pub record Controller : Type 0 where
  pub client : RelayClient
  pub session : Session
  pub running : Bool

-- `Start`, of the controller and of its session: nothing begins once the session is closed.
unfoldable pub start_tunnel : Controller → Controller
start_tunnel c = if c.session.closed then c else record c { running = true }

-- The session after a call, the same one if the call is refused.
abbrev pub session_after : Sent → Session → Session
session_after (queued s) old = s
session_after (refused why) old = old
session_after (blocks s) old = s

abbrev pub through : (Session → Sent) → Controller → Sent × Controller
through f c = (f c.session, record c { session = session_after (f c.session) c.session })

module _ (lib : MacLib) where
  -- `Send`
  unfoldable pub controller_send : Bytes → Controller → Sent × Controller
  unfolding send
  controller_send payload c = through (send lib payload) c

  -- `SendImmediate`
  unfoldable pub controller_send_immediate : Bytes → Controller → Immediate
  unfolding send_immediate
  controller_send_immediate payload c = send_immediate lib payload c.session

  -- `SendToTopic`
  unfoldable pub controller_send_to_topic : Bytes → Bytes → Bytes → Controller → Sent × Controller
  unfolding send_to_topic
  controller_send_to_topic topic payload ticket c =
      through (send_to_topic lib topic payload ticket) c

  -- `SubscribeToNewTopicWithPayload`
  unfoldable pub controller_subscribe : Bytes → Bytes → Bytes → Controller → Sent × Controller
  unfolding subscribe_to_new_topic
  controller_subscribe topic payload ticket c =
      through (subscribe_to_new_topic lib topic payload ticket) c

-- `Close`: the session, and then the connection.
unfoldable pub close_controller : Controller → Controller
unfolding close
close_controller c = record c {
  session = close c.session;
  client = record c.client { shut = true };
  running = false;
}

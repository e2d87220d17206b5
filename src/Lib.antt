-- ===== src/Lib.antt =====
-- A model of the relay server, its client session, the SIP controller with its Baresip client and
-- experiments, the command line client and the smaller programs around them, with the theorems
-- about them.
--
-- Parts, and where they are modelled:
-- - Prelude: shared names, Boolean tests, lists by native numbers, byte strings.
-- - Decimal: the decimal print and `strconv.Atoi` that the framing uses. An int is its 64-bit
--   pattern.
-- - Netstring (internal/sipcontroller/netstring.go): `encode` is `Encode`, `try_parse` is
--   `tryParse`, `decode` is one call of `Decode` over the reads that the stream will answer.
--   Prefix says what it makes of the beginning of a stream; RoundTrip and Faults hold the proofs.
-- - Wire (api/go/relay/v1/relay.pb.go): the frames of the Tunnel stream and the input of their
--   MAC.
-- - Relay/Store (internal/relay/redis_store.go): the message store. Redis and the JSON coding of a
--   record are parameters, since they are not code of the repository. Relay/Log sees it as a log,
--   Relay/Open opens it.
-- - Relay/Server (internal/relay/grpc.go): the handlers, over the sessions and topics of
--   Relay/Sessions, and Relay/Tunnel: the loop of `Tunnel` with its MAC check. Relay/Steps has the
--   moves of the server, whose sequences are its interleavings; Topics, Distinct and Invariant
--   hold its invariant, Fanout and Replay what publishing and subscribing do, Window what happens
--   to a frame in the midst of a subscription.
-- - Subscriber (internal/subscriber/session.go): the client's session and the requests that it
--   queues. Accepted relates them to the MAC check of the relay server, Delivery follows a payload
--   through it to another client, Tunnel is the loop that reconnects, Pace how long it waits,
--   Welcome the requests that it begins with; Subscriber/Controller puts it together with its
--   connection.
-- - Phone and CallManager (internal/sipcontroller/callmanager.go): phone numbers of SIP URIs; the
--   call sessions, in CallSession, and the maps that find them. A session pointer is an index of a
--   store. Sound says when the maps agree with the sessions, Kept and Bound carry it through the
--   operations.
-- - Controller (internal/sipcontroller/controller.go): Data has what all of it shares, State the
--   session at hand, with what its handler sends out, and the steps that end a handler early; Oda,
--   Messages and Protocol the handlers on one session; Events and Handlers those of Baresip's
--   events over the call manager. Service has the controller from its start to its stop with the
--   loop over Baresip's events, Serve and Reach follow its call manager through all of it. Keep,
--   Parts, Starts, Leaves, Reports, History and Moves carry a relation through the handlers; Once
--   and Life follow what is reported, Registry the ids of a session, Gate what ends the protocol
--   of an incoming call. Relay client calls of a handler go to the Subscriber session that it
--   holds. Overlap is about a second call to a peer.
-- - Baresip (internal/sipcontroller/baresip.go): the client that sends commands and reads their
--   replies; Pending has its invariant, which Sound carries through its operations; Steps are the
--   interleavings of its goroutines, Commands what its users send.
-- - Callauth (cmd/client/callauth/main.go): the command line client; its handlers here,
--   `handleMessage` in Messages, its start in Start, `parseFlags` in Options, `parseCommaList` in
--   Flags. Keep carries a relation through the handlers, Moves and Run follow its goodbyes and its
--   requests for ODA, Topic its topic.
-- - Experiment (cmd/sipcontroller/main.go): Loop has `runExperiment` over what the controller
--   answers and the results that it sends; Pipeline, Rounds and Orderly count its calls, Rows
--   follows its CSV file, Receiver has the rows that are written outside of an experiment, Csv the
--   columns of the file.
-- - PeerCache (internal/sipcontroller/peer_session_cache.go), PeerCache/Shared
--   (internal/peersessioncache/cache.go): the two caches of peer sessions over Redis. Keys, Find,
--   Twin, Scan and Clear hold the proofs.
-- - Settings (internal/sipcontroller/config.go): the flags and the environment file of the
--   controller; Env is about its phone number. Text has what trimming leaves of a text.
-- - Console and Process (cmd/sipcontroller/main.go): the commands that are typed, with
--   `commandLoop` in Console/Loop; `main`.
-- - Enrollment (internal/enrollment, cmd/enrollment, cmd/client/enroll), Helpers
--   (internal/helpers, internal/relay/config.go, cmd/relay) and Benchmark (cmd/benchmark): the
--   smaller programs, over libdia, SHA-256 and what the system answers.
--
-- A handler of the controller, or of the command line client, is one step on its session, also
-- where it runs in a goroutine; where goroutines race for the row of an answered call,
-- Controller/Life has the second one as a step of its own. Baresip's replies are arguments, and so
-- are times. The server's maps change under its mutex, so each such change is one step;
-- handleSubscribe and, behind its snapshot of the recipients, handlePublish are cut into phases,
-- between which other streams may move. Logging is left out. libdia enters as parameters: its
-- message parser, its MAC functions, its call states, its enrollment and its benchmarks. Fuel:
-- `Decimal.digits` is given more rounds than a number has digits, the filling of an experiment's
-- pipeline as many as there are calls; `clear_all` takes any fuel, with a theorem on how much is
-- enough. `strings.TrimSpace`, `strings.Fields` and `strings.ToLower` are those of ASCII text.
--
-- Not modelled: the bytes on the TCP connection to Baresip, the reading of flags and environment
-- variables and the quoting of CSV by libraries, the gRPC transport, the wording of messages and
-- logs.
pub mod Prelude
pub mod Decimal
pub mod Netstring
pub mod Wire
pub mod Relay
pub mod Subscriber
pub mod Phone
pub mod CallSession
pub mod CallManager
pub mod Controller
pub mod Experiment
pub mod PeerCache
pub mod Baresip
pub mod Callauth
pub mod Text
pub mod Settings
pub mod Console
pub mod Enrollment
pub mod Process
pub mod Helpers
pub mod Benchmark

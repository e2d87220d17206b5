-- ===== src/Relay/Server.antt =====
-- internal/relay/grpc.go: the sessions, the topics and the handlers of the `Tunnel` stream.
-- A session pointer is a number. A method takes the server and returns it; the locks make each of
-- `detach`, `addToTopic` and the like one step. `handleSubscribe` and `handlePublish` are given in the
-- phases between which other streams may run, and as a whole for a run with none in between.
pub use dia.Relay.Sessions.{Sess, new_sess, queue_cap, Topics, put, subscribers}
unfoldable pub use dia.Relay.Sessions.{try_enqueue, remove, member, add, leave, ensure}
use dia.Prelude.{
  ℕ, Bool, true, false, not, ◌&&◌, ◌||◌, List, [], ◌∷◌, Option, none, some, Bytes, str_eq, is_empty,
  ltb, ◌==◌, if◌then◌else◌, length, drop,
}
use dia.Wire.{
  RelayRequest, RelayResponse, event, error, ErrorText, Code, missing_topic_or_payload,
  topic_does_not_exist, missing_topic, invalid_argument, permission_denied, MacLib,
}
use dia.Relay.Store.{
  Redis, Codec, StoredMsg, store_message, get_message_history, topic_tracked, create_topic,
  delete_topic,
}

pub record Server (Db : Type 0) : Type 0 where
  pub clients : Topics
  pub sess : ℕ → Sess
  pub db : Db

-- The message types of libdia that the code names.
pub data MsgType : Type 0 where
  ake_request ake_response ake_complete rua_request rua_response : MsgType
  oda_request oda_response bye heartbeat other_type : MsgType

abbrev pub is_terminal : Option MsgType → Bool
is_terminal none = false
is_terminal (some t) = elim t [ MsgType.ake_complete ↦ true | MsgType.bye ↦ true | _ ↦ false ]

-- What the handlers use of the rest of the world: the store's parameters, the message parser of
-- libdia (`none` is a parse error), its MAC check, and the server's configuration.
pub record World : Type 1 where
  pub redis : Redis
  pub codec : Codec
  pub message_type : Bytes → Option MsgType
  pub mac : MacLib
  pub at_private_key : Bytes
  pub ttl : ℕ

abbrev pub State : World → Type 0
State w = Server w.redis.Db

module _ {Db : Type 0} where
  abbrev pub set_sess : ℕ → Sess → Server Db → Server Db
  set_sess i s v = record v { sess = λ j. if i == j then s else v.sess j }

  unfoldable pub enqueue_to : ℕ → RelayResponse → Server Db → Server Db
  enqueue_to i resp v = set_sess i (try_enqueue resp (v.sess i)) v

  unfoldable pub send_error : ℕ → Code → ErrorText → Bytes → Server Db → Server Db
  unfolding enqueue_to
  send_error i code text topic v = enqueue_to i (error topic code text) v

  -- `detach`: out of the active topic, if any, and the queue is closed.
  unfoldable pub detach : ℕ → Server Db → Server Db
  unfolding leave
  detach i v =
      let s = v.sess i in
      let gone = if is_empty s.active_topic then v.clients else leave s.active_topic i v.clients in
      set_sess i (record s { active_topic = []; closed = true }) (record v { clients = gone })

  unfoldable pub ensure_topic_bucket : Bytes → Server Db → Server Db
  unfolding ensure
  ensure_topic_bucket topic v = record v { clients = ensure topic v.clients }

  unfoldable pub add_to_topic : Bytes → ℕ → Server Db → Server Db
  unfolding leave ensure add
  add_to_topic topic i v =
      let s = v.sess i in
      let old =
        if not (is_empty s.active_topic) && not (str_eq s.active_topic topic)
        then leave s.active_topic i v.clients
        else v.clients in
      let clients = ensure topic old in
      set_sess i (record s { active_topic = topic })
        (record v { clients = put topic (some (add i (subscribers clients topic))) clients })

  unfoldable pub remove_from_active : ℕ → Server Db → Server Db
  unfolding leave
  remove_from_active i v =
      let s = v.sess i in
      if is_empty s.active_topic
      then v
      else set_sess i (record s { active_topic = [] })
          (record v { clients = leave s.active_topic i v.clients })

  -- The writer goroutine sends the head of the queue; a failed send detaches the session.
  unfoldable pub writer_step : ℕ → Bool → Server Db → Server Db
  unfolding detach
  writer_step i sent v = elim (v.sess i).send_q [
    | [] ↦ v
    | resp ∷ rest ↦
        let v' = set_sess i (record (v.sess i) { send_q = rest }) v in
        if sent then v' else detach i v'
  ]

  -- One recipient of the snapshot: not the sender, and not a session that replays.
  unfoldable pub offer : ℕ → RelayResponse → ℕ → Server Db → Server Db
  unfolding enqueue_to
  offer sender resp j v = if j == sender || (v.sess j).replaying then v else enqueue_to j resp v

  -- The loop over the snapshot of the recipients.
  unfoldable pub fan_out : ℕ → RelayResponse → List ℕ → Server Db → Server Db
  unfolding offer
  fan_out sender resp [] v = v
  fan_out sender resp (j ∷ js) v = fan_out sender resp js (offer sender resp j v)

module _ (w : World) where
  open w use {redis, codec, message_type, ttl}

  or_false : Option Bool → Bool
  or_false none = false
  or_false (some b) = b

  -- `topicExists`: a store error is logged and reads as false.
  unfoldable pub topic_exists : Bytes → State w → Bool
  unfolding or_false
  topic_exists topic v = elim (v.clients topic) [
    | some js ↦ true
    | none ↦ or_false (topic_tracked redis codec topic v.db)
  ]

  -- History is kept of non-terminal frames only; a store error is logged.
  unfoldable pub persist : RelayRequest → State w → State w
  persist req v = if is_terminal (message_type req.payload) then v else record v {
    db = (store_message redis codec ttl req.topic req.payload req.sender_id v.db).1;
  }

  -- A terminal frame clears the stored history, after the fan-out.
  unfoldable pub clear : RelayRequest → State w → State w
  clear req v =
      if is_terminal (message_type req.payload)
      then record v { db = (delete_topic redis codec req.topic v.db).1 }
      else v

  -- `handlePublish` from the snapshot of the recipients on.
  unfoldable pub deliver : ℕ → RelayRequest → State w → State w
  unfolding persist clear
  deliver i req v =
      clear req
        (fan_out i (event req.topic req.payload) (subscribers v.clients req.topic) (persist req v))

  -- `handlePublish`, with no other stream in between.
  unfoldable pub handle_publish : ℕ → RelayRequest → State w → State w
  handle_publish i req v =
      if is_empty req.topic || is_empty req.payload
      then send_error i invalid_argument missing_topic_or_payload req.topic v
      else if not (topic_exists req.topic v)
      then send_error i permission_denied topic_does_not_exist req.topic v
      else deliver i req v

  -- The topic's set is made if it is not there, and a topic seen for the first time is created in the
  -- store, whose error is only logged.
  unfoldable pub open_topic : Bytes → State w → State w
  unfolding ensure_topic_bucket
  open_topic target v =
      let bucket = ensure_topic_bucket target v in
      if topic_exists target v
      then bucket
      else record bucket { db = (create_topic redis codec ttl target bucket.db).1 }

  -- The previous active topic is left if it is another one.
  unfoldable pub switch_from : ℕ → Bytes → State w → State w
  switch_from i target v =
      let active = (v.sess i).active_topic in
      if not (is_empty active) && not (str_eq active target) then remove_from_active i v else v

  unfoldable pub set_replaying : ℕ → Bool → State w → State w
  set_replaying i b v = set_sess i (record (v.sess i) { replaying = b }) v

  -- `handleSubscribe` up to the first fetch.
  unfoldable pub prepare : ℕ → Bytes → State w → State w
  unfolding open_topic switch_from set_replaying
  prepare i target v = set_replaying i true (switch_from i target (open_topic target v))

  -- A failed fetch is logged and reads as no history.
  unfoldable pub fetch : Bytes → State w → List StoredMsg
  fetch topic v = elim (get_message_history redis codec topic v.db) [ none ↦ [] | some msgs ↦ msgs ]

  -- The loop over a history: the subscriber's own messages are left out.
  unfoldable pub replay : ℕ → RelayRequest → List StoredMsg → State w → State w
  unfolding enqueue_to
  replay i req [] v = v
  replay i req (m ∷ ms) v = replay i req ms (
      if not (is_empty req.sender_id) && str_eq m.sender_id req.sender_id
      then v
      else enqueue_to i (event req.topic m.payload) v)

  -- `addToTopic` and the first replay.
  unfoldable pub join : ℕ → RelayRequest → List StoredMsg → State w → State w
  unfolding add_to_topic
  join i req hist v = replay i req hist (add_to_topic req.topic i v)

  -- The second fetch: what it holds beyond the first one's length is replayed too.
  unfoldable pub catch_up : ℕ → RelayRequest → List StoredMsg → State w → State w
  unfolding fetch
  catch_up i req hist v =
      let hist2 = fetch req.topic v in
      if ltb (length hist) (length hist2) then replay i req (drop (length hist) hist2) v else v

  -- Live delivery is on again.
  unfoldable pub go_live : ℕ → State w → State w
  unfolding set_replaying
  go_live i v = set_replaying i false v

  -- The phases with no other stream in between, for a topic that is not empty.
  unfoldable pub subscribe_all : ℕ → RelayRequest → State w → State w
  subscribe_all i req v =
      let v1 = prepare i req.topic v in
      let hist = fetch req.topic v1 in
      let v2 = join i req hist v1 in
      let v3 = catch_up i req hist v2 in
      let v4 = go_live i v3 in if is_empty req.payload then v4 else handle_publish i req v4

  unfoldable pub handle_subscribe : ℕ → RelayRequest → State w → State w
  handle_subscribe i req v =
      if is_empty req.topic
      then send_error i invalid_argument missing_topic [] v
      else subscribe_all i req v

-- ===== src/Relay/Steps.antt =====
-- What every step of the server keeps: a property that each of its primitive operations keeps.
-- A run is any interleaving of received requests, the writers, and the phases of subscriptions.
use dia.Prelude.{
  ℕ, ◌≡◌, ◌≢◌, inl, inr, Bool, true, false, not, ◌&&◌, ◌||◌, List, [], ◌∷◌, Option, none, some,
  arith, Bytes, str_eq, is_empty, ltb, ◌==◌, if◌then◌else◌, Bool-cases, Option-cases, length, drop,
}
use dia.Wire.{RelayRequest, RelayResponse, publish_type, subscribe_type}
use dia.Relay.Store.{StoredMsg}
use dia.Relay.Server.{
  Server, State, World, is_terminal, set_sess, enqueue_to, send_error, detach, ensure_topic_bucket,
  add_to_topic, remove_from_active, writer_step, offer, fan_out, topic_exists, persist, clear,
  deliver, handle_publish, fetch, replay, join, catch_up, go_live, open_topic, switch_from, prepare,
  subscribe_all, handle_subscribe,
}
use dia.Relay.Tunnel.{refusal, dispatch, verify_request_mac, proceed, tunnel_step}

pub record Keeps {Db : Type 0} (P : Server Db → Type 0) : Type 0 where
  pub writes : (v : Server Db) (d : Db) → P v → P (record v { db = d })
  pub enqueues : (i : ℕ) (resp : RelayResponse) (v : Server Db) → P v → P (enqueue_to i resp v)
  pub detaches : (i : ℕ) (v : Server Db) → P v → P (detach i v)
  pub buckets : (topic : Bytes) (v : Server Db) → P v → P (ensure_topic_bucket topic v)
  pub joins :
      (topic : Bytes) (i : ℕ) (v : Server Db) → topic ≢ [] → P v → P (add_to_topic topic i v)
  pub leaves : (i : ℕ) (v : Server Db) → P v → P (remove_from_active i v)
  pub flags :
      (i : ℕ) (b : Bool) (v : Server Db)
      → P v
      → P (set_sess i (record (v.sess i) { replaying = b }) v)
  pub sends : (i : ℕ) (sent : Bool) (v : Server Db) → P v → P (writer_step i sent v)

if-keeps {ℓ κ} :
    {A : Type ℓ} (P : A → Type κ) (b : Bool) (x y : A) → P x → P y → P (if b then x else y)
if-keeps P true x y hx hy = hx
if-keeps P false x y hx hy = hy

not_nil : (s : Bytes) → is_empty s ≡ false → s ≢ []
not_nil s e n = ground arith

module _ (w : World) (P : State w → Type 0) (k : Keeps P) where
  offer-keeps :
      (sender : ℕ) (resp : RelayResponse) (j : ℕ) (v : State w) → P v → P (offer sender resp j v)
  unfolding offer
  offer-keeps sender resp j v h =
      if-keeps P (j == sender || (v.sess j).replaying) v (enqueue_to j resp v) h
        (k.enqueues j resp v h)

  fan_out-keeps :
      (sender : ℕ) (resp : RelayResponse) (js : List ℕ) (v : State w)
      → P v
      → P (fan_out sender resp js v)
  unfolding fan_out
  fan_out-keeps sender resp [] v h = h
  fan_out-keeps sender resp (j ∷ js) v h =
      fan_out-keeps sender resp js _ (offer-keeps sender resp j v h)

  replay-keeps :
      (i : ℕ) (req : RelayRequest) (ms : List StoredMsg) (v : State w)
      → P v
      → P (replay w i req ms v)
  unfolding replay
  replay-keeps i req [] v h = h
  replay-keeps i req (m ∷ ms) v h = replay-keeps i req ms _ (
      if-keeps P (not (is_empty req.sender_id) && str_eq m.sender_id req.sender_id) v _ h
        (k.enqueues i _ v h))

  persist-keeps : (req : RelayRequest) (v : State w) → P v → P (persist w req v)
  unfolding persist
  persist-keeps req v h =
      if-keeps P (is_terminal (w.message_type req.payload)) _ _ h (k.writes v _ h)

  clear-keeps : (req : RelayRequest) (v : State w) → P v → P (clear w req v)
  unfolding clear
  clear-keeps req v h = if-keeps P (is_terminal (w.message_type req.payload)) _ _ (k.writes v _ h) h

  deliver-keeps : (i : ℕ) (req : RelayRequest) (v : State w) → P v → P (deliver w i req v)
  unfolding deliver
  deliver-keeps i req v h =
      clear-keeps req _ (fan_out-keeps i _ _ (persist w req v) (persist-keeps req v h))

  handle_publish-keeps :
      (i : ℕ) (req : RelayRequest) (v : State w) → P v → P (handle_publish w i req v)
  unfolding handle_publish send_error
  handle_publish-keeps i req v h =
      if-keeps P (is_empty req.topic || is_empty req.payload) _ _ (k.enqueues i _ v h) (
        if-keeps P (not (topic_exists w req.topic v)) _ _ (k.enqueues i _ v h)
          (deliver-keeps i req v h))

  open_topic-keeps : (topic : Bytes) (v : State w) → P v → P (open_topic w topic v)
  unfolding open_topic
  open_topic-keeps topic v h =
      if-keeps P (topic_exists w topic v) (ensure_topic_bucket topic v) _ (k.buckets topic v h)
        (k.writes (ensure_topic_bucket topic v) _ (k.buckets topic v h))

  switch_from-keeps : (i : ℕ) (topic : Bytes) (v : State w) → P v → P (switch_from w i topic v)
  unfolding switch_from
  switch_from-keeps i topic v h = if-keeps P _ (remove_from_active i v) v (k.leaves i v h) h

  prepare-keeps : (i : ℕ) (topic : Bytes) (v : State w) → P v → P (prepare w i topic v)
  unfolding prepare
  prepare-keeps i topic v h =
      k.flags i true _ (switch_from-keeps i topic _ (open_topic-keeps topic v h))

  join-keeps :
      (i : ℕ) (req : RelayRequest) (hist : List StoredMsg) (v : State w)
      → req.topic ≢ []
      → P v
      → P (join w i req hist v)
  unfolding join
  join-keeps i req hist v ne h = replay-keeps i req hist _ (k.joins req.topic i v ne h)

  catch_up-keeps :
      (i : ℕ) (req : RelayRequest) (hist : List StoredMsg) (v : State w)
      → P v
      → P (catch_up w i req hist v)
  unfolding catch_up
  catch_up-keeps i req hist v h =
      if-keeps P (ltb (length hist) (length (fetch w req.topic v))) _ _
        (replay-keeps i req (drop (length hist) (fetch w req.topic v)) v h) h

  go_live-keeps : (i : ℕ) (v : State w) → P v → P (go_live w i v)
  unfolding go_live
  go_live-keeps i v h = k.flags i false v h

  subscribe_all-keeps :
      (i : ℕ) (req : RelayRequest) (v : State w)
      → req.topic ≢ []
      → P v
      → P (subscribe_all w i req v)
  unfolding subscribe_all
  subscribe_all-keeps i req v ne h =
      let live =
        go_live-keeps i _
          (catch_up-keeps i req _ _ (join-keeps i req _ _ ne (prepare-keeps i req.topic v h))) in
      if-keeps P (is_empty req.payload) _ _ live (handle_publish-keeps i req _ live)

  handle_subscribe-keeps :
      (i : ℕ) (req : RelayRequest) (v : State w) → P v → P (handle_subscribe w i req v)
  unfolding handle_subscribe send_error
  handle_subscribe-keeps i req v h = elim (Bool-cases (is_empty req.topic)) [
    | inl e ↦ rw e (k.enqueues i _ v h)
    | inr e ↦ rw e (subscribe_all-keeps i req v (not_nil req.topic e) h)
  ]

  dispatch-keeps : (i : ℕ) (req : RelayRequest) (v : State w) → P v → P (dispatch w i req v)
  unfolding dispatch send_error
  dispatch-keeps i req v h =
      if-keeps P (req.type == publish_type) _ _ (handle_publish-keeps i req v h) (
        if-keeps P (req.type == subscribe_type) _ _ (handle_subscribe-keeps i req v h)
          (k.enqueues i _ v h))

  verify_request_mac-keeps :
      (i : ℕ) (req : RelayRequest) (v : State w) → P v → P (verify_request_mac w i req v).1
  unfolding verify_request_mac send_error
  verify_request_mac-keeps i req v h = elim (Option-cases (refusal w req)) [
    | inl e ↦ rw (e, verify_request_mac) h
    | inr (why, e) ↦ rw (e, verify_request_mac) (k.enqueues i _ v h)
  ]

  proceed-keeps : (i : ℕ) (req : RelayRequest) (r : Bool × State w) → P r.1 → P (proceed w i req r)
  unfolding proceed
  proceed-keeps i req (true, v) h = dispatch-keeps i req v h
  proceed-keeps i req (false, v) h = h

  pub tunnel_step-keeps :
      (i : ℕ) (r : Option RelayRequest) (v : State w) → P v → P (tunnel_step w i r v)
  unfolding tunnel_step
  tunnel_step-keeps i none v h = k.detaches i v h
  tunnel_step-keeps i (some req) v h =
      proceed-keeps i req (verify_request_mac w i req v) (verify_request_mac-keeps i req v h)

-- One move of the server, in any order: a round of a stream's loop, a writer, one phase of a
-- subscription, or one phase of a publish behind its snapshot of the recipients: the storing, the
-- offer to one of them, also after that one has moved on, the clearing. Between the phases the other
-- streams move.
pub data Move (w : World) (v : State w) : State w → Type 0 where
  tunnel : (i : ℕ) (r : Option RelayRequest) → Move w v (tunnel_step w i r v)
  writer : (i : ℕ) (sent : Bool) → Move w v (writer_step i sent v)
  prepares : (i : ℕ) (topic : Bytes) → Move w v (prepare w i topic v)
  joins :
      (i : ℕ) (req : RelayRequest) (hist : List StoredMsg)
      → req.topic ≢ []
      → Move w v (join w i req hist v)
  catches :
      (i : ℕ) (req : RelayRequest) (hist : List StoredMsg) → Move w v (catch_up w i req hist v)
  lives : (i : ℕ) → Move w v (go_live w i v)
  stores : (req : RelayRequest) → Move w v (persist w req v)
  offers : (sender : ℕ) (resp : RelayResponse) (j : ℕ) → Move w v (offer sender resp j v)
  clears : (req : RelayRequest) → Move w v (clear w req v)

pub data Reach (w : World) (v : State w) : State w → Type 0 where
  here : Reach w v v
  next : {u x : State w} → Reach w v u → Move w u x → Reach w v x

module _ (w : World) (P : State w → Type 0) (k : Keeps P) where
  Move-keeps : {v u : State w} → Move w v u → P v → P u
  Move-keeps {v} (tunnel i r) h = tunnel_step-keeps w P k i r v h
  Move-keeps {v} (writer i sent) h = k.sends i sent v h
  Move-keeps {v} (prepares i topic) h = prepare-keeps w P k i topic v h
  Move-keeps {v} (joins i req hist ne) h = join-keeps w P k i req hist v ne h
  Move-keeps {v} (catches i req hist) h = catch_up-keeps w P k i req hist v h
  Move-keeps {v} (lives i) h = go_live-keeps w P k i v h
  Move-keeps {v} (stores req) h = persist-keeps w P k req v h
  Move-keeps {v} (offers sender resp j) h = offer-keeps w P k sender resp j v h
  Move-keeps {v} (clears req) h = clear-keeps w P k req v h

  pub Reach-keeps : {v u : State w} → Reach w v u → P v → P u
  Reach-keeps here h = h
  Reach-keeps (next r m) h = Move-keeps m (Reach-keeps r h)

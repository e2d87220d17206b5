-- ===== src/CallManager.antt =====
-- internal/sipcontroller/callmanager.go: the call manager, which finds sessions by its maps.
-- A session pointer is a number, an index of the store `sessions`; a session that the manager drops
-- stays in the store, as memory does while a goroutine holds the pointer.
pub mod Maps
pub mod Binding
pub mod Peers
pub mod Registry
pub mod Sound
pub mod Kept
pub mod Bound
mod Tests
pub use dia.CallSession.{
  CallState, Direction, OdaEnd, Outcome, RemoteParty, CallSession, is_incoming, is_closed, outgoing,
  incoming, oda_done, oda_timed_out, answered, call_closed, call_error, oda_ended,
}
unfoldable pub use dia.CallSession.{new_call_session, cleanup}
use dia.Prelude.{
  ℕ, suc, ◌+◌, ◌%◌, ◌^◌, ◌≡◌, Bool, true, false, not, ◌&&◌, ◌||◌, List, [], ◌∷◌, ◌++◌, Option, none,
  some, Bytes, codes, str_eq, is_empty, ltb, ◌==◌, if◌then◌else◌, length, get_elem?,
}
use dia.Decimal.{format}
use dia.Phone.{extract_phone}
use dia.Subscriber

-- A map from strings, as the list of its entries.
abbrev pub Entries : Type 0 → Type 0
Entries V = List (Bytes × V)

module _ {V : Type 0} where
  unfoldable pub lookup : Bytes → Entries V → Option V
  lookup k [] = none
  lookup k ((j, v) ∷ m) = if str_eq j k then some v else lookup k m

  unfoldable pub delete : Bytes → Entries V → Entries V
  delete k [] = []
  delete k ((j, v) ∷ m) = if str_eq j k then delete k m else (j, v) ∷ delete k m

  unfoldable pub store : Bytes → V → Entries V → Entries V
  unfolding delete
  store k v m = (k, v) ∷ delete k m

pub record CallManager (D : Type 0) : Type 0 where
  pub attempt_counter : ℕ
  pub sessions : List (CallSession D)
  pub by_attempt : Entries ℕ
  pub by_call_id : Entries ℕ
  pub pending_by_peer : Entries (List ℕ)

unfoldable pub attempt_name : ℕ → Bytes
attempt_name n = b'a' ∷ format n

-- `queue[peer]`, nil if it is not there.
unfoldable pub queue_of : Bytes → Entries (List ℕ) → List ℕ
queue_of peer m = elim (lookup peer m) [ none ↦ [] | some q ↦ q ]

-- The queue is written back, or its key goes with its last session.
unfoldable pub set_queue : Bytes → List ℕ → Entries (List ℕ) → Entries (List ℕ)
set_queue peer q m = if is_empty q then delete peer m else store peer q m

-- The loop that filters a queue by pointer.
unfoldable pub drop_ref : ℕ → List ℕ → List ℕ
drop_ref r [] = []
drop_ref r (q ∷ qs) = if q == r then drop_ref r qs else q ∷ drop_ref r qs

module _ {D : Type 0} where
  unfoldable pub update_at :
      ℕ → (CallSession D → CallSession D) → List (CallSession D) → List (CallSession D)
  update_at i f [] = []
  update_at ℕ.zero f (s ∷ ss) = f s ∷ ss
  update_at (suc i) f (s ∷ ss) = s ∷ update_at i f ss

  abbrev pub modify : ℕ → (CallSession D → CallSession D) → CallManager D → CallManager D
  modify r f m = record m { sessions = update_at r f m.sessions }

  unfoldable pub new_call_manager : CallManager D
  new_call_manager = record {
    attempt_counter = 0;
    sessions = [];
    by_attempt = [];
    by_call_id = [];
    pending_by_peer = [];
  }

  -- The counter after `Add(1)`.
  abbrev pub next_attempt : CallManager D → ℕ
  next_attempt m = (m.attempt_counter + 1) % 2 ^ 64

  -- The pointer of the session that is created next.
  abbrev pub fresh_ref : CallManager D → ℕ
  fresh_ref m = length m.sessions

  -- `NewOutgoingAttempt`: the session goes to the end of its peer's queue.
  unfoldable pub new_outgoing_attempt : Bytes → Bytes → Bool → CallManager D → ℕ × CallManager D
  unfolding new_call_session store queue_of attempt_name
  new_outgoing_attempt phone uri protocol m =
      let r = fresh_ref m in
      let id = attempt_name (next_attempt m) in
      let s = record (new_call_session {D = D} phone uri outgoing) {
        attempt_id = id;
        protocol_enabled = protocol;
      } in
      (
        r,
        record m {
          attempt_counter = next_attempt m;
          sessions = m.sessions ++ s ∷ [];
          by_attempt = store id r m.by_attempt;
          pending_by_peer =
              store phone (queue_of phone m.pending_by_peer ++ r ∷ []) m.pending_by_peer;
        },
      )

  -- `NewIncomingSession`; an empty call-id is not registered.
  unfoldable pub new_incoming_session :
      Bytes → Bytes → Bytes → Bytes → CallManager D → ℕ × CallManager D
  unfolding new_call_session store attempt_name
  new_incoming_session call_id uri name aor m =
      let r = fresh_ref m in
      let id = attempt_name (next_attempt m) in
      let s = record (new_call_session {D = D} (extract_phone uri) uri incoming) {
        attempt_id = id;
        call_id = call_id;
        peer_name = name;
        account_aor = aor;
      } in
      (
        r,
        record m {
          attempt_counter = next_attempt m;
          sessions = m.sessions ++ s ∷ [];
          by_attempt = store id r m.by_attempt;
          by_call_id = if is_empty call_id then m.by_call_id else store call_id r m.by_call_id;
        },
      )

  unfoldable pub bind_next :
      Bytes → Bytes → Bytes → Bytes → List ℕ → CallManager D → Option ℕ × CallManager D
  unfolding set_queue update_at
  bind_next phone call_id uri aor [] m = (none, m)
  bind_next phone call_id uri aor (r ∷ q) m = (
    some r,
    record m {
      sessions =
          update_at r (λ s. record s { call_id = call_id; peer_uri = uri; account_aor = aor })
            m.sessions;
      pending_by_peer = set_queue phone q m.pending_by_peer;
      by_call_id = if is_empty call_id then m.by_call_id else store call_id r m.by_call_id;
    },
  )

  -- `BindOutgoingCallID`: the oldest pending session of the peer gets the call-id.
  unfoldable pub bind_outgoing :
      Bytes → Bytes → Bytes → Bytes → CallManager D → Option ℕ × CallManager D
  unfolding bind_next
  bind_outgoing phone call_id uri aor m =
      bind_next phone call_id uri aor (queue_of phone m.pending_by_peer) m

  abbrev pub get_by_call_id : Bytes → CallManager D → Option ℕ
  get_by_call_id k m = lookup k m.by_call_id

  abbrev pub get_by_attempt_id : Bytes → CallManager D → Option ℕ
  get_by_attempt_id k m = lookup k m.by_attempt

  unfoldable pub forget : ℕ → CallSession D → CallManager D → CallManager D
  unfolding set_queue drop_ref
  forget r s m =
      let q = queue_of s.peer_phone m.pending_by_peer in
      record m {
        by_attempt =
            if is_empty s.attempt_id then m.by_attempt else delete s.attempt_id m.by_attempt;
        by_call_id = if is_empty s.call_id then m.by_call_id else delete s.call_id m.by_call_id;
        pending_by_peer =
            if is_empty s.peer_phone || is_empty q
            then m.pending_by_peer
            else set_queue s.peer_phone (drop_ref r q) m.pending_by_peer;
      }

  -- `RemoveSession`: by the ids and the phone that the session has now.
  unfoldable pub remove_session : ℕ → CallManager D → CallManager D
  unfolding forget
  remove_session r m = elim (get_elem? m.sessions r) [ none ↦ m | some s ↦ forget r s m ]

  unfoldable pub matches : Bytes → Option (CallSession D) → Bool
  matches phone none = false
  matches phone (some s) = str_eq s.peer_phone phone && not (is_closed s)

  -- The first session of the peer that is not closed, in the order in which the map is walked.
  unfoldable pub first_active : Bytes → CallManager D → Entries ℕ → Option ℕ
  unfolding matches
  first_active phone m [] = none
  first_active phone m ((k, r) ∷ es) =
      if matches phone (get_elem? m.sessions r) then some r else first_active phone m es

  -- `GetActiveSessionByPeer`. Go walks a map in no fixed order: `order` is the walk's.
  unfoldable pub get_active_session_by_peer :
      (Entries ℕ → Entries ℕ) → Bytes → CallManager D → Option ℕ
  unfolding first_active
  get_active_session_by_peer order phone m = first_active phone m (order m.by_attempt)

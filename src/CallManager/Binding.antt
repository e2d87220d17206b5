-- ===== src/CallManager/Binding.antt =====
-- Pending attempts of a peer are bound to call-ids oldest first.
use dia.Prelude.{
  ℕ, ◌≡◌, refl, ◌∙◌, inl, inr, Bool, true, false, not, ◌&&◌, ◌||◌, List, [], ◌∷◌, ◌++◌, none, some,
  arith, Bytes, str_eq, str_eq_iff, str_eq_refl, is_empty, ◌==◌, if◌then◌else◌, Bool-cases,
  get_elem?,
}
use dia.CallManager.{
  Entries, lookup, delete, store, queue_of, set_queue, drop_ref, CallSession, CallManager,
  fresh_ref, attempt_name, next_attempt, new_outgoing_attempt, bind_outgoing, get_by_call_id,
  get_by_attempt_id, remove_session,
}
use dia.CallManager.Maps.{
  lookup-delete, lookup-store, queue_of-store, queue_of-set_queue, holds, holds-drop_ref,
  get_elem?-update_at,
}

-- The pending sessions of a peer, oldest first.
abbrev pub pending : {D : Type 0} → Bytes → CallManager D → List ℕ
pending phone m = queue_of phone m.pending_by_peer

lookup_stored : (k : Bytes) (r : ℕ) (m : Entries ℕ) → lookup k (store k r m) ≡ some r
lookup_stored k r m = lookup-store k k r m ∙ rw (str_eq_refl k)

module _ {D : Type 0} where
  -- A new outgoing attempt waits behind its peer's earlier ones, and no other peer's queue changes;
  -- it is found by its attempt id.
  pub new_outgoing_attempt_waits :
      (phone uri other : Bytes) (protocol : Bool) (m : CallManager D)
      → let (r, m') = new_outgoing_attempt phone uri protocol m in
        (pending other m'
          ≡ (if str_eq phone other then pending phone m ++ r ∷ [] else pending other m))
        × (get_by_attempt_id (attempt_name (next_attempt m)) m' ≡ some r)
  unfolding new_outgoing_attempt
  new_outgoing_attempt_waits phone uri other protocol m = (
    queue_of-store phone other _ m.pending_by_peer,
    lookup_stored (attempt_name (next_attempt m)) (fresh_ref m) m.by_attempt,
  )

  -- With pending attempts, the oldest of which leads to a session, a call event binds that one: it
  -- leaves the queue, no other peer's queue changes, and it has the event's call-id, by which it is found if that is not empty; an
  -- empty one leads to what it led to before.
  pub bind_serves_oldest :
      (phone call_id uri aor other : Bytes) (r : ℕ) (q : List ℕ) (s : CallSession D)
      (m : CallManager D)
      → pending phone m ≡ r ∷ q
      → get_elem? m.sessions r ≡ some s
      → let (found, m') = bind_outgoing phone call_id uri aor m in
        (found ≡ some r)
        × (pending other m' ≡ (if str_eq phone other then q else pending other m))
        × (get_by_call_id call_id m'
            ≡ (if is_empty call_id then get_by_call_id call_id m else some r))
        × (get_elem? m'.sessions r
            ≡ some (record s { call_id = call_id; peer_uri = uri; account_aor = aor }))
  unfolding bind_outgoing
  bind_serves_oldest phone call_id uri aor other r q s m e f =
      rw (e, bind_outgoing)
        (
          refl,
          queue_of-set_queue phone other q m.pending_by_peer,
          elim (Bool-cases (is_empty call_id)) [
            | inl bare ↦ rw bare refl
            | inr named ↦ rw named (lookup_stored call_id r m.by_call_id)
          ],
          get_elem?-update_at r _ m.sessions f,
        )

holds-empty : (x : ℕ) (q : List ℕ) → is_empty q ≡ true → holds x q ≡ false
unfolding holds
holds-empty x [] e = refl
holds-empty x (y ∷ q) e = cc

module _ {D : Type 0} (r : ℕ) (s : CallSession D) (m : CallManager D) where
  keeps_or_deletes :
      (id k : Bytes) (e : Entries ℕ)
      → lookup k (if is_empty id then e else delete id e)
        ≡ (if not (is_empty id) && str_eq id k then none else lookup k e)
  keeps_or_deletes id k e = elim (Bool-cases (is_empty id)) [
    | inl n ↦ rw n
    | inr n ↦ rw n (lookup-delete id k e)
  ]

  left_queue :
      (other : ℕ) (phone : Bytes)
      → let q = queue_of s.peer_phone m.pending_by_peer in
        holds other (
          queue_of phone (
            if is_empty s.peer_phone || is_empty q
            then m.pending_by_peer
            else set_queue s.peer_phone (drop_ref r q) m.pending_by_peer))
        ≡ (not (not (is_empty s.peer_phone) && (str_eq s.peer_phone phone && r == other))
            && holds other (pending phone m))
  left_queue other phone = ground (
    arith,
    queue_of-set_queue s.peer_phone phone (drop_ref r (queue_of s.peer_phone m.pending_by_peer))
        m.pending_by_peer,
    holds-drop_ref r other (queue_of s.peer_phone m.pending_by_peer),
    holds-empty other (queue_of s.peer_phone m.pending_by_peer),
    str_eq_iff s.peer_phone phone,
  )

  -- A removed session is found no more: not by its attempt id, not by its call-id, and not in its
  -- peer's queue, whichever of them it has; what other ids find, and who else waits for any peer,
  -- stays the same.
  pub remove_session_forgets :
      (k : Bytes) (other : ℕ) (phone : Bytes)
      → get_elem? m.sessions r ≡ some s
      → (get_by_attempt_id k (remove_session r m) ≡ (
          if not (is_empty s.attempt_id) && str_eq s.attempt_id k
          then none
          else get_by_attempt_id k m))
        × (get_by_call_id k (remove_session r m)
            ≡ (if not (is_empty s.call_id) && str_eq s.call_id k then none else get_by_call_id k m))
        × (holds other (pending phone (remove_session r m)) ≡ (
            not (not (is_empty s.peer_phone) && (str_eq s.peer_phone phone && r == other))
            && holds other (pending phone m)))
  unfolding remove_session
  remove_session_forgets k other phone e =
      rw (e, remove_session)
        (
          keeps_or_deletes s.attempt_id k m.by_attempt,
          keeps_or_deletes s.call_id k m.by_call_id,
          left_queue other phone,
        )

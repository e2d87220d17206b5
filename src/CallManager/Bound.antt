-- ===== src/CallManager/Bound.antt =====
-- Binding a call-id and removing a session keep the maps of the manager sound.
use dia.Prelude.{
  ℕ, ◌≡◌, refl, sym, ap, ◌∙◌, subst, inl, inr, true, ◌||◌, List, [], ◌∷◌, some, arith, Bytes,
  str_eq, str_eq_iff, str_eq_refl, is_empty, ==_refl, Bool-cases, Option-cases, get_elem?,
}
use dia.CallManager.{
  lookup, queue_of, set_queue, drop_ref, CallSession, CallManager, update_at, bind_next,
  bind_outgoing, forget, remove_session,
}
use dia.CallManager.Maps.{queue_of-set_queue, holds, holds-drop_ref, get_elem?-update_at}
use dia.CallManager.Sound.{unique, IsWaiting, IsSound, Has-update_at}
use dia.CallManager.Kept.{stored_full, stored_named, deleted, deleted_named, unique-drop_ref}

module _ {D : Type 0} (m : CallManager D) (h : IsSound m) where
  -- Every queue is as before, or it is the shorter one of the peer.
  queue_kept :
      (phone peer : Bytes) (q : List ℕ)
      → ((r : ℕ) → holds r q ≡ true → holds r (queue_of phone m.pending_by_peer) ≡ true)
      → (r : ℕ) → holds r (queue_of peer (set_queue phone q m.pending_by_peer)) ≡ true
      → holds r (queue_of peer m.pending_by_peer) ≡ true
  queue_kept phone peer q sub r e = elim (Bool-cases (str_eq phone peer)) [
    | inl same ↦
        ap (λ p. holds r (queue_of p m.pending_by_peer)) (sym ((str_eq_iff phone peer).0 same))
        ∙ sub r (rw (queue_of-set_queue phone peer q m.pending_by_peer, same) at e)
    | inr other ↦ rw (queue_of-set_queue phone peer q m.pending_by_peer, other) at e
  ]

  queue_unique :
      (phone peer : Bytes) (q : List ℕ)
      → unique q ≡ true
      → unique (queue_of peer (set_queue phone q m.pending_by_peer)) ≡ true
  queue_unique phone peer q u = elim (Bool-cases (str_eq phone peer)) [
    | inl same ↦ rw (queue_of-set_queue phone peer q m.pending_by_peer, same) u
    | inr other ↦ rw (queue_of-set_queue phone peer q m.pending_by_peer, other) (h.once peer)
  ]

  -- A pending session is found by no call-id.
  waiting_unnamed :
      (peer : Bytes) (s : CallSession D) (r : ℕ) (k : Bytes)
      → IsWaiting peer s
      → get_elem? m.sessions r ≡ some s
      → lookup k m.by_call_id ≡ some r
      → ⊥
  waiting_unnamed peer s r k (_, p, _) e l =
      let (t, f, g) = h.calls k r l in
      let same : s ≡ t = cc in
      let unnamed : k ≡ [] = sym g ∙ ap (λ u. u.call_id) (sym same) ∙ p in
      cc (subst (λ j. lookup j m.by_call_id ≡ some r) unnamed l, h.named)

  -- The pointer that is taken from its queue is in none then.
  taken_waits :
      (phone peer : Bytes) (s : CallSession D) (r q : ℕ) (queue : List ℕ)
      → unique (r ∷ queue) ≡ true
      → s.peer_phone ≡ phone
      → get_elem? m.sessions r ≡ some s
      → (t : CallSession D) → r ≡ q
      → get_elem? m.sessions r ≡ some t
      → IsWaiting peer t
      → holds q (queue_of peer (set_queue phone queue m.pending_by_peer)) ≡ true
      → ⊥
  unfolding unique
  taken_waits phone peer s r q queue u p at t j f (g, _, _) l =
      let same : s ≡ t = cc in
      let here : phone ≡ peer = sym p ∙ ap (λ x. x.peer_phone) same ∙ g in
      let left : holds r queue ≡ true =
        rw (queue_of-set_queue phone peer queue m.pending_by_peer, here, str_eq_refl peer, sym j) at
          l in
      ground arith

  bind_next-IsSound :
      (phone call_id uri aor : Bytes) (queue : List ℕ)
      → queue_of phone m.pending_by_peer ≡ queue
      → IsSound (bind_next phone call_id uri aor queue m).1
  unfolding bind_next
  bind_next-IsSound phone call_id uri aor [] e = h
  bind_next-IsSound phone call_id uri aor (r ∷ queue) e =
      let bound =
        λ (s : CallSession D). record s { call_id = call_id; peer_uri = uri; account_aor = aor } in
      let first : holds r (queue_of phone m.pending_by_peer) ≡ true =
        unfold holds in rw e (ground (arith, ==_refl r)) in
      let (s, at, w) = h.waiting phone r first in
      let v : unique (r ∷ queue) ≡ true = rw e at (h.once phone) in
      let shorter : (x : ℕ)
          → holds x queue ≡ true
          → holds x (queue_of phone m.pending_by_peer) ≡ true =
        λ x i. unfold holds in rw e (ground arith) in
      record {
        attempts = λ k q l. Has-update_at _ r q bound m.sessions (λ t _ _ p. p) (h.attempts k q l);
        calls = λ k q l. elim (stored_full call_id k r q m.by_call_id l) [
          | inl (i, j) ↦ (
            bound s,
            subst (λ x. get_elem? (update_at r bound m.sessions) x ≡ some (bound s)) j
                (get_elem?-update_at r bound m.sessions at),
            i,
          )
          | inr old ↦
              Has-update_at _ r q bound m.sessions
                (λ t j f p. absurd (waiting_unnamed phone s r k w at (old ∙ ap some (sym j))))
                (h.calls k q old)
        ];
        named = stored_named call_id r m.by_call_id h.named;
        waiting = λ peer q l.
            Has-update_at (IsWaiting peer) r q bound m.sessions
              (λ t j f p. absurd (taken_waits phone peer s r q queue v w.0 at t j f p l))
              (h.waiting peer q (queue_kept phone peer queue shorter q l));
        once = λ peer. queue_unique phone peer queue (unfold unique in ground arith);
      }

  pub bind_outgoing-IsSound :
      (phone call_id uri aor : Bytes) → IsSound (bind_outgoing phone call_id uri aor m).1
  unfolding bind_outgoing
  bind_outgoing-IsSound phone call_id uri aor =
      bind_next-IsSound phone call_id uri aor (queue_of phone m.pending_by_peer) refl

  forget-IsSound : (r : ℕ) (s : CallSession D) → IsSound (forget r s m)
  unfolding forget
  forget-IsSound r s =
      let queue = queue_of s.peer_phone m.pending_by_peer in
      elim (Bool-cases (is_empty s.peer_phone || is_empty queue)) [
        | inl skip ↦ rw skip (record {
          attempts = λ k q l. h.attempts k q (deleted s.attempt_id k q m.by_attempt l);
          calls = λ k q l. h.calls k q (deleted s.call_id k q m.by_call_id l);
          named = deleted_named s.call_id m.by_call_id h.named;
          waiting = h.waiting;
          once = h.once;
        })
        | inr go ↦ rw go (record {
          attempts = λ k q l. h.attempts k q (deleted s.attempt_id k q m.by_attempt l);
          calls = λ k q l. h.calls k q (deleted s.call_id k q m.by_call_id l);
          named = deleted_named s.call_id m.by_call_id h.named;
          waiting = λ peer q l. h.waiting peer q (
              queue_kept s.peer_phone peer (drop_ref r queue)
                (λ x i. ground (arith, holds-drop_ref r x queue)) q l);
          once = λ peer.
              queue_unique s.peer_phone peer (drop_ref r queue)
                (unique-drop_ref r queue (h.once s.peer_phone));
        })
      ]

  pub remove_session-IsSound : (r : ℕ) → IsSound (remove_session r m)
  unfolding remove_session
  remove_session-IsSound r = elim (Option-cases (get_elem? m.sessions r)) [
    | inl e ↦ rw (e, remove_session) h
    | inr (s, e) ↦ rw (e, remove_session) (forget-IsSound r s)
  ]

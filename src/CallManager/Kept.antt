-- ===== src/CallManager/Kept.antt =====
-- New sessions keep the maps of the manager sound.
use dia.Prelude.{
  ℕ, ◌≡◌, refl, ◌∙◌, subst, inl, inr, ◌⊎◌, Bool, true, false, ◌||◌, List, [], ◌∷◌, ◌++◌, none, some,
  arith, Bytes, str_eq, str_eq_iff, is_empty, ◌==◌, ==_iff, if◌then◌else◌, Bool-cases, get_elem?,
  get_elem?-append, length,
}
use dia.CallManager.{
  Entries, lookup, delete, store, queue_of, drop_ref, CallSession, CallManager, fresh_ref,
  attempt_name, next_attempt, new_call_session, new_outgoing_attempt, new_incoming_session,
}
use dia.CallManager.Maps.{lookup-delete, lookup-store, queue_of-store, holds, holds-drop_ref}
use dia.CallManager.Sound.{unique, Has, IsWaiting, IsSound, Has-append}

stored :
    (id k : Bytes) (r q : ℕ) (m : Entries ℕ)
    → lookup k (store id r m) ≡ some q
    → ((id ≡ k) × (r ≡ q)) ⊎ (lookup k m ≡ some q)
stored id k r q m e = elim (Bool-cases (str_eq id k)) [
  | inl same ↦ inl ((str_eq_iff id k).0 same, ground (arith, lookup-store id k r m))
  | inr other ↦ inr (ground (arith, lookup-store id k r m))
]

pub stored_full :
    (id k : Bytes) (r q : ℕ) (m : Entries ℕ)
    → lookup k (if is_empty id then m else store id r m) ≡ some q
    → ((id ≡ k) × (r ≡ q)) ⊎ (lookup k m ≡ some q)
stored_full [] k r q m e = inr e
stored_full (c ∷ id) k r q m e = stored (c ∷ id) k r q m e

pub stored_named :
    (id : Bytes) (r : ℕ) (m : Entries ℕ)
    → lookup [] m ≡ none
    → lookup [] (if is_empty id then m else store id r m) ≡ none
unfolding str_eq
stored_named [] r m e = e
stored_named (c ∷ id) r m e = lookup-store (c ∷ id) [] r m ∙ e

pub deleted :
    (id k : Bytes) (q : ℕ) (m : Entries ℕ)
    → lookup k (if is_empty id then m else delete id m) ≡ some q
    → lookup k m ≡ some q
deleted [] k q m e = e
deleted (c ∷ id) k q m e = ground (arith, lookup-delete (c ∷ id) k m)

pub deleted_named :
    (id : Bytes) (m : Entries ℕ)
    → lookup [] m ≡ none
    → lookup [] (if is_empty id then m else delete id m) ≡ none
unfolding str_eq
deleted_named [] m e = e
deleted_named (c ∷ id) m e = lookup-delete (c ∷ id) [] m ∙ e

holds-snoc : (r s : ℕ) (q : List ℕ) → holds s (q ++ r ∷ []) ≡ (holds s q || r == s)
unfolding holds
holds-snoc r s [] = ground arith
holds-snoc r s (x ∷ q) = ground (arith, holds-snoc r s q)

unique-snoc :
    (r : ℕ) (q : List ℕ) → holds r q ≡ false → unique q ≡ true → unique (q ++ r ∷ []) ≡ true
unfolding unique holds
unique-snoc r [] h u = refl
unique-snoc r (x ∷ q) h u = ground (arith, unique-snoc r q, holds-snoc r x q)

pub unique-drop_ref : (r : ℕ) (q : List ℕ) → unique q ≡ true → unique (drop_ref r q) ≡ true
unfolding unique drop_ref
unique-drop_ref r [] u = refl
unique-drop_ref r (x ∷ q) u = ground (arith, unique-drop_ref r q, holds-drop_ref r x q)

get_past : {A : Type 0} (xs : List A) → get_elem? xs (length xs) ≡ none
get_past [] = refl
get_past (x ∷ xs) = get_past xs

module _ {D : Type 0} (m : CallManager D) (h : IsSound m) where
  -- The new pointer waits nowhere.
  fresh_waits : (peer : Bytes) → holds (fresh_ref m) (queue_of peer m.pending_by_peer) ≡ false
  fresh_waits peer = elim (Bool-cases (holds (fresh_ref m) (queue_of peer m.pending_by_peer))) [
    | inl e ↦ absurd (let (s, f, _) = h.waiting peer (fresh_ref m) e in cc (f, get_past m.sessions))
    | inr e ↦ e
  ]

  -- The session that is added.
  Has-new :
      (P : CallSession D → Type 0) (s : CallSession D) (q : ℕ)
      → fresh_ref m ≡ q
      → P s
      → Has (m.sessions ++ s ∷ []) q P
  Has-new P s q e p = (
    s,
    subst (λ r. get_elem? (m.sessions ++ s ∷ []) r ≡ some s) e (get_elem?-append m.sessions s []),
    p,
  )

  pub new_incoming_session-IsSound :
      (call_id uri name aor : Bytes) → IsSound (new_incoming_session call_id uri name aor m).1
  unfolding new_incoming_session new_call_session
  new_incoming_session-IsSound call_id uri name aor =
      let id = attempt_name (next_attempt m) in
      record {
        attempts = λ k q e. elim (stored id k (fresh_ref m) q m.by_attempt e) [
          | inl (i, j) ↦ Has-new _ _ q j i
          | inr old ↦ Has-append _ q m.sessions _ (h.attempts k q old)
        ];
        calls = λ k q e. elim (stored_full call_id k (fresh_ref m) q m.by_call_id e) [
          | inl (i, j) ↦ Has-new _ _ q j i
          | inr old ↦ Has-append _ q m.sessions _ (h.calls k q old)
        ];
        named = stored_named call_id (fresh_ref m) m.by_call_id h.named;
        waiting = λ peer q e. Has-append (IsWaiting peer) q m.sessions _ (h.waiting peer q e);
        once = h.once;
      }

  pub new_outgoing_attempt-IsSound :
      (phone uri : Bytes) (protocol : Bool) → IsSound (new_outgoing_attempt phone uri protocol m).1
  unfolding new_outgoing_attempt new_call_session
  new_outgoing_attempt-IsSound phone uri protocol =
      let id = attempt_name (next_attempt m) in
      let r = fresh_ref m in
      let queue = queue_of phone m.pending_by_peer in
      record {
        attempts = λ k q e. elim (stored id k r q m.by_attempt e) [
          | inl (i, j) ↦ Has-new _ _ q j i
          | inr old ↦ Has-append _ q m.sessions _ (h.attempts k q old)
        ];
        calls = λ k q e. Has-append _ q m.sessions _ (h.calls k q e);
        named = h.named;
        waiting = λ peer q e. elim (Bool-cases (str_eq phone peer)) [
          | inl same ↦ elim (Bool-cases (r == q)) [
            | inl new ↦
                Has-new (IsWaiting peer) _ q ((==_iff r q).0 new)
                  ((str_eq_iff phone peer).0 same, refl, refl)
            | inr old ↦ Has-append (IsWaiting peer) q m.sessions _ (
                h.waiting peer q (
                  ground (
                    arith,
                    queue_of-store phone peer (queue ++ r ∷ []) m.pending_by_peer,
                    holds-snoc r q queue,
                    str_eq_iff phone peer,
                  )))
          ]
          | inr other ↦ Has-append (IsWaiting peer) q m.sessions _ (
              h.waiting peer q
                (rw (queue_of-store phone peer (queue ++ r ∷ []) m.pending_by_peer, other) at e))
        ];
        once = λ peer. elim (Bool-cases (str_eq phone peer)) [
          | inl same ↦
              rw (queue_of-store phone peer (queue ++ r ∷ []) m.pending_by_peer, same)
                (unique-snoc r queue (fresh_waits phone) (h.once phone))
          | inr other ↦
              rw (queue_of-store phone peer (queue ++ r ∷ []) m.pending_by_peer, other)
                (h.once peer)
        ];
      }

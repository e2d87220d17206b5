-- ===== src/CallManager/Sound.antt =====
-- The three maps of the manager agree with its sessions, whatever is done to it.
use dia.Prelude.{
  ℕ, zero, suc, ◌≡◌, ◌≢◌, refl, sym, ap, ◌∙◌, inl, inr, Bool, true, false, not, ◌&&◌, List, [], ◌∷◌,
  ◌++◌, none, some, Bytes, ◌==◌, ==_iff, ==_refl, Bool-cases, get_elem?, get_elem?-append_left,
}
use dia.CallManager.{
  lookup, queue_of, CallSession, CallManager, outgoing, update_at, modify, new_call_manager,
}
use dia.CallManager.Maps.{holds, get_elem?-update_at}

-- No number twice.
unfoldable pub unique : List ℕ → Bool
unfolding holds
unique [] = true
unique (r ∷ q) = not (holds r q) && unique q

module _ {D : Type 0} where
  -- A pointer that leads to a session with the property.
  abbrev pub Has : List (CallSession D) → ℕ → (CallSession D → Type 0) → Type 0
  Has ss r P = (s : CallSession D) × (get_elem? ss r ≡ some s) × P s

  -- A pending attempt for the peer: it is outgoing and has no call-id yet.
  abbrev pub IsWaiting : Bytes → CallSession D → Type 0
  IsWaiting peer s = (s.peer_phone ≡ peer) × (s.call_id ≡ []) × (s.direction ≡ outgoing)

  -- An attempt id leads to the session that has it, and so does a call-id, which is not empty; the
  -- attempts in a peer's queue are pending ones for this peer, each there once.
  pub record IsSound (m : CallManager D) : Type 0 where
    pub attempts :
        (k : Bytes) (r : ℕ)
        → lookup k m.by_attempt ≡ some r
        → Has m.sessions r (λ s. s.attempt_id ≡ k)
    pub calls :
        (k : Bytes) (r : ℕ) → lookup k m.by_call_id ≡ some r → Has m.sessions r (λ s. s.call_id ≡ k)
    pub named : lookup [] m.by_call_id ≡ none
    pub waiting :
        (peer : Bytes) (r : ℕ)
        → holds r (queue_of peer m.pending_by_peer) ≡ true
        → Has m.sessions r (IsWaiting peer)
    pub once : (peer : Bytes) → unique (queue_of peer m.pending_by_peer) ≡ true

  -- The same ids, phone and direction.
  abbrev pub Alike : CallSession D → CallSession D → Type 0
  Alike s t =
      (t.attempt_id ≡ s.attempt_id)
      × (t.call_id ≡ s.call_id)
      × (t.peer_phone ≡ s.peer_phone)
      × (t.direction ≡ s.direction)

  pub update_at_other :
      (r q : ℕ) (f : CallSession D → CallSession D) (ss : List (CallSession D))
      → r ≢ q
      → get_elem? (update_at r f ss) q ≡ get_elem? ss q
  unfolding update_at
  update_at_other r q f [] ne = refl
  update_at_other zero zero f (s ∷ ss) ne = absurd (ne refl)
  update_at_other zero (suc q) f (s ∷ ss) ne = refl
  update_at_other (suc r) zero f (s ∷ ss) ne = refl
  update_at_other (suc r) (suc q) f (s ∷ ss) ne = update_at_other r q f ss (λ e. ne (ap suc e))

  -- An update keeps what holds of every session that it leaves and of the one that it makes.
  pub Has-update_at :
      (P : CallSession D → Type 0) (r q : ℕ) (f : CallSession D → CallSession D)
      (ss : List (CallSession D))
      → ((s : CallSession D) → r ≡ q → get_elem? ss r ≡ some s → P s → P (f s))
      → Has ss q P
      → Has (update_at r f ss) q P
  Has-update_at P r q f ss keep (s, e, p) = elim (Bool-cases (r == q)) [
    | inl here ↦
        let same = (==_iff r q).0 here in
        let at_r = ap (get_elem? ss) same ∙ e in
        (
          f s,
          ap (get_elem? (update_at r f ss)) (sym same) ∙ get_elem?-update_at r f ss at_r,
          keep s same at_r p,
        )
    | inr there ↦ (s, update_at_other r q f ss (λ same. apart (ap (r ==◌) (sym same)) there) ∙ e, p)
  ]
    where
      apart : ((r == q) ≡ (r == r)) → (r == q) ≡ false → ⊥
      apart x y = cc (==_refl r)

  pub Has-append :
      (P : CallSession D → Type 0) (r : ℕ) (ss : List (CallSession D)) (t : CallSession D)
      → Has ss r P
      → Has (ss ++ t ∷ []) r P
  Has-append P r ss t (s, e, p) = (s, get_elem?-append_left ss (t ∷ []) r s e, p)

  pub new_call_manager-IsSound : IsSound new_call_manager
  unfolding new_call_manager lookup queue_of holds unique
  new_call_manager-IsSound = record {
    attempts = λ k r e. cc;
    calls = λ k r e. cc;
    named = refl;
    waiting = λ peer r e. cc;
    once = λ peer. refl;
  }

  -- A session is replaced by one alike.
  pub modify-IsSound :
      (r : ℕ) (f : CallSession D → CallSession D) (m : CallManager D)
      → ((s : CallSession D) → get_elem? m.sessions r ≡ some s → Alike s (f s))
      → IsSound m
      → IsSound (modify r f m)
  modify-IsSound r f m alike h = record {
    attempts =
        λ k q e. Has-update_at _ r q f m.sessions (λ s _ i p. (alike s i).0 ∙ p) (h.attempts k q e);
    calls =
        λ k q e. Has-update_at _ r q f m.sessions (λ s _ i p. (alike s i).1 ∙ p) (h.calls k q e);
    named = h.named;
    waiting = λ peer q e.
        Has-update_at (IsWaiting peer) r q f m.sessions
          (λ s _ i p. let (_, x, y, z) = alike s i in (y ∙ p.0, x ∙ p.1, z ∙ p.2))
          (h.waiting peer q e);
    once = h.once;
  }

-- ===== src/Controller/Overlap.antt =====
-- Two calls to one peer: the second is refused while the first is not closed.
use mathlib.Core.List.{Perm, mem-cons_self}
use dia.Prelude.{
  ℕ, ◌≡◌, refl, subst, inl, inr, Bool, true, false, [], ◌∷◌, Option, none, some, Bytes, str_eq_refl,
  Option-cases, get_elem?, get_elem?-append,
}
use dia.Phone.{extract_phone}
use dia.CallManager.{
  CallSession, CallManager, Entries, matches, new_call_session, new_outgoing_attempt, attempt_name,
  next_attempt, fresh_ref, store, outgoing, get_active_session_by_peer,
}
use dia.CallManager.Maps.{get_elem?-update_at}
use dia.CallManager.Peers.{matches-IsActive, Answers, get_active_session_by_peer-Answers}
use dia.Controller.State.{Dia, Config}
use dia.Controller.Events.{Ctl, on_session}
use dia.Controller.Handlers.{begin_with, begin_outgoing}

module _ (lib : Dia) (cfg : Config) (order : Entries ℕ → Entries ℕ)
    (perm : (es : Entries ℕ) → Perm (order es) es) where
  -- A registered session of the peer that is not closed is found, whichever else there is.
  some_active :
      (phone : Bytes) (m : CallManager lib.D) (k : Bytes) (r : ℕ) (rest : Entries ℕ)
      → m.by_attempt ≡ (k, r) ∷ rest
      → matches phone (get_elem? m.sessions r) ≡ true
      → (e : ℕ) × (get_active_session_by_peer order phone m ≡ some e)
  some_active phone m k r rest b a =
      elim (Option-cases (get_active_session_by_peer order phone m)) [
        | inl n ↦ absurd (
            subst (Answers phone m) n (get_active_session_by_peer-Answers phone m order perm) k r
              (rw b mem-cons_self) (matches-IsActive phone m r a))
        | inr found ↦ found
      ]

  -- The session that `NewOutgoingAttempt` makes.
  abbrev fresh : Bytes → Bool → CallManager lib.D → CallSession lib.D
  fresh peer p m = record (new_call_session {D = lib.D} peer [] outgoing) {
    attempt_id = attempt_name (next_attempt m);
    protocol_enabled = p;
  }

  -- The new session is registered and active after it is begun.
  started_active :
      (number peer : Bytes) (p : Bool) (c : Ctl lib.D)
      → (e : ℕ) × (get_active_session_by_peer order peer
            (begin_with lib cfg order number p
              (fresh_ref c.calls)
              (record c { calls = (new_outgoing_attempt peer [] p c.calls).1 })
              none).1.calls
          ≡ some e)
  unfolding begin_with on_session new_outgoing_attempt matches new_call_session store
  started_active number peer true c =
      let made = get_elem?-append c.calls.sessions (fresh peer true c.calls) [] in
      rw made (
        some_active peer _ _ (fresh_ref c.calls) _ refl
          (rw (get_elem?-update_at (fresh_ref c.calls) _ _ made, str_eq_refl peer)))
  started_active number peer false c =
      let made = get_elem?-append c.calls.sessions (fresh peer false c.calls) [] in
      rw made (
        some_active peer _ _ (fresh_ref c.calls) _ refl
          (rw (get_elem?-update_at (fresh_ref c.calls) _ _ made, str_eq_refl peer)))

  not_both : (o : Option ℕ) (r : ℕ) → o ≡ none → o ≡ some r → ⊥
  not_both none r p q = cc
  not_both (some x) r p q = cc

  refused_if :
      (number : Bytes) (q : Bool) (r : ℕ) (c : Ctl lib.D) (found : Option ℕ) (e : ℕ)
      → found ≡ some e
      → (begin_with lib cfg order number q r c found).0 ≡ none
  unfolding begin_with
  refused_if number q r c none e h = cc
  refused_if number q r c (some x) e h = refl

  refused_when :
      (a : Bytes) (p : Bool) (c : Ctl lib.D) (e : ℕ)
      → get_active_session_by_peer order (extract_phone a) c.calls ≡ some e
      → (begin_outgoing lib cfg order a p c).0 ≡ none
  unfolding begin_outgoing
  refused_when a p c e h =
      refused_if a p (fresh_ref c.calls)
        (record c { calls = (new_outgoing_attempt (extract_phone a) [] p c.calls).1 }) _ e h

  begun_found :
      (a : Bytes) (p : Bool) (c : Ctl lib.D)
      → get_active_session_by_peer order (extract_phone a) c.calls ≡ none
      → (e : ℕ) × (get_active_session_by_peer order
            (extract_phone a)
            (begin_outgoing lib cfg order a p c).1.calls
          ≡ some e)
  unfolding begin_outgoing
  begun_found a p c free = rw free (started_active a (extract_phone a) p c)

  -- As soon as a call to a peer is begun, and until something else happens, a second call to the same
  -- peer is refused, whatever its mode and however Go walks the map of attempts.
  pub begin_outgoing_refuses :
      (a b : Bytes) (p q : Bool) (c : Ctl lib.D) (r : ℕ)
      → extract_phone b ≡ extract_phone a
      → (begin_outgoing lib cfg order a p c).0 ≡ some r
      → (begin_outgoing lib cfg order b q (begin_outgoing lib cfg order a p c).1).0 ≡ none
  begin_outgoing_refuses a b p q c r same begun =
      elim (Option-cases (get_active_session_by_peer order (extract_phone a) c.calls)) [
        | inl free ↦
            let (e, found) = begun_found a p c free in
            refused_when b q (begin_outgoing lib cfg order a p c).1 e (rw same found)
        | inr (e, taken) ↦ absurd (not_both _ r (refused_when a p c e taken) begun)
      ]

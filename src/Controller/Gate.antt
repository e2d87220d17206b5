-- ===== src/Controller/Gate.antt =====
-- The decision on an incoming call at the end of the protocol.
use dia.Prelude.{
  ◌≡◌, refl, Bool, true, false, [], ◌∷◌, ◌++◌, Option, none, some, Bytes, is_empty, if◌then◌else◌,
  inl, inr, ◌⊎◌, Bool-cases, ◌&&◌, not,
}
use dia.CallManager.{CallState, RemoteParty, cleanup}
use dia.Controller.State.{
  Dia, Config, Reason, accept, hangup, Act, command, set_session, reject_call, answer_call,
}
use dia.Controller.Messages.{
  party, sure_party, is_verified, peek, or_empty, complete, cache_store, keep_remote, gate, decide,
}

module _ (lib : Dia) (cfg : Config) where
  -- What the gate reads is as it was.
  abbrev Unmoved : Act lib.D → Act lib.D → Type 0
  Unmoved a b =
      (b.commands ≡ a.commands)
      × (b.session.call_id ≡ a.session.call_id)
      × (b.session.state ≡ a.session.state)
      × (b.removed ≡ a.removed)

  cache_store-Unmoved : (blob : Bytes) (a : Act lib.D) → Unmoved a (cache_store lib cfg blob a)
  unfolding cache_store
  cache_store-Unmoved blob a = elim (Bool-cases (cfg.cache_on && not (is_empty blob))) [
    | inl t ↦ rw t (refl, refl, refl, refl)
    | inr f ↦ rw f (refl, refl, refl, refl)
  ]

  either :
      (a : Act lib.D) (b : Bool) (x y : Act lib.D)
      → Unmoved a x
      → Unmoved a y
      → Unmoved a (if b then x else y)
  either a true x y p q = p
  either a false x y p q = q

  keep_remote-Unmoved :
      (p : Option RemoteParty) (a : Act lib.D) → Unmoved a (keep_remote lib cfg p a)
  unfolding keep_remote
  keep_remote-Unmoved none a = (refl, refl, refl, refl)
  keep_remote-Unmoved (some p) a =
      let kept = set_session (λ s. record s { remote_party = some p }) a in
      let stored = cache_store lib cfg (or_empty (peek lib lib.export_peer_session kept)) kept in
      either a p.verified stored kept
        (cache_store-Unmoved (or_empty (peek lib lib.export_peer_session kept)) kept)
        (refl, refl, refl, refl)

  -- How a call ends that the gate lets in, and how one that it turns away.
  abbrev pub Admitted : Act lib.D → Act lib.D → Type 0
  Admitted a b =
      (b.commands ≡ a.commands ++ accept a.session.call_id ∷ [])
      × (b.session.state ≡ CallState.dia_complete)
      × (b.removed ≡ a.removed)

  abbrev pub TurnedAway : Act lib.D → Act lib.D → Type 0
  TurnedAway a b =
      (b.commands ≡ (
        if is_empty a.session.call_id
        then a.commands
        else a.commands ++ hangup a.session.call_id 603 Reason.not_verified ∷ []))
      × (b.session.state ≡ CallState.closed)
      × (b.session.dia_state ≡ none)
      × (b.removed ≡ true)

  -- When the RUA response is sent, the call is answered if libdia reports a verified party, and the
  -- session goes on with the protocol complete; with no party, or one that is not verified, nothing is
  -- answered: the call is hung up with 603 if it has a call-id, and the session is closed, stripped of
  -- its DIA state and removed.
  pub decide-Gated :
      (a : Act lib.D)
      → ((is_verified (party lib (complete lib a)) ≡ true) × Admitted a (decide lib cfg a))
        ⊎ ((is_verified (party lib (complete lib a)) ≡ false) × TurnedAway a (decide lib cfg a))
  unfolding decide gate answer_call reject_call command cleanup
  decide-Gated a =
      let (c, i, s, r) = keep_remote-Unmoved (sure_party lib (complete lib a)) (complete lib a) in
      elim (Bool-cases (is_verified (party lib (complete lib a)))) [
        | inl v ↦ inl (v, rw (v, c, i, s, r) (refl, refl, refl))
        | inr v ↦ elim (Bool-cases (is_empty a.session.call_id)) [
          | inl e ↦ inr (v, rw (v, c, i, r, e) (refl, refl, refl, refl))
          | inr e ↦ inr (v, rw (v, c, i, r, e) (refl, refl, refl, refl))
        ]
      ]

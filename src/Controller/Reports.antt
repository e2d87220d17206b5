-- ===== src/Controller/Reports.antt =====
-- The handlers of ODA and of messages respect what their smallest steps respect.
use dia.Prelude.{ℕ, refl, true, false, [], ◌∷◌, ◌++◌, Option, none, some, Bytes}
use dia.CallManager.{RemoteParty, OdaEnd, oda_done, oda_timed_out}
use dia.Controller.State.{
  Dia, Config, Reason, Task, Act, noted, set_session, set_state, command, spawn, answer_call,
}
use dia.Controller.Oda.{
  maybe_emit_oda, oda_timeout, record_end, hang_up_later, hang_up, start_oda_incoming,
  start_oda_outgoing, finish_oda, arm_oda_timer,
}
use dia.Controller.Keep.{either_way}
use dia.Controller.Parts.{Parts, recipient_rua_request-R, handle_dia_message-R}
use dia.Controller.Messages.{
  party, sure_party, peek, or_empty, complete, cache_store, keep_remote, gate, decide,
  handle_dia_message,
}
use dia.Controller.Leaves.{Leaves}

module _ {D : Type 0} (R : Act D → Act D → Type 0) (l : Leaves R) where
  hang_up-R : (a : Act D) → R a (hang_up a)
  unfolding command
  hang_up-R a = l.quiet a (hang_up a) refl refl refl refl

  -- The end of an ODA is noted, and its row emitted.
  ended-R : (now : ℕ) (o : OdaEnd) (a : Act D) → R a (set_session (record_end now o) a)
  ended-R now o a = l.quiet a (set_session (record_end now o) a) refl refl refl refl

  pub start_oda_outgoing-R : (cfg : Config) (a : Act D) → R a (start_oda_outgoing cfg a)
  unfolding start_oda_outgoing spawn
  start_oda_outgoing-R cfg a =
      let begun =
        spawn Task.start_outgoing_oda
          (set_session (λ s. record s { oda_request_scheduled = true }) a) in
      either_way R l.kept _ (l.quiet a begun refl refl refl refl) (l.kept.same a)

  pub start_oda_incoming-R :
      (cfg : Config) (now : ℕ) (a : Act D) → R a (start_oda_incoming cfg now a)
  unfolding start_oda_incoming spawn
  start_oda_incoming-R cfg now a =
      let requested = set_session (λ s. record s { oda_requested_at = some now }) a in
      let begun = spawn (Task.trigger_oda cfg.oda_attributes) (arm_oda_timer cfg requested) in
      either_way R l.kept _ (l.quiet a begun refl refl refl refl) (l.kept.same a)

  pub oda_timeout-R : (now : ℕ) (a : Act D) → R a (oda_timeout now a)
  unfolding oda_timeout
  oda_timeout-R now a =
      let ended = set_session (record_end now oda_timed_out) a in
      let later = hang_up_later ended in
      either_way R l.kept _
        (either_way R l.kept _
          (l.kept.after a later (maybe_emit_oda later) (l.quiet a later refl refl refl refl)
            (l.oda later))
          (l.kept.after a ended _ (l.quiet a ended refl refl refl refl) (
            l.kept.after ended (maybe_emit_oda ended) _ (l.oda ended)
              (hang_up-R (maybe_emit_oda ended)))))
        (l.kept.same a)

module _ (lib : Dia) (R : Act lib.D → Act lib.D → Type 0) (l : Leaves R) where
  finish_oda-R : (now : ℕ) (a : Act lib.D) → R a (finish_oda lib now a)
  unfolding finish_oda
  finish_oda-R now a =
      let ended = set_session (record_end now oda_done) a in
      let stopped = set_session (λ s. record s { oda_timeout = false }) ended in
      let emitted = maybe_emit_oda stopped in
      let paid =
        l.kept.after a stopped emitted (l.quiet a stopped refl refl refl refl) (l.oda stopped) in
      either_way R l.kept _
        (either_way R l.kept _
          (l.kept.after a emitted _ paid
            (l.quiet emitted (hang_up_later emitted) refl refl refl refl))
          (l.kept.after a emitted _ paid (hang_up-R R l emitted)))
        (l.kept.same a)

  cache_store-R : (cfg : Config) (blob : Bytes) (a : Act lib.D) → R a (cache_store lib cfg blob a)
  unfolding cache_store
  cache_store-R cfg blob a =
      let kept = record a { stored = a.stored ++ blob ∷ [] } in
      either_way R l.kept _ (l.quiet a kept refl refl refl refl) (l.kept.same a)

  keep_remote-R :
      (cfg : Config) (p : Option RemoteParty) (a : Act lib.D) → R a (keep_remote lib cfg p a)
  unfolding keep_remote
  keep_remote-R cfg none a = l.kept.same a
  keep_remote-R cfg (some p) a =
      let kept = set_session (λ s. record s { remote_party = some p }) a in
      either_way R l.kept _
        (l.kept.after a kept _ (l.quiet a kept refl refl refl refl)
          (cache_store-R cfg (or_empty (peek lib lib.export_peer_session kept)) kept))
        (l.quiet a kept refl refl refl refl)

  pub parts : Parts lib R
  parts = record {
    kept = l.kept;
    reject = l.reject;
    state = λ st a. l.quiet a (set_state st a) refl refl refl refl;
    note = λ a. l.quiet a (noted a) refl refl refl refl;
    done = λ a. l.quiet a (complete lib a) refl refl refl refl;
    remote = keep_remote-R;
    oda_start = start_oda_outgoing-R R l;
    oda_finish = finish_oda-R;
  }

  gate-R : (p : Option RemoteParty) (a : Act lib.D) → R a (gate lib p a)
  unfolding gate answer_call
  gate-R p a =
      let stopped = set_session (λ s. record s { dia_timeout = false }) a in
      either_way R l.kept _ (l.quiet a (answer_call stopped) refl refl refl refl) (
        l.kept.after a stopped _ (l.quiet a stopped refl refl refl refl)
          (l.reject 603 Reason.not_verified stopped))

  decide-R : (cfg : Config) (a : Act lib.D) → R a (decide lib cfg a)
  unfolding decide
  decide-R cfg a =
      let sure = sure_party lib (complete lib a) in
      let kept = keep_remote lib cfg sure (complete lib a) in
      l.kept.after a kept _
        (l.kept.after a (complete lib a) kept (l.quiet a (complete lib a) refl refl refl refl)
          (keep_remote-R cfg sure (complete lib a)))
        (gate-R (party lib (complete lib a)) kept)

  pub any_message-R :
      (cfg : Config) (now : ℕ) (raw : Bytes) (a : Act lib.D)
      → R a (handle_dia_message lib cfg now raw a)
  any_message-R cfg now raw =
      handle_dia_message-R lib R parts cfg now raw
        (recipient_rua_request-R lib R parts cfg raw (decide-R cfg))

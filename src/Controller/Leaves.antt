-- ===== src/Controller/Leaves.antt =====
-- What a relation has to respect of a handler's smallest steps, so that every handler respects it.
use dia.Prelude.{ℕ, ◌≡◌, false, Bytes}
use dia.CallManager.{CallSession, Direction}
use dia.Controller.State.{Act, CallResult, Reason, emit_result, maybe_emit_answered, reject_call}
use dia.Controller.Oda.{maybe_emit_oda}
use dia.Controller.Keep.{IsKept, KeptBy}
use dia.Controller.Once.{is_answer, is_oda_end}

module _ {D : Type 0} where
  -- What names a session and its peer.
  abbrev pub ids : CallSession D → Bytes × Bytes × Bytes × Direction
  ids s = (s.attempt_id, s.call_id, s.peer_phone, s.direction)

  -- Apart from the three emissions and the rejection, a handler leaves the rows, their flags and the ids.
  pub record Leaves (R : Act D → Act D → Type 0) : Type 0 where
    pub kept : IsKept R
    pub quiet :
        (a b : Act D)
        → b.results ≡ a.results
        → b.session.answered_result_emitted ≡ a.session.answered_result_emitted
        → b.session.oda_terminal_emitted ≡ a.session.oda_terminal_emitted
        → ids b.session ≡ ids a.session
        → R a b
    pub answered : KeptBy R kept maybe_emit_answered
    pub oda : KeptBy R kept maybe_emit_oda
    pub row :
        (r : CallResult)
        → is_answer r ≡ false
        → is_oda_end r ≡ false
        → KeptBy R kept (emit_result r)
    pub reject : (code : ℕ) (why : Reason) → KeptBy R kept (reject_call code why)

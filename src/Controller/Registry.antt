-- ===== src/Controller/Registry.antt =====
-- The controller's call manager stays sound: no handler changes the ids or the phone of its session.
use dia.Prelude.{
  ℕ, ◌≡◌, refl, sym, ap, ◌∙◌, inl, inr, Bool, true, false, Option, none, some, is_empty,
  if◌then◌else◌, Bool-cases, Option-cases, get_elem?,
}
use dia.CallManager.{OdaEnd, answered, CallSession, modify}
use dia.CallManager.Sound.{IsSound, Alike, modify-IsSound}
use dia.CallManager.Bound.{remove_session-IsSound}
use dia.Controller.State.{
  Reason, Act, CallResult, emit_result, result_of, maybe_emit_answered, reject_call, set_session,
}
use dia.Controller.Oda.{emit_terminal, maybe_emit_oda}
use dia.Controller.Keep.{IsKept}
use dia.Controller.Leaves.{ids, Leaves}
use dia.Controller.Once.{emit_result-session}
use dia.Controller.Events.{Ctl, load, put, run_on, on_session}

module _ {D : Type 0} where
  abbrev pub SameIds : Act D → Act D → Type 0
  SameIds a b = ids b.session ≡ ids a.session

  SameIds-kept : IsKept SameIds
  SameIds-kept = record {
    same = λ a. refl;
    after = λ a b c p q. q ∙ p;
    dia = λ d a. refl;
    controller = λ r a. refl;
  }

  pub emit-SameIds : (r : CallResult) (a : Act D) → SameIds a (emit_result r a)
  emit-SameIds r a = ap ids (emit_result-session r a)

  pub if-SameIds :
      (c : Bool) (a x y : Act D) → SameIds a x → SameIds a y → SameIds a (if c then x else y)
  if-SameIds true a x y p q = p
  if-SameIds false a x y p q = q

  answered-SameIds : (a : Act D) → SameIds a (maybe_emit_answered a)
  unfolding maybe_emit_answered
  answered-SameIds a = if-SameIds _ a _ _ refl (emit-SameIds (result_of answered a.session) a)

  terminal-SameIds : (o : Option OdaEnd) (a : Act D) → SameIds a (emit_terminal o a)
  unfolding emit_terminal
  terminal-SameIds none a = refl
  terminal-SameIds (some o) a =
      emit-SameIds _ (set_session (λ s. record s { oda_terminal_emitted = true }) a)

  oda-SameIds : (a : Act D) → SameIds a (maybe_emit_oda a)
  unfolding maybe_emit_oda
  oda-SameIds a = if-SameIds _ a _ _ refl (terminal-SameIds a.session.oda_terminal_outcome a)

  reject-SameIds : (code : ℕ) (why : Reason) (a : Act D) → SameIds a (reject_call code why a)
  unfolding reject_call
  reject-SameIds code why a = elim (Bool-cases (is_empty a.session.call_id)) [
    | inl e ↦ rw e refl
    | inr e ↦ rw e refl
  ]

  pub SameIds-leaves : Leaves SameIds
  SameIds-leaves = record {
    kept = SameIds-kept;
    quiet = λ a b r f g e. e;
    answered = answered-SameIds;
    oda = oda-SameIds;
    row = λ r p q a. emit-SameIds r a;
    reject = reject-SameIds;
  }

  ids-Alike : (s t : CallSession D) → ids t ≡ ids s → Alike s t
  ids-Alike s t e = (ap (λ x. x.0) e, ap (λ x. x.1) e, ap (λ x. x.2) e, ap (λ x. x.3) e)

  pub put-IsSound :
      (r : ℕ) (s : CallSession D) (b : Act D) (c : Ctl D)
      → IsSound c.calls
      → get_elem? c.calls.sessions r ≡ some s
      → SameIds (load s c) b
      → IsSound (put r b c).calls
  unfolding put
  put-IsSound r s b c h e i =
      let same : (t : CallSession D) → get_elem? c.calls.sessions r ≡ some t → t ≡ s = λ t f. cc in
      let kept =
        modify-IsSound r (λ _. b.session) c.calls
          (λ t f. ids-Alike t b.session (i ∙ ap ids (sym (same t f)))) h in
      elim (Bool-cases b.removed) [
        | inl gone ↦ rw gone (remove_session-IsSound (modify r (λ _. b.session) c.calls) kept r)
        | inr stays ↦ rw stays kept
      ]

  -- A handler that changes no ids keeps the maps sound.
  pub on_session-IsSound :
      (f : Act D → Act D) (r : ℕ) (c : Ctl D)
      → ((a : Act D) → SameIds a (f a))
      → IsSound c.calls
      → IsSound (on_session f r c).calls
  unfolding on_session run_on
  on_session-IsSound f r c i h = elim (Option-cases (get_elem? c.calls.sessions r)) [
    | inl e ↦ rw e h
    | inr (s, e) ↦ rw e (put-IsSound r s (f (load s c)) c h e (i (load s c)))
  ]

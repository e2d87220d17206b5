-- ===== src/Controller/Once.antt =====
-- What the controller reports of one session: rows of an answered call and of the end of an ODA.
use dia.Prelude.{
  ℕ, ◌+◌, ◌≤◌, ◌≡◌, refl, Bool, true, false, List, [], ◌∷◌, ◌++◌, Option, none, some, ltb, inl, inr,
  Bool-cases, arith, length, ◌||◌, is_empty,
}
use dia.CallManager.{answered, oda_ended, OdaEnd, is_incoming}
use dia.Controller.State.{
  Act, CallResult, emit_result, result_of, set_session, maybe_emit_answered, is_zero,
}
use dia.Controller.Oda.{oda_result, emit_terminal, maybe_emit_oda}
use dia.Controller.Keep.{IsKept}

abbrev pub bit : Bool → ℕ
bit true = 1
bit false = 0

abbrev pub is_answer : CallResult → Bool
is_answer r = elim r.outcome [ answered ↦ true | _ ↦ false ]

abbrev pub is_oda_end : CallResult → Bool
is_oda_end r = elim r.outcome [ oda_ended o ↦ true | _ ↦ false ]

unfoldable pub count : (CallResult → Bool) → List CallResult → ℕ
count p [] = 0
count p (r ∷ rs) = bit (p r) + count p rs

count-append :
    (p : CallResult → Bool) (rs : List CallResult) (r : CallResult)
    → count p (rs ++ r ∷ []) ≡ count p rs + bit (p r)
unfolding count
count-append p [] r = omega arith
count-append p (x ∷ rs) r = omega (arith, count-append p rs r)

unset_first : (b c d e : Bool) → (b || c || d || e) ≡ false → b ≡ false
unset_first b c d e h = ground arith

unset : (b c d e : Bool) → (b || c || d || e) ≡ false → c ≡ false
unset b c d e h = ground arith

module _ {D : Type 0} where
  pub emit_result-count :
      (p : CallResult → Bool) (r : CallResult) (a : Act D)
      → count p (emit_result r a).results ≤ count p a.results + bit (p r)
  unfolding emit_result
  emit_result-count p r a = elim (Bool-cases (ltb (length a.results) 1000)) [
    | inl room ↦ rw room (omega (arith, count-append p a.results r))
    | inr full ↦ rw full (omega arith)
  ]

  pub emit_result-session : (r : CallResult) (a : Act D) → (emit_result r a).session ≡ a.session
  unfolding emit_result
  emit_result-session r a = elim (Bool-cases (ltb (length a.results) 1000)) [
    | inl room ↦ rw room refl
    | inr full ↦ rw full refl
  ]

  -- Each row of the kind is paid for by the session's flag of that kind.
  unfoldable pub Once : Act D → Act D → Type 0
  Once a b =
      (count is_answer b.results + bit a.session.answered_result_emitted
        ≤ count is_answer a.results + bit b.session.answered_result_emitted)
      × (count is_oda_end b.results + bit a.session.oda_terminal_emitted
          ≤ count is_oda_end a.results + bit b.session.oda_terminal_emitted)

  pub Once-kept : IsKept Once
  unfolding Once
  Once-kept = record {
    same = λ a. (omega arith, omega arith);
    after = λ a b c p q. (omega arith, omega arith);
    dia = λ d a. (omega arith, omega arith);
    controller = λ r a. (omega arith, omega arith);
  }

  -- A change that leaves the rows and both flags.
  pub same-Once :
      (a b : Act D)
      → b.results ≡ a.results
      → b.session.answered_result_emitted ≡ a.session.answered_result_emitted
      → b.session.oda_terminal_emitted ≡ a.session.oda_terminal_emitted
      → Once a b
  unfolding Once
  same-Once a b r f g = rw (r, f, g) (omega arith, omega arith)

  pub maybe_emit_answered-Once : (a : Act D) → Once a (maybe_emit_answered a)
  unfolding maybe_emit_answered result_of Once
  maybe_emit_answered-Once a =
      let row = result_of answered a.session in
      elim (Bool-cases (
        is_incoming a.session
        || a.session.answered_result_emitted
        || is_zero a.session.dial_sent_at
        || is_zero a.session.answered_at)) [
          | inl t ↦ rw t (omega arith, omega arith)
          | inr f ↦ elim (Bool-cases (ltb (length a.results) 1000)) [
            | inl room ↦
                rw (f, unset (is_incoming a.session) _ _ _ f, room)
                  (
                    omega (arith, count-append is_answer a.results row),
                    omega (arith, count-append is_oda_end a.results row),
                  )
            | inr full ↦
                rw (f, unset (is_incoming a.session) _ _ _ f, full) (omega arith, omega arith)
          ]
        ]

  emit_terminal-Once :
      (o : Option OdaEnd) (a : Act D)
      → a.session.oda_terminal_emitted ≡ false
      → Once a (emit_terminal o a)
  unfolding emit_terminal oda_result result_of Once
  emit_terminal-Once none a e = (omega arith, omega arith)
  emit_terminal-Once (some o) a e =
      let b = set_session (λ s. record s { oda_terminal_emitted = true }) a in
      let row = oda_result (oda_ended o) a.session in
      rw (e, emit_result-session row b)
        (
          omega (arith, emit_result-count is_answer row b),
          omega (arith, emit_result-count is_oda_end row b),
        )

  pub maybe_emit_oda-Once : (a : Act D) → Once a (maybe_emit_oda a)
  unfolding maybe_emit_oda Once
  maybe_emit_oda-Once a =
      elim (Bool-cases (
        a.session.oda_terminal_emitted
        || is_zero a.session.oda_requested_at
        || is_zero a.session.oda_completed_at
        || is_empty a.session.call_id)) [
          | inl t ↦ rw t (omega arith, omega arith)
          | inr f ↦
              rw f (emit_terminal-Once a.session.oda_terminal_outcome a (unset_first _ _ _ _ f))
        ]

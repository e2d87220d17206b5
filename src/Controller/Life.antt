-- ===== src/Controller/Life.antt =====
-- The life of one session as a sequence of handlers, and what it reports in all.
use dia.Prelude.{
  ℕ, suc, ◌+◌, ◌≤◌, ◌≡◌, ap, Bool, true, false, is_empty, inl, inr, Bool-cases, arith,
}
use dia.CallManager.{answered}
use dia.Controller.State.{
  emit_answered, result_of, Dia, Config, Reason, CallResult, Act, emit_result, reject_call,
}
use dia.Controller.Moves.{Move, Move-R}
use dia.Controller.Leaves.{Leaves}
use dia.Controller.Once.{
  Once, Once-kept, same-Once, count, is_answer, is_oda_end, bit, emit_result-count,
  emit_result-session, maybe_emit_answered-Once, maybe_emit_oda-Once,
}

module _ {D : Type 0} where
  -- A row of neither kind.
  other-Once :
      (r : CallResult) (a : Act D)
      → is_answer r ≡ false
      → is_oda_end r ≡ false
      → Once a (emit_result r a)
  unfolding Once
  other-Once r a p q = rw (emit_result-session r a) (
    omega (arith, emit_result-count is_answer r a, ap bit p),
    omega (arith, emit_result-count is_oda_end r a, ap bit q),
  )

  reject_call-Once : (code : ℕ) (why : Reason) (a : Act D) → Once a (reject_call code why a)
  unfolding reject_call Once
  reject_call-Once code why a = elim (Bool-cases (is_empty a.session.call_id)) [
    | inl t ↦ rw t (omega arith, omega arith)
    | inr f ↦ rw f (omega arith, omega arith)
  ]

  Once-leaves : Leaves {D = D} Once
  Once-leaves = record {
    kept = Once-kept;
    quiet = λ a b r f g _. same-Once a b r f g;
    answered = maybe_emit_answered-Once;
    oda = maybe_emit_oda-Once;
    row = λ r p q a. other-Once r a p q;
    reject = reject_call-Once;
  }

module _ (lib : Dia) (cfg : Config) where
  -- Handlers one after the other; and `n` times a goroutine that passed the tests of
  -- `maybeEmitAnsweredResult` before another one set the flag comes to emit its row.
  pub data Life (a : Act lib.D) : ℕ → Act lib.D → Type 0 where
    start : Life a 0 a
    later : {n : ℕ} {b c : Act lib.D} → Life a n b → Move lib cfg b c → Life a n c
    overlaps : {n : ℕ} {b : Act lib.D} → Life a n b → Life a (suc n) (emit_answered b)

  bit_le : (b : Bool) → bit b ≤ 1
  bit_le true = omega arith
  bit_le false = omega arith

  -- The rows that the flags pay for, and one more for each overlap.
  abbrev Paid : ℕ → Act lib.D → Act lib.D → Type 0
  Paid n a b =
      (count is_answer b.results + bit a.session.answered_result_emitted
        ≤ count is_answer a.results + bit b.session.answered_result_emitted + n)
      × (count is_oda_end b.results + bit a.session.oda_terminal_emitted
          ≤ count is_oda_end a.results + bit b.session.oda_terminal_emitted)

  emit_answered-Paid : (n : ℕ) (a b : Act lib.D) → Paid n a b → Paid (suc n) a (emit_answered b)
  unfolding emit_answered result_of
  emit_answered-Paid n a b (p, q) =
      let row = result_of answered b.session in
      rw (emit_result-session row b) (
        omega
            (arith, p, emit_result-count is_answer row b, bit_le b.session.answered_result_emitted),
        omega (arith, q, emit_result-count is_oda_end row b),
      )

  move-Paid : (n : ℕ) (a b c : Act lib.D) → Paid n a b → Once b c → Paid n a c
  unfolding Once
  move-Paid n a b c (p, q) (r, s) = (omega (arith, p, r), omega (arith, q, s))

  Life-Paid : (a : Act lib.D) (n : ℕ) (b : Act lib.D) → Life a n b → Paid n a b
  Life-Paid a _ _ start = (omega arith, omega arith)
  Life-Paid a n c (later {b = b} l m) =
      move-Paid n a b c (Life-Paid a n b l) (Move-R lib cfg Once Once-leaves b c m)
  Life-Paid a _ _ (overlaps {n} {b} l) = emit_answered-Paid n a b (Life-Paid a n b l)

  -- Whatever messages, timers, events and goroutines come upon a session, in whatever order and how
  -- often: its results get at most one row of the end of an ODA, and none if the flag was set before.
  -- They get at most one row of an answered call, and none if its flag was set, plus one for each time
  -- that a goroutine had passed the tests of that row before another set the flag.
  pub Life-reports_once :
      (n : ℕ) (a b : Act lib.D)
      → Life a n b
      → (count is_answer b.results + bit a.session.answered_result_emitted
          ≤ suc (count is_answer a.results) + n)
        × (count is_oda_end b.results + bit a.session.oda_terminal_emitted
            ≤ suc (count is_oda_end a.results))
  Life-reports_once n a b l =
      let (p, q) = Life-Paid a n b l in
      (
        omega (arith, p, bit_le b.session.answered_result_emitted),
        omega (arith, q, bit_le b.session.oda_terminal_emitted),
      )

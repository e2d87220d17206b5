-- ===== src/Experiment/Orderly.antt =====
-- How an experiment stands and ends, whatever results come.
use dia.Prelude.{
  ℕ, zero, suc, ◌+◌, ◌-◌, ◌≤◌, ◌≡◌, refl, inl, inr, Bool, true, false, ◌&&◌, List, [], ◌∷◌, Option,
  none, some, arith, ltb, leb, if◌then◌else◌, length, Bool-cases,
}
use dia.CallManager.{Entries}
use dia.Experiment.{Plan, Attempt, Runner, new_runner, World}
use dia.Experiment.Loop.{
  Input, cancelled, result, Exit, finished, failed, stopped, waits, start_one, prime, receive,
  refill, go_on, run_loop, run_experiment,
}
use dia.Experiment.Pipeline.{HasFreshIds, More, occurs}
use dia.Experiment.Rounds.{OnSome, Good, Flows, Full, start_one-More, receive-Good}

abbrev pub min : ℕ → ℕ → ℕ
min a b = if ltb a b then a else b

module _ (plan : Plan) where
  -- Every start is an attempt in flight or a completed one, and neither bound is passed.
  abbrev pub Counted : Runner → Type 0
  Counted r =
      (length r.in_flight + r.completed ≡ r.started)
      × (r.started ≤ plan.runs)
      × (length r.in_flight ≤ plan.concurrency)

  abbrev pub Orderly : Exit → Type 0
  Orderly (finished r) = (r.completed ≡ plan.runs) × (r.started ≡ plan.runs) × (r.in_flight ≡ [])
  Orderly (failed r) = Counted r
  Orderly (stopped r) =
      Counted r × (length r.in_flight ≡ min (plan.runs - r.completed) plan.concurrency)
  Orderly (waits r) =
      Counted r × (length r.in_flight ≡ min (plan.runs - r.completed) plan.concurrency)

module _ (w : World) (plan : Plan) (ids : HasFreshIds w) (one : 1 ≤ plan.concurrency) where
  counted : (r : Runner) → Flows w plan ids one r → Counted plan r
  counted r f = (f.counted, f.within, f.bounded)

  empty_of_length : (m : Entries Attempt) → length m ≡ 0 → m ≡ []
  empty_of_length [] e = refl
  empty_of_length (x ∷ m) e = absurd (omega arith)

  filled :
      (r : Runner)
      → Good w plan ids one r
      → length r.in_flight ≡ min (plan.runs - r.completed) plan.concurrency
  filled r (f, inl all) = ground (arith, f.counted, f.bounded)
  filled r (f, inr full) = ground (arith, f.counted, f.within)

  ended :
      (r : Runner)
      → Good w plan ids one r
      → leb plan.runs r.completed ≡ true
      → Orderly plan (finished r)
  ended r (f, full) e =
      let c = f.counted in
      let s = f.within in
      let le : plan.runs ≤ r.completed = ground arith in
      (omega arith, omega arith, empty_of_length r.in_flight (omega arith))

  going :
      (r : Runner)
      → Good w plan ids one r
      → Counted plan r × (length r.in_flight ≡ min (plan.runs - r.completed) plan.concurrency)
  going r g = (counted r g.0, filled r g)

  round :
      (r : Runner) (o : Option Runner) (inputs : List Input)
      → Good w plan ids one r
      → OnSome (Good w plan ids one) o
      → ((r' : Runner) → Good w plan ids one r' → Orderly plan (run_loop w plan inputs r'))
      → Orderly plan (go_on w plan r (run_loop w plan inputs) o)
  unfolding go_on
  round r none inputs g h ih = counted r g.0
  round r (some r') inputs g h ih = ih r' h

  run_loop-Orderly :
      (inputs : List Input) (r : Runner)
      → Good w plan ids one r
      → Orderly plan (run_loop w plan inputs r)
  unfolding run_loop
  run_loop-Orderly [] r g = elim (Bool-cases (leb plan.runs r.completed)) [
    | inl e ↦ rw e (ended r g e)
    | inr e ↦ rw e (going r g)
  ]
  run_loop-Orderly (cancelled ∷ inputs) r g = elim (Bool-cases (leb plan.runs r.completed)) [
    | inl e ↦ rw e (ended r g e)
    | inr e ↦ rw e (going r g)
  ]
  run_loop-Orderly (result res ∷ inputs) r g = elim (Bool-cases (leb plan.runs r.completed)) [
    | inl e ↦ rw e (ended r g e)
    | inr e ↦ rw e (
        round r (receive w plan res r) inputs g (receive-Good w plan ids one res r g)
          (run_loop-Orderly inputs))
  ]

  abbrev Primed : Runner × Bool → Type 0
  Primed (r, true) = Good w plan ids one r
  Primed (r, false) = Flows w plan ids one r

  Full-at_stop :
      (r : Runner)
      → Flows w plan ids one r
      → r.completed ≡ 0
      → (ltb r.started plan.runs && ltb r.started plan.concurrency) ≡ false
      → Full w plan ids one r
  Full-at_stop r f z e =
      let c = f.counted in
      let s = f.within in
      let b = f.bounded in
      elim (Bool-cases (ltb r.started plan.runs)) [
        | inl more ↦ inr (ground arith)
        | inr last ↦ inl (ground arith)
      ]

  refilled :
      (rounds : ℕ) (r : Runner) (o : Option Runner)
      → Flows w plan ids one r
      → r.completed ≡ 0
      → plan.runs ≤ suc rounds + r.started
      → OnSome (More w plan ids one 1 r) o
      → ((r' : Runner)
          → Flows w plan ids one r'
          → r'.completed ≡ 0
          → plan.runs ≤ rounds + r'.started
          → Primed (prime w plan rounds r'))
      → Primed (refill w plan r (prime w plan rounds) o)
  unfolding refill
  refilled rounds r none f z le m ih = f
  refilled rounds r (some r') f z le (f', longer, next) ih =
      let c = f.counted in let c' = f'.counted in ih r' f' (omega arith) (omega arith)

  prime-Primed :
      (rounds : ℕ) (r : Runner)
      → Flows w plan ids one r
      → r.completed ≡ 0
      → plan.runs ≤ rounds + r.started
      → Primed (prime w plan rounds r)
  unfolding prime
  prime-Primed zero r f z le = (f, inl (let s = f.within in omega arith))
  prime-Primed (suc rounds) r f z le =
      elim (Bool-cases (ltb r.started plan.runs && ltb r.started plan.concurrency)) [
        | inr stop ↦ rw stop (f, Full-at_stop r f z stop)
        | inl more ↦
            let c = f.counted in
            let room = start_one-More w plan ids one r f (ground arith) (ground arith) in
            rw more (refilled rounds r (start_one w plan r) f z le room (prime-Primed rounds))
      ]

  pub new_runner-Flows : Flows w plan ids one new_runner
  unfolding occurs
  new_runner-Flows = record {
    within = omega arith;
    counted = omega arith;
    bounded = omega arith;
    distinct = λ k. omega arith;
    fresh = λ n id le e. refl;
  }

  -- If the controller gives each call an id of its own, then whatever results come: at most `runs`
  -- calls are started and at most `concurrency` are in flight; while the experiment waits or when it
  -- is cancelled, as many are in flight as that bound and the calls still to be completed allow; and
  -- it finishes only when all are started and completed.
  pub run_experiment-Orderly : (inputs : List Input) → Orderly plan (run_experiment w plan inputs)
  unfolding run_experiment
  run_experiment-Orderly inputs =
      end_of (prime w plan plan.runs new_runner)
        (prime-Primed plan.runs new_runner new_runner-Flows refl (omega arith))
    where
      end_of :
          (p : Runner × Bool)
          → Primed p
          → Orderly plan (if p.1 then run_loop w plan inputs p.0 else failed p.0)
      end_of (r, true) g = run_loop-Orderly inputs r g
      end_of (r, false) f = counted r f

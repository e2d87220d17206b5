-- ===== src/Experiment/Rounds.antt =====
-- The rounds of the experiment keep the pipeline full until all calls are started.
use dia.Prelude.{
  ℕ, suc, ◌≤◌, ◌<◌, ◌≡◌, refl, ◌⊎◌, inl, inr, false, Option, none, some, arith, Bytes, ltb, ltb→lt,
  length, Bool-cases,
}
use dia.CallManager.{lookup}
use dia.Controller.State.{CallResult}
use dia.Experiment.{Plan, Attempt, Runner, World, Sheet, ◌>>=◌}
use dia.Experiment.Loop.{
  is_last, started_with, start_one, print_once, hang_up_once, write_rows, drop_attempt, conclude,
  handle, receive_at, receive,
}
use dia.Experiment.Pipeline.{
  HasFreshIds, IsFlowing, IsFull, More, added-IsFlowing, dropped, dropped-IsFlowing,
  stored-IsFlowing,
}

abbrev pub OnSome {ℓ} : {A : Type ℓ} → (A → Type 0) → Option A → Type 0
OnSome P none = Unit
OnSome P (some a) = P a

module _ (w : World) (plan : Plan) (ids : HasFreshIds w) (one : 1 ≤ plan.concurrency) where
  abbrev pub Flows : Runner → Type 0
  Flows = IsFlowing w plan ids one

  abbrev pub Full : Runner → Type 0
  Full = IsFull w plan ids one

  started_with-More :
      (r : Runner) (o : Option Bytes)
      → Flows r
      → r.started < plan.runs
      → length r.in_flight < plan.concurrency
      → w.start r.started ≡ o
      → OnSome (More w plan ids one 1 r) (started_with w plan r o)
  unfolding started_with
  started_with-More r none f lt room e = tt
  started_with-More r (some id) f lt room e = added-IsFlowing w plan ids one r id f lt room e

  pub start_one-More :
      (r : Runner)
      → Flows r
      → r.started < plan.runs
      → length r.in_flight < plan.concurrency
      → OnSome (More w plan ids one 1 r) (start_one w plan r)
  unfolding start_one
  start_one-More r f lt room = started_with-More r (w.start r.started) f lt room refl

  abbrev pub Good : Runner → Type 0
  Good r = Flows r × Full r

  -- A new call in the place of one that was dropped.
  refilled :
      (r : Runner) (o : Option Runner)
      → suc (length r.in_flight) ≤ plan.concurrency
      → (r.started ≡ plan.runs) ⊎ (suc (length r.in_flight) ≡ plan.concurrency)
      → OnSome (More w plan ids one 1 r) o
      → r.started < plan.runs
      → OnSome Good o
  refilled r none le full m lt = tt
  refilled r (some r') le (inl all) m lt = absurd (omega arith)
  refilled r (some r') le (inr full) m lt = (m.0, inr (omega (arith, m.1)))

  Full-before :
      (a b : ℕ) (r : Runner)
      → Full r
      → suc a ≡ length r.in_flight
      → (r.started ≡ plan.runs) ⊎ (suc a ≡ plan.concurrency)
  Full-before a b r (inl all) e = inl all
  Full-before a b r (inr full) e = inr (omega arith)

  all_started : (a b : ℕ) → ltb a b ≡ false → a ≤ b → a ≡ b
  all_started a b h le = ground arith

  drop_attempt-Good :
      (r : Runner) (id : Bytes) (st : Attempt)
      → Good r
      → lookup id r.in_flight ≡ some st
      → OnSome Good (drop_attempt w plan id r)
  unfolding drop_attempt
  drop_attempt-Good r id st g e =
      let (f, shorter) = dropped-IsFlowing w plan ids one r id st g.0 e in
      let d = dropped w plan ids one id r in
      let le = g.0.bounded in
      elim (Bool-cases (ltb r.started plan.runs)) [
        | inl more ↦
            let lt = ltb→lt r.started plan.runs more in
            rw more (
              refilled d (start_one w plan d) (omega arith)
                (Full-before (length d.in_flight) 0 r g.1 shorter)
                (start_one-More d f lt (omega arith)) lt)
        | inr last ↦ rw last (f, inl (all_started r.started plan.runs last g.0.within))
      ]

  -- Runners with the same pipeline.
  abbrev Alike : Runner → Runner → Type 0
  Alike r r' =
      (r'.in_flight ≡ r.in_flight) × (r'.started ≡ r.started) × (r'.completed ≡ r.completed)

  carry : (r r' : Runner) → Alike r r' → Good r → Good r'
  carry r r' (m, s, c) (f, full) = (
    record {
      within = rw s f.within;
      counted = rw (m, s, c) f.counted;
      bounded = rw m f.bounded;
      distinct = λ k. rw m (f.distinct k);
      fresh = λ n id le e. rw m (f.fresh n id (rw (← s) le) e);
    },
    rw (m, s) full,
  )

  print_once-Alike :
      (res : CallResult) (st : Attempt) (r : Runner) → Alike r (print_once w plan res st r).1
  print_once-Alike res st r = ground arith

  hang_up_once-Alike :
      (res : CallResult) (st : Attempt) (r : Runner) → Alike r (hang_up_once w plan res st r).1
  hang_up_once-Alike res st r = ground arith

  conclude-Good :
      (res : CallResult) (r : Runner) (st : Attempt) (sheet : Sheet)
      → Good r
      → lookup res.attempt_id r.in_flight ≡ some st
      → OnSome Good (conclude w plan res r sheet)
  unfolding conclude
  conclude-Good res r st sheet g e =
      let written = record r { rows = sheet.rows } in
      let good = carry r written (refl, refl, refl) g in
      elim (Bool-cases (is_last plan.wait_for_oda res.outcome)) [
        | inl last ↦ rw last (drop_attempt-Good written res.attempt_id st good e)
        | inr more ↦
            let (f, same) =
              stored-IsFlowing w plan ids one written res.attempt_id st sheet.attempt good.0 e in
            rw more (f, rw same good.1)
      ]

  bind-OnSome :
      {A B : Type 0} (P : B → Type 0) (o : Option A) (f : A → Option B)
      → ((a : A) → OnSome P (f a))
      → OnSome P (o >>= f)
  bind-OnSome P none f h = tt
  bind-OnSome P (some a) f h = h a

  receive_at-Good :
      (res : CallResult) (r : Runner) (o : Option Attempt)
      → Good r
      → lookup res.attempt_id r.in_flight ≡ o
      → OnSome Good (receive_at w plan res r o)
  unfolding receive_at handle
  receive_at-Good res r none g e = g
  receive_at-Good res r (some st) g e =
      let shown = print_once w plan res st r in
      let hung = hang_up_once w plan res shown.0 shown.1 in
      let p = print_once-Alike res st r in
      let h = hang_up_once-Alike res shown.0 shown.1 in
      let good = carry shown.1 hung.1 h (carry r shown.1 p g) in
      bind-OnSome Good (write_rows w plan res hung.0 hung.1) (conclude w plan res hung.1)
        (λ sheet. conclude-Good res hung.1 st sheet good (rw (h.0, p.0) e))

  pub receive-Good : (res : CallResult) (r : Runner) → Good r → OnSome Good (receive w plan res r)
  unfolding receive
  receive-Good res r g = receive_at-Good res r (lookup res.attempt_id r.in_flight) g refl

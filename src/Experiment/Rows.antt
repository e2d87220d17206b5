-- ===== src/Experiment/Rows.antt =====
-- Rows that an experiment with ODA does not write.
use dia.Prelude.{
  suc, ◌+◌, ◌≤◌, ◌≡◌, refl, ap, ◌∙◌, inl, inr, Bool, true, false, not, ◌&&◌, ◌||◌, Option, none,
  some, arith, Bytes, str_eq, str_eq_iff, str_eq_refl, ltb, if◌then◌else◌, Bool-cases,
}
use dia.CallManager.{OdaEnd, oda_ended, lookup, delete, store}
use dia.CallManager.Maps.{lookup-delete, lookup-store}
use dia.Controller.State.{CallResult}
use dia.Experiment.{Plan, Attempt, new_attempt, Runner, World, Sheet, ◌>>=◌, csv_rows, oda_row}
use dia.Experiment.Loop.{
  started_with, start_one, drop_attempt, conclude, handle, receive_at, receive,
}
use dia.Experiment.Pipeline.{HasFreshIds, IsFlowing, occurs, occurs_of_lookup}
use dia.Experiment.Rounds.{OnSome}

module _ (w : World) (plan : Plan) (ids : HasFreshIds w) (one : 1 ≤ plan.concurrency) where
  -- The attempt is completed and gone, and the file is as it was.
  abbrev pub Lost : Bytes → Runner → Runner → Type 0
  Lost id r r' =
      (r'.rows ≡ r.rows) × (lookup id r'.in_flight ≡ none) × (r'.completed ≡ suc r.completed)

  started_with-Lost :
      (id : Bytes) (st : Attempt) (r : Runner) (o : Option Bytes)
      → IsFlowing w plan ids one r
      → lookup id r.in_flight ≡ some st
      → w.start r.started ≡ o
      → OnSome (Lost id r) (
          started_with w plan
            (record r { in_flight = delete id r.in_flight; completed = r.completed + 1 })
            o)
  unfolding started_with
  started_with-Lost id st r none f e s = tt
  started_with-Lost id st r (some new) f e s = (refl, gone, omega arith)
    where
      differ : str_eq new id ≡ false
      differ = elim (Bool-cases (str_eq new id)) [
        | inr d ↦ d
        | inl same ↦ absurd (
            omega (
              arith,
              occurs_of_lookup id st r.in_flight e,
              f.fresh r.started new (omega arith) s,
              ap (λ k. occurs k r.in_flight) ((str_eq_iff new id).0 same),
            ))
      ]

      gone : lookup id (store new new_attempt (delete id r.in_flight)) ≡ none
      gone =
          lookup-store new id new_attempt (delete id r.in_flight)
          ∙ rw (differ, lookup-delete id id r.in_flight, str_eq_refl id)

  drop_attempt-Lost :
      (id : Bytes) (st : Attempt) (r : Runner)
      → IsFlowing w plan ids one r
      → lookup id r.in_flight ≡ some st
      → OnSome (Lost id r) (drop_attempt w plan id r)
  unfolding drop_attempt start_one
  drop_attempt-Lost id st r f e = elim (Bool-cases (ltb r.started plan.runs)) [
    | inl more ↦ rw more (started_with-Lost id st r (w.start r.started) f e refl)
    | inr last ↦ rw last (refl, lookup-delete id id r.in_flight ∙ rw (str_eq_refl id), omega arith)
  ]

  or_true : (b : Bool) → (b || true) ≡ true
  or_true true = refl
  or_true false = refl

  and_false : (b : Bool) → (b && false) ≡ false
  and_false true = refl
  and_false false = refl

  concluded :
      (res : CallResult) (st : Attempt) (r : Runner) (o : OdaEnd) (m : Option Sheet)
      → IsFlowing w plan ids one r
      → plan.wait_for_oda ≡ true
      → res.outcome ≡ oda_ended o
      → lookup res.attempt_id r.in_flight ≡ some st
      → OnSome (λ (s : Sheet). s.rows ≡ r.rows) m
      → OnSome (Lost res.attempt_id r) (m >>= conclude w plan res r)
  unfolding conclude
  concluded res st r o none f wait oda e h = tt
  concluded res st r o (some sheet) f wait oda e h =
      rw (oda, wait, h) (drop_attempt-Lost res.attempt_id st r f e)

  -- Where an experiment waits for ODA, an ODA result of an attempt with no row in the file, neither
  -- the answer's nor an ODA's, adds no row: unless the start of the next call fails, the attempt is
  -- completed and in flight no more, and the file is as it was.
  pub receive-Lost :
      (o : OdaEnd) (res : CallResult) (st : Attempt) (r : Runner)
      → IsFlowing w plan ids one r
      → plan.wait_for_oda ≡ true
      → res.outcome ≡ oda_ended o
      → lookup res.attempt_id r.in_flight ≡ some st
      → st.csv_answered ≡ false
      → st.csv_oda ≡ false
      → OnSome (Lost res.attempt_id r) (receive w plan res r)
  unfolding receive receive_at handle conclude csv_rows oda_row
  receive-Lost o res st r f wait oda e no_answer no_oda =
      rw (e, oda, or_true st.printed, and_false (not plan.wait_for_oda), no_oda, no_answer)
        (concluded (record res { outcome = oda_ended o }) st r o _ f wait refl e
          (either plan.csv _ _ refl refl))
    where
      either :
          (b : Bool) (x y : Sheet)
          → x.rows ≡ r.rows
          → y.rows ≡ r.rows
          → OnSome (λ (s : Sheet). s.rows ≡ r.rows) (if b then some x else some y)
      either true x y p q = p
      either false x y p q = q

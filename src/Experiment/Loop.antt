-- ===== src/Experiment/Loop.antt =====
-- cmd/sipcontroller/main.go: the loop of `runExperiment`, over the results that the controller sends.
use dia.Prelude.{
  ℕ, zero, suc, ◌+◌, Bool, true, false, not, ◌&&◌, ◌||◌, List, [], ◌∷◌, ◌++◌, Option, none, some,
  Bytes, is_empty, ltb, leb, if◌then◌else◌,
}
use dia.CallManager.{Outcome, answered, call_closed, call_error, oda_ended, lookup, delete, store}
use dia.Controller.State.{CallResult}
use dia.Experiment.{Plan, Attempt, new_attempt, Runner, new_runner, World, Sheet, ◌>>=◌, csv_rows}

-- An event of the loop's `select`.
pub data Input : Type 0 where
  cancelled : Input
  result : CallResult → Input

-- How the experiment ends; `waits` still blocks when the inputs at hand are used up. A failed run has
-- the state before the call or the round that returned the error.
pub data Exit : Type 0 where
  finished failed stopped waits : Runner → Exit

abbrev pub is_answered : Outcome → Bool
is_answered o = elim o [ answered ↦ true | _ ↦ false ]

abbrev pub is_oda : Outcome → Bool
is_oda o = elim o [ oda_ended e ↦ true | _ ↦ false ]

-- The outcomes that complete an attempt.
abbrev pub is_last : Bool → Outcome → Bool
is_last wait answered = false
is_last wait call_closed = true
is_last wait call_error = true
is_last wait (oda_ended e) = wait

module _ (w : World) (plan : Plan) where
  unfoldable pub started_with : Runner → Option Bytes → Option Runner
  unfolding store
  started_with r none = none
  started_with r (some id) =
      some (record r { started = r.started + 1; in_flight = store id new_attempt r.in_flight })

  -- `startOne`
  unfoldable pub start_one : Runner → Option Runner
  unfolding started_with
  start_one r = started_with r (w.start r.started)

  -- An error ends the filling.
  unfoldable pub refill : Runner → (Runner → Runner × Bool) → Option Runner → Runner × Bool
  refill r fill none = (r, false)
  refill r fill (some r') = fill r'

  -- The loop that fills the pipeline, on the rounds that are left.
  unfoldable pub prime : ℕ → Runner → Runner × Bool
  unfolding start_one refill
  prime zero r = (r, true)
  prime (suc rounds) r =
      if ltb r.started plan.runs && ltb r.started plan.concurrency
      then refill r (prime rounds) (start_one r)
      else (r, true)

  -- The first answered, error or closed result of an attempt is printed.
  abbrev pub print_once : CallResult → Attempt → Runner → Attempt × Runner
  print_once res st r =
      if st.printed || is_oda res.outcome
      then (st, r)
      else (record st { printed = true }, record r { printed = r.printed ++ res ∷ [] })

  -- An answered call is hung up if no ODA is waited for.
  abbrev pub hang_up_once : CallResult → Attempt → Runner → Attempt × Runner
  hang_up_once res st r =
      if not plan.wait_for_oda
        && is_answered res.outcome
        && not st.hangup_sent
        && not (is_empty res.call_id)
      then (record st { hangup_sent = true }, record r { hangups = r.hangups ++ res.call_id ∷ [] })
      else (st, r)

  abbrev pub write_rows : CallResult → Attempt → Runner → Option Sheet
  write_rows res st r =
      let sheet : Sheet = record { attempt = st; rows = r.rows } in
      if plan.csv then csv_rows w res.outcome res sheet else some sheet

  -- A completed attempt is dropped, and the next one is started.
  unfoldable pub drop_attempt : Bytes → Runner → Option Runner
  unfolding start_one delete
  drop_attempt id r =
      let dropped = record r { in_flight = delete id r.in_flight; completed = r.completed + 1 } in
      if ltb r.started plan.runs then start_one dropped else some dropped

  unfoldable pub conclude : CallResult → Runner → Sheet → Option Runner
  unfolding drop_attempt store
  conclude res r sheet =
      let written = record r { rows = sheet.rows } in
      if is_last plan.wait_for_oda res.outcome
      then drop_attempt res.attempt_id written
      else some (record written { in_flight = store res.attempt_id sheet.attempt r.in_flight })

  unfoldable pub handle : CallResult → Attempt → Runner → Option Runner
  unfolding conclude csv_rows
  handle res st r =
      let shown = print_once res st r in
      let hung = hang_up_once res shown.0 shown.1 in
      write_rows res hung.0 hung.1 >>= conclude res hung.1

  unfoldable pub receive_at : CallResult → Runner → Option Attempt → Option Runner
  unfolding handle
  receive_at res r none = some r
  receive_at res r (some st) = handle res st r

  -- One round with a result: one of no attempt in flight is passed over.
  unfoldable pub receive : CallResult → Runner → Option Runner
  unfolding receive_at lookup
  receive res r = receive_at res r (lookup res.attempt_id r.in_flight)

  unfoldable pub go_on : Runner → (Runner → Exit) → Option Runner → Exit
  go_on r loop none = failed r
  go_on r loop (some r') = loop r'

  -- `for completed < runs`
  unfoldable pub run_loop : List Input → Runner → Exit
  unfolding receive go_on
  run_loop [] r = if leb plan.runs r.completed then finished r else waits r
  run_loop (cancelled ∷ inputs) r = if leb plan.runs r.completed then finished r else stopped r
  run_loop (result res ∷ inputs) r =
      if leb plan.runs r.completed then finished r else go_on r (run_loop inputs) (receive res r)

  -- `runExperiment` from its first call on. There are at most `runs` rounds of filling.
  unfoldable pub run_experiment : List Input → Exit
  unfolding prime run_loop
  run_experiment inputs =
      let (r, ok) = prime plan.runs new_runner in if ok then run_loop inputs r else failed r

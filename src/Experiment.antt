-- ===== src/Experiment.antt =====
-- cmd/sipcontroller/main.go: the experiment that places calls and waits for their results.
-- The controller's answers and its results are inputs; time is left out. A row of the CSV file is the
-- result that it was made from.
pub mod Loop
pub mod Pipeline
pub mod Rounds
pub mod Orderly
pub mod Rows
pub mod Receiver
pub mod Csv
mod Tests
use dia.Prelude.{
  ℕ, zero, suc, ◌+◌, Bool, true, false, not, ◌&&◌, ◌||◌, List, [], ◌∷◌, ◌++◌, Option, none, some,
  Bytes, codes, str_eq, is_empty, ltb, leb, if◌then◌else◌, length, map,
}
use dia.CallManager.{
  Outcome, answered, call_closed, call_error, oda_ended, Entries, lookup, delete, store,
}
use dia.Controller.State.{ℤ, pos, negsuc, CallResult, Config}

-- `strings.ToLower` on ASCII.
unfoldable pub to_lower : Bytes → Bytes
to_lower s = map (λ c. if leb b'A' c && leb c b'Z' then c + 32 else c) s

pub record Plan : Type 0 where
  pub runs : ℕ
  pub concurrency : ℕ
  pub protocol : Bool
  pub wait_for_oda : Bool
  pub csv : Bool

pub data Planned : Type 0 where
  planned : Plan → Planned
  runs_not_positive unknown_mode : Planned

-- The mode's flag for the protocol; `none` is an unknown mode.
unfoldable pub protocol_of : Bytes → Option Bool
unfolding to_lower
protocol_of mode =
    if str_eq (to_lower mode) (codes "baseline")
    then some false
    else if str_eq (to_lower mode) (codes "integrated")
    then some true
    else none

abbrev pub positive : ℤ → Option ℕ
positive (pos zero) = none
positive (pos (suc n)) = some (suc n)
positive (negsuc n) = none

abbrev pub at_least_one : Option ℕ → ℕ
at_least_one none = 1
at_least_one (some n) = n

plan_with : Config → Bool → ℤ → Option ℕ → Option Bool → Planned
plan_with cfg csv concurrency none mode = runs_not_positive
plan_with cfg csv concurrency (some runs) none = unknown_mode
plan_with cfg csv concurrency (some runs) (some protocol) = planned (record {
  runs = runs;
  concurrency = at_least_one (positive concurrency);
  protocol = protocol;
  wait_for_oda =
      (elim cfg.outgoing_oda_delay [ none ↦ false | some n ↦ true ])
      && not (is_empty cfg.oda_attributes);
  csv = csv;
})

-- The tests and settings at the head of `runExperiment`.
unfoldable pub make_plan : Config → Bool → Bytes → ℤ → ℤ → Planned
unfolding plan_with protocol_of
make_plan cfg csv mode runs concurrency =
    plan_with cfg csv concurrency (positive runs) (protocol_of mode)

-- `attemptState`. Its `closed` is a test here, since a closed attempt is dropped at once.
pub record Attempt : Type 0 where
  pub printed : Bool
  pub hangup_sent : Bool
  pub csv_answered : Bool
  pub csv_oda : Bool
  pub csv_terminal : Bool
  pub pending_oda : Option CallResult

abbrev pub new_attempt : Attempt
new_attempt = record {
  printed = false;
  hangup_sent = false;
  csv_answered = false;
  csv_oda = false;
  csv_terminal = false;
  pending_oda = none;
}

pub record Runner : Type 0 where
  pub started : ℕ
  pub completed : ℕ
  pub in_flight : Entries Attempt
  pub printed : List CallResult
  pub rows : List CallResult
  pub hangups : List Bytes

abbrev pub new_runner : Runner
new_runner = record {
  started = 0;
  completed = 0;
  in_flight = [];
  printed = [];
  rows = [];
  hangups = [];
}

-- What the n-th `InitiateOutgoingCall` returns (`none` is an error), and whether a row can be written
-- behind those of the file.
pub record World : Type 0 where
  pub start : ℕ → Option Bytes
  pub write_ok : List CallResult → CallResult → Bool

infixl 5 ◌>>=◌
abbrev pub ◌>>=◌ {ℓ} : {A B : Type ℓ} → Option A → (A → Option B) → Option B
none >>= f = none
some a >>= f = f a

-- An attempt with the rows of the file.
pub record Sheet : Type 0 where
  pub attempt : Attempt
  pub rows : List CallResult

module _ (w : World) where
  -- `writeCSVRecord`, and what the runner notes of it; `none` is an error, which ends the run.
  unfoldable pub write_row : CallResult → (Attempt → Attempt) → Sheet → Option Sheet
  write_row res note s =
      if w.write_ok s.rows res
      then some (record { attempt = note s.attempt; rows = s.rows ++ res ∷ [] })
      else none

  abbrev pub note_oda : Attempt → Attempt
  note_oda st = record st { csv_oda = true }

  abbrev pub note_pending : Attempt → Attempt
  note_pending st = record st { csv_oda = true; pending_oda = none }

  abbrev pub note_answered : Attempt → Attempt
  note_answered st = record st { csv_answered = true }

  abbrev pub note_terminal : Attempt → Attempt
  note_terminal st = record st { csv_terminal = true }

  pending_row : Option CallResult → Sheet → Option Sheet
  unfolding write_row
  pending_row none s = some s
  pending_row (some res) s = if s.attempt.csv_oda then some s else write_row res note_pending s

  -- A pending ODA row is written, unless one was.
  unfoldable pub flush_pending : Sheet → Option Sheet
  unfolding pending_row
  flush_pending s = pending_row s.attempt.pending_oda s

  answer_row : CallResult → Sheet → Option Sheet
  unfolding write_row flush_pending
  answer_row res s =
      let written = write_row res note_answered s >>= flush_pending in
      if s.attempt.csv_answered then some s else written

  -- The row of a call's setup comes first.
  oda_row : CallResult → Sheet → Option Sheet
  unfolding write_row
  oda_row res s =
      if s.attempt.csv_oda
      then some s
      else if s.attempt.csv_answered
      then write_row res note_oda s
      else some (record s { attempt = record s.attempt { pending_oda = some res } })

  error_row : CallResult → Sheet → Option Sheet
  unfolding write_row
  error_row res s = if s.attempt.csv_terminal then some s else write_row res note_terminal s

  last_row : CallResult → Sheet → Option Sheet
  unfolding write_row
  last_row res s =
      if s.attempt.csv_answered || s.attempt.csv_oda || s.attempt.csv_terminal
      then some s
      else write_row res note_terminal s

  -- The switch over the outcome.
  unfoldable pub csv_rows : Outcome → CallResult → Sheet → Option Sheet
  unfolding answer_row oda_row error_row last_row flush_pending
  csv_rows answered res s = answer_row res s
  csv_rows (oda_ended o) res s = oda_row res s
  csv_rows call_error res s = error_row res s
  csv_rows call_closed res s = flush_pending s >>= last_row res

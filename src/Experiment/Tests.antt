-- ===== src/Experiment/Tests.antt =====
-- The experiment's theorems at three calls, two at a time.
use dia.Prelude.{◌++◌, str_eq, ℕ, ◌≡◌, refl, arith, true, [], ◌∷◌, none, some, codes, Bytes}
use dia.Decimal.{format}
use dia.Decimal.RoundTrip.{format-injective}
use dia.CallManager.{
  Outcome, answered, call_closed, oda_done, oda_ended, outgoing, attempt_name, lookup, store,
}
use dia.Controller.State.{CallResult, pos}
use dia.Experiment.{Plan, Runner, World, new_runner, new_attempt}
use dia.Experiment.Loop.{result, receive, run_experiment}
use dia.Experiment.Pipeline.{HasFreshIds, IsFlowing, added, added-IsFlowing}
use dia.Experiment.Rounds.{OnSome}
use dia.Experiment.Orderly.{Orderly, new_runner-Flows, run_experiment-Orderly}
use dia.Experiment.Rows.{Lost, receive-Lost}
use dia.Experiment.Receiver.{write_results, has_end, write_results-snoc}

abbrev demo_world : World
demo_world = record { start = λ n. some (attempt_name n); write_ok = λ rows row. true }

tail_eq : (c : ℕ) (s t : Bytes) → ◌≡◌ {A = Bytes} (c ∷ s) (c ∷ t) → s ≡ t
tail_eq c s t e = cc

demo-HasFreshIds : HasFreshIds demo_world
unfolding attempt_name
demo-HasFreshIds = record {
  differ = λ m n id p q.
      format-injective m n (tail_eq b'a' (format m) (format n) (ground (arith, p, q)));
}

abbrev demo_plan : Plan
demo_plan = record { runs = 3; concurrency = 2; protocol = true; wait_for_oda = true; csv = true }

abbrev row : ℕ → Outcome → CallResult
row n o = record {
  attempt_id = attempt_name n;
  call_id = codes "c";
  peer_phone = codes "+1";
  direction = outgoing;
  protocol_enabled = true;
  peer_uri = [];
  dial_sent_ms = some (pos 1);
  answered_ms = none;
  latency_ms = none;
  oda_requested_ms = none;
  oda_completed_ms = none;
  oda_latency_ms = none;
  outcome = o;
}

run_experiment-Orderly_example : Orderly demo_plan (
    run_experiment demo_world demo_plan (
      result (row 0 answered)
      ∷ result (row 0 (oda_ended oda_done))
      ∷ result (row 1 call_closed)
      ∷ []))
run_experiment-Orderly_example =
    run_experiment-Orderly demo_world demo_plan demo-HasFreshIds (omega arith) (
      result (row 0 answered)
      ∷ result (row 0 (oda_ended oda_done))
      ∷ result (row 1 call_closed)
      ∷ [])

-- One call is in flight.
abbrev one_call : Runner
one_call = added demo_world demo_plan demo-HasFreshIds (omega arith) (attempt_name 0) new_runner

one_call-IsFlowing : IsFlowing demo_world demo_plan demo-HasFreshIds (omega arith) one_call
one_call-IsFlowing =
    (added-IsFlowing demo_world demo_plan demo-HasFreshIds (omega arith) new_runner (attempt_name 0)
      (new_runner-Flows demo_world demo_plan demo-HasFreshIds (omega arith)) (omega arith)
      (omega arith) refl).0

receive-Lost_example :
    OnSome
      (Lost demo_world demo_plan demo-HasFreshIds (omega arith) (attempt_name 0) one_call)
      (receive demo_world demo_plan (row 0 (oda_ended oda_done)) one_call)
unfolding lookup attempt_name format store str_eq
receive-Lost_example =
    receive-Lost demo_world demo_plan demo-HasFreshIds (omega arith) oda_done
      (row 0 (oda_ended oda_done)) new_attempt one_call one_call-IsFlowing refl refl refl refl refl

write_results-snoc_example :
    write_results true [] ((row 0 (oda_ended oda_done) ∷ []) ++ row 0 call_closed ∷ [])
    ≡ write_results true [] (row 0 (oda_ended oda_done) ∷ []) ++ []
unfolding has_end attempt_name format str_eq
write_results-snoc_example =
    write_results-snoc true (row 0 (oda_ended oda_done) ∷ []) (row 0 call_closed)

-- ===== src/Process/Tests.antt =====
-- Runs of `main`.
use dia.Prelude.{◌≡◌, refl, false, true, [], none, some, codes}
use dia.Settings.{parsed}
use dia.Controller.Service.{started, not_connected}
use dia.Experiment.Csv.{no_file}
use dia.Process.{Setup, Answers, finished, run_main, serves, not_started, phone_required}

abbrev plain : Setup
plain = record {
  clear_cache = false;
  sip_account = codes " 7 ";
  experiment_mode = [];
  experiment_phone = [];
  output_csv = codes " ";
}

abbrev all_well : Answers
all_well = record {
  cleared = none;
  loaded = some (codes " ");
  started_as = λ phone. started;
  experiment = finished;
  csv = λ path. no_file;
}

account_used : run_main plain all_well (parsed false []) ≡ serves (codes "7") false
unfolding run_main
account_used = refl

no_baresip :
    run_main plain (record all_well { started_as = λ phone. not_connected }) (parsed true [])
    ≡ not_started not_connected
unfolding run_main
no_baresip = refl

no_phone :
    run_main (record plain { experiment_mode = codes "baseline" }) all_well (parsed false [])
    ≡ phone_required
unfolding run_main
no_phone = refl

-- ===== src/Process.antt =====
-- cmd/sipcontroller/main.go: `main`, from its flags to what it serves. What the parts answer is given.
mod Tests
use dia.Prelude.{ℕ, Bool, true, false, List, [], Option, none, some, Bytes, is_empty, if◌then◌else◌}
use dia.PeerCache.{trim_space}
use dia.Settings.{Parsed, parsed, env_required}
use dia.Controller.Service.{Started, cache_init_failed, cache_not_available, not_connected, started}
use dia.Experiment.Csv.{Opened, no_file, opened, no_directory, not_created, header_failed}

-- The parts of the configuration that `main` reads.
pub record Setup : Type 0 where
  pub clear_cache : Bool
  pub sip_account : Bytes
  pub experiment_mode : Bytes
  pub experiment_phone : Bytes
  pub output_csv : Bytes

-- How a run of the experiment ends.
pub data Run : Type 0 where
  finished cancelled failed : Run

-- What the parts answer: the clearing of the cache, the self phone of a configuration that could be
-- loaded, the start with a self phone, the experiment, the CSV file.
pub record Answers : Type 0 where
  pub cleared : Option ℕ
  pub loaded : Option Bytes
  pub started_as : Bytes → Started
  pub experiment : Run
  pub csv : Bytes → Opened

-- How `main` goes on: it has ended, with or without a failure and with or without `Stop`, or it serves
-- commands until it is interrupted, with its self phone and whether it writes results.
pub data Main : Type 0 where
  usage cache_cleared clear_failed no_config : Main
  not_started : Started → Main
  phone_required experiment_done experiment_failed csv_failed : Main
  serves : Bytes → Bool → Main

-- MY_PHONE of the environment file, or else the SIP account.
unfoldable pub self_phone_of : Bytes → Bytes → Bytes
unfolding trim_space
self_phone_of self_phone account =
    if is_empty (trim_space self_phone) then trim_space account else self_phone

abbrev pub after_run : Run → Main
after_run finished = experiment_done
after_run cancelled = experiment_done
after_run failed = experiment_failed

abbrev pub with_csv : Bytes → Opened → Main
with_csv self_phone no_file = serves self_phone false
with_csv self_phone (opened rows) = serves self_phone true
with_csv self_phone no_directory = csv_failed
with_csv self_phone not_created = csv_failed
with_csv self_phone header_failed = csv_failed

-- What follows the start.
unfoldable pub run_started : Setup → Answers → Bytes → Main
unfolding trim_space
run_started setup answers self_phone =
    if is_empty setup.experiment_mode
    then with_csv self_phone (
        if is_empty (trim_space setup.output_csv)
        then no_file
        else answers.csv (trim_space setup.output_csv))
    else if is_empty setup.experiment_phone
    then phone_required
    else after_run answers.experiment

abbrev pub when_started : Setup → Answers → Bytes → Started → Main
when_started setup answers self_phone started = run_started setup answers self_phone
when_started setup answers self_phone cache_init_failed = not_started cache_init_failed
when_started setup answers self_phone cache_not_available = not_started cache_not_available
when_started setup answers self_phone not_connected = not_started not_connected

abbrev pub with_config : Setup → Answers → Option Bytes → Main
with_config setup answers none = no_config
with_config setup answers (some phone) =
    let self_phone = self_phone_of phone setup.sip_account in
    when_started setup answers self_phone (answers.started_as self_phone)

abbrev pub clear_result : Option ℕ → Main
clear_result none = clear_failed
clear_result (some n) = cache_cleared

-- `main`, behind `ParseFlags`.
unfoldable pub run_main : Setup → Answers → Parsed → Main
unfolding run_started self_phone_of
run_main setup answers env_required = usage
run_main setup answers (parsed cache attributes) =
    if setup.clear_cache
    then clear_result answers.cleared
    else with_config setup answers answers.loaded

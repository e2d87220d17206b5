-- ===== src/Console/Tests.antt =====
-- Typed lines, and a short input.
use dia.Prelude.{
  ℕ, ◌+◌, ◌≡◌, refl, true, false, List, [], ◌∷◌, ◌++◌, Option, some, Bytes, codes, str_eq, arith,
}
use dia.Decimal.{format}
use dia.Controller.State.{pos, negsuc}
use dia.Console.{Command, run, dial_proto, sscanf_int, read_command}
use dia.Console.Words.{blank, inky, spread}
use dia.Console.RoundTrip.{read_command-words_of}
use dia.Console.Loop.{Shell, stopped, command_loop, dial_started, bad_proto}

abbrev one_run : Command
one_run = run (codes "baseline") (codes "+1") (pos 10) (negsuc 1)

abbrev args : List (Bytes × Bytes)
args =
    (codes "  ", codes "baseline")
    ∷ (codes " ", codes "+1")
    ∷ (codes " ", codes "10")
    ∷ (codes " ", codes "-2")
    ∷ []

read_command-words_of_example :
    read_command (codes " " ++ (codes "run" ++ spread args (codes " "))) ≡ one_run
unfolding blank inky format
read_command-words_of_example =
    read_command-words_of one_run (codes " ") args (codes " ") (ground arith, ground arith) refl
      refl
      (
        (refl, refl, (refl, refl)),
        (
          (refl, refl, (refl, refl)),
          ((refl, refl, (refl, refl)), ((refl, refl, (refl, refl)), tt)),
        ),
      )
      refl

numbers :
    (sscanf_int (codes "12x") ≡ some (pos 12))
    × (sscanf_int (codes "-0") ≡ some (pos 0))
    × (sscanf_int (codes "x") ≡ Option.none)
unfolding sscanf_int
numbers = (refl, refl, refl)

no_number :
    read_command (codes "run baseline +1 many")
    ≡ run (codes "baseline") (codes "+1") (pos 0) (pos 1)
unfolding read_command str_eq
no_number = refl

bad_flag : read_command (codes "dial +1 maybe") ≡ dial_proto
unfolding read_command str_eq
bad_flag = refl

-- A shell that counts the calls it starts.
abbrev counting : Shell ℕ
counting = record {
  initiate_outgoing_call = λ phone on n. (some phone, n + 1);
  list_active_calls = λ n. [];
  trigger_oda_for_call = λ id attrs n. (false, n);
  run_experiment = λ mode phone runs conc n. (true, n);
}

two_lines :
    command_loop counting
      (codes "dial +1 OFF" ∷ codes "dial 2 x" ∷ codes " exit" ∷ codes "dial 3" ∷ [])
      []
      0
    ≡ stopped (dial_started (codes "+1") ∷ bad_proto ∷ []) 1
unfolding command_loop str_eq
two_lines = refl

-- ===== src/Controller/Tests.antt =====
-- The controller's theorems: an outgoing call that is answered twice and then closed, and an incoming
-- call of an unknown caller.
use dia.Prelude.{◌≡◌, refl, ◌⊎◌, ℕ, suc, ◌+◌, ◌≤◌, true, false, [], none, some, codes}
use dia.CallManager.{outgoing, new_call_session, new_call_manager}
use dia.Phone.{extract_phone}
use mathlib.Core.List.Perm
use dia.Controller.Handlers.{begin_outgoing}
use dia.Controller.Overlap.{begin_outgoing_refuses}
use dia.Controller.State.{emit_answered, Dia, Config, Act}
use dia.Controller.Events.{Ctl, on_answer, on_closed}
use dia.Controller.Once.{count, is_answer, is_oda_end, bit}
use dia.Controller.Messages.{is_verified, party, complete, decide}
use dia.Controller.Gate.{Admitted, TurnedAway, decide-Gated}
use dia.Baresip.{BaresipEvent}
use dia.CallManager.Sound.{IsSound}
use dia.Controller.Service.{Service, new_service, handle_event}
use dia.Controller.Reach.{event, dials, new, next, with_ctl, Serves-IsSound}
use dia.Controller.Moves.{answers, closes}
use dia.Controller.Life.{overlaps, Life, start, later, Life-reports_once}

-- A library whose state is a number and whose methods all succeed with an empty result.
abbrev demo_lib : Dia
demo_lib = record {
  D = ℕ;
  new_call_state = λ phone out. some 0;
  ake_init = λ d. (true, d);
  apply_peer_session = λ blob d. (true, d);
  ake_request = λ d. (some [], d);
  ake_response = λ m d. (some [], d);
  ake_complete = λ m d. (some [], d);
  ake_finalize = λ m d. (true, d);
  rua_derive_topic = λ d. (some [], d);
  rua_request = λ d. (some [], d);
  transition_to_rua = λ d. (true, d);
  ticket = λ d. (some [], d);
  rua_init = λ d. (true, d);
  rua_response = λ m d. (some [], d);
  rua_finalize = λ m d. (true, d);
  oda_request = λ names d. (some [], d);
  oda_response = λ m d. (some [], d);
  oda_verify = λ m d. (true, d);
  create_bye = λ d. (some [], d);
  current_topic = λ d. none;
  sender_id = λ d. none;
  remote_party = λ d. (true, none);
  export_peer_session = λ d. none;
  parse_message = λ m. none;
  mac = record { create_message_mac = λ t d. some []; verify_message_mac = λ k p d m. some true };
}

abbrev demo_config : Config
demo_config = record {
  self_phone = codes "+1";
  baseline = false;
  integrated = true;
  oda_attributes = [];
  oda_timeout_sec = 0;
  outgoing_oda_delay = none;
  cache_on = false;
  relay_dials = true;
}

demo_call : Act ℕ
unfolding new_call_session
demo_call = record {
  session = record (new_call_session (codes "+2") [] outgoing) { dial_sent_at = some 3 };
  commands = [];
  results = [];
  tasks = [];
  stored = [];
  removed = false;
}

answered_once : Act ℕ
answered_once = on_answer demo_config 7000000 demo_call

answered_twice : Act ℕ
answered_twice = on_answer demo_config 9000000 answered_once

-- The second goroutine had passed its tests before the first one set the flag.
abbrev answered_again : Act ℕ
answered_again = emit_answered answered_twice

demo-Life : Life demo_lib demo_config demo_call 1 (on_closed demo_lib demo_config answered_again)
unfolding answered_once answered_twice
demo-Life =
    later
      (overlaps (later (later start (answers 7000000 demo_call)) (answers 9000000 answered_once)))
      (closes answered_again)

Life-reports_once_example :
    (count is_answer (on_closed demo_lib demo_config answered_again).results
        + bit demo_call.session.answered_result_emitted
      ≤ suc (count is_answer demo_call.results) + 1)
    × (count is_oda_end (on_closed demo_lib demo_config answered_again).results
          + bit demo_call.session.oda_terminal_emitted
        ≤ suc (count is_oda_end demo_call.results))
Life-reports_once_example =
    Life-reports_once demo_lib demo_config 1 demo_call
      (on_closed demo_lib demo_config answered_again) demo-Life

-- An incoming call whose party is not verified.
unknown_caller : Act ℕ
unfolding demo_call
unknown_caller = record demo_call {
  session = record demo_call.session { call_id = codes "c"; dia_state = some 0 };
}

decide-Gated_example :
    ((is_verified (party demo_lib (complete demo_lib unknown_caller)) ≡ true)
      × Admitted demo_lib demo_config unknown_caller (decide demo_lib demo_config unknown_caller))
    ⊎ ((is_verified (party demo_lib (complete demo_lib unknown_caller)) ≡ false)
        × TurnedAway demo_lib demo_config unknown_caller
            (decide demo_lib demo_config unknown_caller))
decide-Gated_example = decide-Gated demo_lib demo_config unknown_caller

no_calls : Ctl ℕ
unfolding new_call_manager
no_calls = record { calls = new_call_manager; commands = []; results = []; tasks = []; stored = [] }

begin_outgoing_refuses_example :
    (begin_outgoing demo_lib demo_config
      (λ es. es)
      (codes "tel:+2")
      true
      (begin_outgoing demo_lib demo_config (λ es. es) (codes "sip:+2@x") false no_calls).1).0
    ≡ none
unfolding no_calls begin_outgoing extract_phone
begin_outgoing_refuses_example =
    begin_outgoing_refuses demo_lib demo_config (λ es. es) (λ es. Perm.refl es) (codes "sip:+2@x")
      (codes "tel:+2") false true no_calls 0 refl refl

abbrev fresh : Service ℕ
fresh = new_service none

abbrev incoming_call : BaresipEvent
incoming_call = record {
  event = true;
  class = codes "call";
  type = codes "CALL_INCOMING";
  account_aor = [];
  direction = codes "incoming";
  peer_uri = codes "sip:+2@x";
  peer_name = [];
  id = codes "c1";
  param = [];
}

abbrev rung : Service ℕ
rung = handle_event demo_lib demo_config (λ es. es) 5 incoming_call fresh

abbrev rung_and_dialed : Service ℕ
rung_and_dialed =
    with_ctl demo_lib demo_config (λ es. es) rung
      (begin_outgoing demo_lib demo_config (λ es. es) (codes "+3") true rung.ctl).1

Serves-IsSound_example : IsSound rung_and_dialed.ctl.calls
Serves-IsSound_example =
    Serves-IsSound demo_lib demo_config (λ es. es) rung_and_dialed
      (next (next (new none) (event 5 incoming_call fresh)) (dials (codes "+3") true rung))

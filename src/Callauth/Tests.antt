-- ===== src/Callauth/Tests.antt =====
-- The command line client's theorems at a caller whose peer session is cached.
use dia.Prelude.{
  ℕ, ◌≤◌, ◌≡◌, refl, true, false, List, [], ◌∷◌, none, some, Bytes, codes, length, All,
}
use dia.Relay.Server.{MsgType}
use dia.Controller.State.{Dia}
use dia.Callauth.{AppConfig, Client, Roles, new_runtime}
use dia.Callauth.Messages.{handle_message, run_oda}
use dia.Callauth.Flags.{
  IsItem, join, parse_comma_list, parse_comma_list-join, parse_comma_list-IsItem,
}
use dia.Text.{lacks}
use dia.Callauth.Start.{Launch, start}
use dia.Callauth.Moves.{Moves, none_yet, later, receives, asks}
use dia.Callauth.Topic.{Stays, Moves-Stays}
use dia.Callauth.Run.{start-part_once}
use dia.PeerCache.{trim_space, trim_left, trim_right}

-- A library whose state is a number and whose methods succeed; every message is an RUA response.
abbrev demo_lib : Dia
demo_lib = record {
  D = ℕ;
  new_call_state = λ phone out. some 0;
  ake_init = λ d. (true, d);
  apply_peer_session = λ blob d. (true, d);
  ake_request = λ d. (some (codes "m"), d);
  ake_response = λ m d. (some (codes "m"), d);
  ake_complete = λ m d. (some (codes "m"), d);
  ake_finalize = λ m d. (true, d);
  rua_derive_topic = λ d. (some (codes "rua"), d);
  rua_request = λ d. (some (codes "m"), d);
  transition_to_rua = λ d. (true, d);
  ticket = λ d. (some (codes "01234567890123456789012345678901"), d);
  rua_init = λ d. (true, d);
  rua_response = λ m d. (some (codes "m"), d);
  rua_finalize = λ m d. (true, d);
  oda_request = λ names d. (some (codes "m"), d);
  oda_response = λ m d. (some (codes "m"), d);
  oda_verify = λ m d. (true, d);
  create_bye = λ d. (some (codes "bye"), d);
  current_topic = λ d. some (codes "rua");
  sender_id = λ d. some (codes "me");
  remote_party = λ d. (true, none);
  export_peer_session = λ d. some (codes "s");
  parse_message = λ m. some (MsgType.rua_response, codes "you");
  mac = record { create_message_mac = λ t d. some []; verify_message_mac = λ k p d m. some true };
}

abbrev demo_roles : Roles ℕ
demo_roles = record {
  topic_of = λ m. codes "rua";
  is_recipient = λ d. false;
  is_caller = λ d. true;
}

abbrev demo_config : AppConfig
demo_config = record {
  oda_delay_sec = some 0;
  oda_attrs = codes "name" ∷ [];
  bye = true;
  cache_enabled = true;
  self_phone = codes "+1";
}

abbrev demo_launch : Launch
demo_launch = record {
  phone = codes "+2";
  outgoing = false;
  cached = some (codes "s");
  dials = true;
}

abbrev demo_client : Client ℕ
demo_client = record {
  call_state = 0;
  session = record {
    topic = codes "rua";
    ticket = codes "01234567890123456789012345678901";
    sender_id = codes "me";
    closed = false;
    connected = false;
    send_q = [];
  };
  runtime = record new_runtime { cache_hit = true };
  byes = [];
  oda_tasks = 0;
  stored = [];
  stopped = false;
}

demo_client-started : start demo_lib demo_launch ≡ some demo_client
unfolding start
demo_client-started = refl

abbrev finished : Client ℕ
finished = handle_message demo_lib demo_roles demo_config (codes "r") demo_client

finished-Moves :
    Moves demo_lib demo_roles demo_config demo_client
      (run_oda demo_lib demo_roles demo_config finished)
finished-Moves = later (later none_yet (receives (codes "r"))) asks

start-part_once_example :
    (length (run_oda demo_lib demo_roles demo_config finished).byes ≤ 1)
    × ((run_oda demo_lib demo_roles demo_config finished).oda_tasks ≤ 1)
start-part_once_example =
    start-part_once demo_lib demo_roles demo_config demo_launch demo_client
      (run_oda demo_lib demo_roles demo_config finished) demo_client-started finished-Moves

Moves-Stays_example : Stays demo_client (run_oda demo_lib demo_roles demo_config finished)
Moves-Stays_example =
    Moves-Stays demo_lib demo_roles demo_config demo_client
      (run_oda demo_lib demo_roles demo_config finished) refl finished-Moves

abbrev two_names : List Bytes
two_names = codes "name" ∷ codes "issuer" ∷ []

two_names-items : All IsItem two_names
unfolding lacks trim_space trim_right trim_left
two_names-items = (
  record { filled = refl; trimmed = refl; plain = refl },
  (record { filled = refl; trimmed = refl; plain = refl }, tt),
)

parse_comma_list-join_example : parse_comma_list (join two_names) ≡ two_names
parse_comma_list-join_example = parse_comma_list-join two_names two_names-items

parse_comma_list-IsItem_example : All IsItem (parse_comma_list (codes "name, ,issuer"))
parse_comma_list-IsItem_example = parse_comma_list-IsItem (codes "name, ,issuer")

-- ===== src/Baresip/Tests.antt =====
-- The Baresip client's theorems at a dial that is answered.
use dia.Prelude.{◌≡◌, refl, true, [], ◌∷◌, none, some, codes, str_eq, set}
use dia.Decimal.{format}
use dia.CallManager.{lookup, delete, store}
use dia.Baresip.{
  BaresipResponse, BaresipClient, Json, Call, replied, new_baresip_client, begin_command,
  take_reply, on_response, on_frame, hangup_params,
}
use dia.Baresip.Steps.{
  Reach, start, after, begins, reads, takes, Reach-reads, Reach-replies_own, Routed,
  on_response-Routed,
}

abbrev reply : BaresipResponse
reply = record { response = true; ok = true; data_text = []; token = codes "tok1" }

-- Every frame is the reply.
abbrev demo_json : Json
demo_json = record {
  keys = λ text. some (codes "response" ∷ []);
  read_event = λ text. none;
  read_response = λ text. some reply;
  marshal = λ c. some c.command;
}

abbrev waiting : Call
waiting = record { token = codes "tok1"; channel = []; outcome = none }

abbrev answered : Call
answered = record waiting { channel = reply ∷ [] }

dialed : BaresipClient
dialed = (begin_command demo_json (codes "dial") (codes "+1") new_baresip_client).1

received : BaresipClient
received = record dialed { pending_cmds = []; calls = answered ∷ [] }

dialed-Reach : Reach demo_json dialed
unfolding dialed
dialed-Reach = after start (begins (codes "dial") (codes "+1"))

received-Reach : Reach demo_json received
unfolding received dialed begin_command new_baresip_client on_frame lookup str_eq delete store set
    format
received-Reach = after dialed-Reach (reads (codes "r") received refl refl)

Reach-reads_example : (c' : BaresipClient) × (on_frame demo_json (codes "r") dialed ≡ some c')
Reach-reads_example = Reach-reads demo_json dialed-Reach (codes "r")

returned-Reach : Reach demo_json (take_reply 0 answered reply received)
unfolding received dialed
returned-Reach = after received-Reach (takes 0 answered reply refl refl refl)

Reach-replies_own_example : reply.token ≡ codes "tok1"
unfolding take_reply received dialed
Reach-replies_own_example =
    Reach-replies_own demo_json returned-Reach 0
      (record answered { channel = []; outcome = some (replied reply) }) reply refl refl

on_response-Routed_example :
    Routed dialed reply (lookup reply.token dialed.pending_cmds) (on_response reply dialed)
on_response-Routed_example = on_response-Routed demo_json dialed-Reach reply refl

hangup_params_test :
    hangup_params (codes "c") 486 (codes "Busy Here") ≡ codes "c scode=486 reason=Busy Here"
unfolding hangup_params
hangup_params_test = refl

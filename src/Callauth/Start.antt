-- ===== src/Callauth/Start.antt =====
-- cmd/client/callauth/main.go: what `main` does before it waits for messages.
use dia.Prelude.{Bool, true, false, Option, none, some, [], Bytes, if◌then◌else◌}
use dia.Subscriber
use dia.Subscriber.{Sent, queued, refused, blocks, send}
use dia.Controller.State.{Dia}
use dia.Controller.Protocol.{new_controller}
use dia.Callauth.{Client, new_runtime}

-- The options of a run, and what lies outside: the peer session that the cache finds, if it is on and
-- has one, and whether the relay can be dialed.
pub record Launch : Type 0 where
  pub phone : Bytes
  pub outgoing : Bool
  pub cached : Option Bytes
  pub dials : Bool

-- Where the client begins: on a cache hit with a topic, a ticket and a request of its own.
pub record Prepared (D : Type 0) : Type 0 where
  pub state : D
  pub hit : Bool
  pub topic : Bytes
  pub ticket : Bytes
  pub request : Bytes

-- A call whose error ends the program.
abbrev pub take {ℓ} : {D A : Type 0} {B : Type ℓ} → Option A × D → (A → D → Option B) → Option B
take (none, d) k = none
take (some x, d) k = k x d

abbrev pub need {ℓ} : {D : Type 0} {B : Type ℓ} → Bool × D → (D → Option B) → Option B
need (true, d) k = k d
need (false, d) k = none

module _ (lib : Dia) where
  unfoldable pub begin_client : Bool → lib.D → Subscriber.Session → Client lib.D
  begin_client hit d session = record {
    call_state = d;
    session = session;
    runtime = record new_runtime { cache_hit = hit };
    byes = [];
    oda_tasks = 0;
    stored = [];
    stopped = false;
  }

  resume : Bool → lib.D → Option (Prepared lib.D)
  resume outgoing d = take (lib.rua_derive_topic d) λ topic d1.
      take (if outgoing then lib.rua_request d1 else (some [], d1)) λ request d2.
        need (lib.transition_to_rua d2) λ d3. take (lib.ticket d3) λ ticket d4.
          some
            (record { state = d4; hit = true; topic = topic; ticket = ticket; request = request })

  fresh : lib.D → Prepared lib.D
  fresh d = record { state = d; hit = false; topic = []; ticket = []; request = [] }

  -- A peer session that cannot be applied counts as a miss.
  unfoldable pub prepare : Bool → Option Bytes → lib.D → Option (Prepared lib.D)
  unfolding resume fresh
  prepare outgoing none d = some (fresh d)
  prepare outgoing (some blob) d =
      let (ok, d1) = lib.apply_peer_session blob d in
      if ok then resume outgoing d1 else some (fresh d1)

  -- A refused first message ends the program.
  unfoldable pub on_sent : Bool → lib.D → Sent → Option (Client lib.D)
  unfolding begin_client
  on_sent hit d (queued s) = some (begin_client hit d s)
  on_sent hit d (refused why) = none
  on_sent hit d (blocks s) = some (begin_client hit d s)

  -- The first message, or on a cache hit of an incoming call the wait for one.
  unfoldable pub first_message :
      Bool → Bool → Bytes → lib.D → Subscriber.Session → Option (Client lib.D)
  unfolding on_sent send begin_client
  first_message true true request d session = on_sent true d (send lib.mac request session)
  first_message true false request d session =
      need (lib.rua_init d) λ d'. some (begin_client true d' session)
  first_message false true request d session =
      take (lib.ake_request d) λ message d'. on_sent false d' (send lib.mac message session)
  first_message false false request d session = some (begin_client false d session)

  unfoldable pub dialed : Launch → Option (Prepared lib.D) → Option (Client lib.D)
  unfolding first_message new_controller
  dialed l none = none
  dialed l (some p) =
      take (new_controller lib l.dials p.topic p.ticket p.state)
        λ session d. first_message p.hit l.outgoing p.request d session

  unfoldable pub created : Launch → Option lib.D → Option (Client lib.D)
  unfolding dialed prepare
  created l none = none
  created l (some d) = need (lib.ake_init d) λ d'. dialed l (prepare l.outgoing l.cached d')

  -- `main` up to its wait; `none` is a fatal error.
  unfoldable pub start : Launch → Option (Client lib.D)
  unfolding created
  start l = created l (lib.new_call_state l.phone l.outgoing)

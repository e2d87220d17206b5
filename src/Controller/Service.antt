-- ===== src/Controller/Service.antt =====
-- controller.go, the controller as a whole: how it is made, started and stopped, its loop over what
-- Baresip sends, its look into the cache, and what it tells of the active calls.
-- The logs, and the registration snapshot that only the verbose mode takes for them, are left out.
use dia.Prelude.{
  ℕ, Bool, true, false, not, ◌&&◌, List, [], ◌∷◌, ◌++◌, Option, none, some, Bytes, codes, str_eq,
  is_empty, if◌then◌else◌, get_elem?,
}
use dia.CallManager.{
  Entries, CallSession, CallManager, cleanup, modify, update_at, new_call_manager,
}
use dia.CallManager.Registry.{get_all_sessions}
use dia.Baresip.{BaresipEvent}
use dia.PeerCache.{
  KeyStore, PeerSessionCache, Lookup, hit, miss, failed, CacheConfig, new_peer_session_cache, get,
  set, trim_space,
}
use dia.Console.Loop.{CallInfo}
use dia.Controller.State.{Dia, Config, Reason, hangup}
use dia.Controller.Events.{
  Ctl, Event, EventType, call_incoming, call_remote_sdp, call_outgoing, call_ringing, call_answered,
  call_established, call_was_closed,
}
use dia.Controller.Handlers.{handle_baresip_event}

-- `Controller`: the calls, whether `registeredCh` is closed and `ctx` cancelled, whether Baresip's
-- connection is closed, and the cache, where `none` is the error of its opening.
pub record Service (D : Type 0) : Type 0 where
  pub ctl : Ctl D
  pub registered : Bool
  pub cancelled : Bool
  pub baresip_closed : Bool
  pub peer_cache : Option PeerSessionCache

-- Another event: `REGISTER_OK` counts, the rest is only logged.
pub data Signal : Type 0 where
  call_event : EventType → Signal
  register_ok logged_only : Signal

-- The types that `handleBaresipEvent` tells apart.
unfoldable pub signal_of : Bytes → Signal
signal_of t =
    if str_eq t (codes "CALL_INCOMING")
    then call_event call_incoming
    else if str_eq t (codes "CALL_REMOTE_SDP")
    then call_event call_remote_sdp
    else if str_eq t (codes "CALL_OUTGOING")
    then call_event call_outgoing
    else if str_eq t (codes "CALL_RINGING")
    then call_event call_ringing
    else if str_eq t (codes "CALL_ANSWERED")
    then call_event call_answered
    else if str_eq t (codes "CALL_ESTABLISHED")
    then call_event call_established
    else if str_eq t (codes "CALL_CLOSED")
    then call_event call_was_closed
    else if str_eq t (codes "REGISTER_OK")
    then register_ok
    else logged_only

abbrev pub event_of : BaresipEvent → Event
event_of e = record {
  is_incoming_call = str_eq e.direction (codes "incoming");
  id = e.id;
  peer_uri = e.peer_uri;
  peer_name = e.peer_name;
  account_aor = e.account_aor;
}

-- How `Start` ends.
pub data Started : Type 0 where
  cache_init_failed cache_not_available not_connected started : Started

-- What wakes `WaitForRegister`.
pub data Wake : Type 0 where
  context_done registration timer : Wake

-- A case of the loop's `select`; `none` is a closed channel. Errors are logged.
pub data Input : Type 0 where
  done : Input
  event : Option (ℕ × BaresipEvent) → Input
  baresip_error : Option (Unit {0}) → Input

abbrev pub is_enabled : Option PeerSessionCache → Bool
is_enabled none = false
is_enabled (some c) = c.enabled

abbrev pub start_cached : Bool → Option PeerSessionCache → Started
start_cached connects none = cache_init_failed
start_cached connects (some c) =
    if not c.enabled then cache_not_available else if connects then started else not_connected

abbrev pub hit_only : Lookup → Option Bytes
hit_only (hit blob) = some blob
hit_only miss = none
hit_only failed = none

module _ {D : Type 0} where
  unfoldable pub new_service : Option PeerSessionCache → Service D
  unfolding new_call_manager
  new_service cache = record {
    ctl = record { calls = new_call_manager; commands = []; results = []; tasks = []; stored = [] };
    registered = false;
    cancelled = false;
    baresip_closed = false;
    peer_cache = cache;
  }

  -- `markRegistered`, once or more.
  abbrev pub mark_registered : Service D → Service D
  mark_registered v = record v { registered = true }

  -- `WaitForRegister`; false is a returned error.
  unfoldable pub wait_for_register : Wake → Service D → Bool
  wait_for_register context_done v = v.registered
  wait_for_register registration v = true
  wait_for_register timer v = v.registered

  -- `HangupCall` up to Baresip's reply; false is the error of a missing call-id.
  unfoldable pub hangup_call : Bytes → Service D → Bool × Service D
  unfolding trim_space
  hangup_call call_id v =
      let asked = record v {
        ctl = record v.ctl { commands = v.ctl.commands ++ hangup call_id 0 Reason.none_given ∷ [] };
      } in
      if is_empty (trim_space call_id) then (false, v) else (true, asked)

  -- `Start`; `connects` is whether Baresip can be reached.
  unfoldable pub start : CacheConfig → Bool → Service D → Started
  start cfg connects v =
      if cfg.cache_enabled
      then start_cached connects v.peer_cache
      else if connects
      then started
      else not_connected

  unfoldable pub cleanup_all : List ℕ → CallManager D → CallManager D
  unfolding cleanup update_at
  cleanup_all [] m = m
  cleanup_all (r ∷ rs) m = cleanup_all rs (modify r cleanup m)

  -- `Stop`: every registered session is cleaned up, and stays registered.
  unfoldable pub stop : (Entries ℕ → Entries ℕ) → Service D → Service D
  unfolding cleanup_all get_all_sessions
  stop order v = record v {
    cancelled = true;
    ctl = record v.ctl { calls = cleanup_all (get_all_sessions order v.ctl.calls) v.ctl.calls };
    baresip_closed = true;
  }

  -- `cacheEnabled`
  abbrev pub cache_enabled : CacheConfig → Service D → Bool
  cache_enabled cfg v = cfg.cache_enabled && is_enabled v.peer_cache

  abbrev pub info_of : CallSession D → CallInfo
  info_of s = record {
    call_id = s.call_id;
    peer_phone = s.peer_phone;
    direction = s.direction;
    state = s.state;
    dia_done = s.dia_done;
    sip_estab = s.sip_established;
    remote = s.remote_party;
  }

  abbrev pub add_info : Option (CallSession D) → List CallInfo → List CallInfo
  add_info none infos = infos
  add_info (some s) infos = info_of s ∷ infos

  unfoldable pub infos_of : CallManager D → List ℕ → List CallInfo
  infos_of m [] = []
  infos_of m (r ∷ rs) = add_info (get_elem? m.sessions r) (infos_of m rs)

  -- `ListActiveCalls`
  unfoldable pub list_active_calls : (Entries ℕ → Entries ℕ) → Service D → List CallInfo
  unfolding infos_of get_all_sessions
  list_active_calls order v = infos_of v.ctl.calls (get_all_sessions order v.ctl.calls)

module _ (redis : KeyStore) where
  open redis use {Db}

  abbrev pub get_from : Bytes → Bytes → Db → Option PeerSessionCache → Option Bytes
  get_from self_phone peer_phone db none = none
  get_from self_phone peer_phone db (some c) = hit_only (get redis c self_phone peer_phone db)

  abbrev pub set_in : Bytes → Bytes → Bytes → Db → Option PeerSessionCache → Db
  set_in self_phone peer_phone blob db none = db
  set_in self_phone peer_phone blob db (some c) = (set redis c self_phone peer_phone blob db).1

module _ {D : Type 0} (redis : KeyStore) where
  open redis use {Db}

  -- `NewController`
  unfoldable pub new_controller : CacheConfig → Service D
  unfolding new_service new_peer_session_cache
  new_controller cfg = new_service (new_peer_session_cache redis (some cfg))

  -- `cacheGetPeerSession`: an error of Redis counts as a miss.
  unfoldable pub cache_get : CacheConfig → Service D → Bytes → Bytes → Db → Option Bytes
  unfolding get
  cache_get cfg v self_phone peer_phone db =
      if cache_enabled cfg v then get_from redis self_phone peer_phone db v.peer_cache else none

  -- `cacheStorePeerSession`: an error of Redis is only logged.
  unfoldable pub cache_put : CacheConfig → Service D → Bytes → Bytes → Bytes → Db → Db
  unfolding set
  cache_put cfg v self_phone peer_phone blob db =
      if cache_enabled cfg v && not (is_empty blob)
      then set_in redis self_phone peer_phone blob db v.peer_cache
      else db

module _ (lib : Dia) (cfg : Config) (order : Entries ℕ → Entries ℕ) where
  abbrev pub S : Type 0
  S = Service lib.D

  abbrev pub on_signal : ℕ → Event → S → Signal → S
  on_signal now ev v (call_event t) = record v {
    ctl = handle_baresip_event lib cfg order t now ev v.ctl;
  }
  on_signal now ev v register_ok = mark_registered v
  on_signal now ev v logged_only = v

  -- An event of Baresip, as its client delivers it.
  unfoldable pub handle_event : ℕ → BaresipEvent → S → S
  unfolding handle_baresip_event signal_of
  handle_event now e v = on_signal now (event_of e) v (signal_of e.type)

  -- `eventLoop` over what its `select` yields; false if it still waits.
  unfoldable pub event_loop : List Input → S → Bool × S
  unfolding handle_event
  event_loop [] v = (false, v)
  event_loop (done ∷ inputs) v = (true, v)
  event_loop (event none ∷ inputs) v = (true, v)
  event_loop (event (some (now, e)) ∷ inputs) v = event_loop inputs (handle_event now e v)
  event_loop (baresip_error none ∷ inputs) v = (true, v)
  event_loop (baresip_error (some u) ∷ inputs) v = event_loop inputs v

-- ===== src/Controller/Reach.antt =====
-- The controller from its start on: what can come to it in any order, and what then holds of its calls.
use dia.Prelude.{
  ℕ, ◌≡◌, refl, Bool, List, [], ◌∷◌, Option, some, Bytes, get_elem?, Bool-cases, is_empty, inl, inr,
}
use dia.CallManager.{Entries, CallSession, CallManager, cleanup}
use dia.CallManager.Registry.{get_all_sessions}
use dia.CallManager.Sound.{IsSound, modify-IsSound, new_call_manager-IsSound}
use dia.Baresip.{BaresipEvent}
use dia.PeerCache.{trim_space, PeerSessionCache}
use dia.Controller.State.{Dia, Config, Act}
use dia.Controller.Moves.{Move}
use dia.Controller.Events.{Ctl, Dialed, Event, load, put}
use dia.Controller.Handlers.{begin_outgoing, finish_outgoing, trigger_oda_for_call}
use dia.Controller.Registry.{put-IsSound}
use dia.Controller.Serve.{
  Move-SameIds, handle_baresip_event-IsSound, begin_outgoing-IsSound, finish_outgoing-IsSound,
  trigger_oda_for_call-IsSound,
}
use dia.Controller.Service.{
  Service, Signal, call_event, register_ok, logged_only, signal_of, event_of, new_service,
  hangup_call, cleanup_all, stop, on_signal, handle_event,
}

module _ (lib : Dia) (cfg : Config) (order : Entries ℕ → Entries ℕ) where
  abbrev pub with_ctl : Service lib.D → Ctl lib.D → Service lib.D
  with_ctl v c = record v { ctl = c }

  -- An event of Baresip, a call of a user, its reply, a handler on any session that was ever made
  -- (also one that is dropped, which a goroutine may still hold), or the end.
  pub data Step : Service lib.D → Service lib.D → Type 0 where
    event :
        (now : ℕ) (e : BaresipEvent) (v : Service lib.D)
        → Step v (handle_event lib cfg order now e v)
    dials :
        (number : Bytes) (protocol : Bool) (v : Service lib.D)
        → Step v (with_ctl v (begin_outgoing lib cfg order number protocol v.ctl).1)
    dialed :
        (reply : Dialed) (r : ℕ) (v : Service lib.D)
        → Step v (with_ctl v (finish_outgoing lib cfg order reply r v.ctl))
    asks_oda :
        (call_id : Bytes) (attributes : List Bytes) (v : Service lib.D)
        → Step v (with_ctl v (trigger_oda_for_call lib cfg order call_id attributes v.ctl).1)
    works :
        (r : ℕ) (s : CallSession lib.D) (b : Act lib.D) (v : Service lib.D)
        → get_elem? v.ctl.calls.sessions r ≡ some s
        → Move lib cfg (load s v.ctl) b
        → Step v (with_ctl v (put r b v.ctl))
    hangs_up : (call_id : Bytes) (v : Service lib.D) → Step v (hangup_call call_id v).1
    stops : (v : Service lib.D) → Step v (stop order v)

  pub data Serves : Service lib.D → Type 0 where
    new : (cache : Option PeerSessionCache) → Serves (new_service cache)
    next : {v w : Service lib.D} → Serves v → Step v w → Serves w

  cleanup_all-IsSound :
      (rs : List ℕ) (m : CallManager lib.D) → IsSound m → IsSound (cleanup_all rs m)
  unfolding cleanup_all cleanup
  cleanup_all-IsSound [] m h = h
  cleanup_all-IsSound (r ∷ rs) m h =
      cleanup_all-IsSound rs _ (modify-IsSound r cleanup m (λ s e. (refl, refl, refl, refl)) h)

  on_signal-IsSound :
      (now : ℕ) (ev : Event) (v : Service lib.D) (g : Signal)
      → IsSound v.ctl.calls
      → IsSound (on_signal lib cfg order now ev v g).ctl.calls
  on_signal-IsSound now ev v (call_event t) h =
      handle_baresip_event-IsSound lib cfg order t now ev v.ctl h
  on_signal-IsSound now ev v register_ok h = h
  on_signal-IsSound now ev v logged_only h = h

  hangup_call-IsSound :
      (call_id : Bytes) (v : Service lib.D)
      → IsSound v.ctl.calls
      → IsSound (hangup_call call_id v).1.ctl.calls
  unfolding hangup_call
  hangup_call-IsSound call_id v h = elim (Bool-cases (is_empty (trim_space call_id))) [
    | inl e ↦ rw e h
    | inr e ↦ rw e h
  ]

  Step-IsSound : (v w : Service lib.D) → Step v w → IsSound v.ctl.calls → IsSound w.ctl.calls
  unfolding handle_event stop
  Step-IsSound v _ (event now e _) h = on_signal-IsSound now (event_of e) v (signal_of e.type) h
  Step-IsSound v _ (dials number protocol _) h =
      begin_outgoing-IsSound lib cfg order number protocol v.ctl h
  Step-IsSound v _ (dialed reply r _) h = finish_outgoing-IsSound lib cfg order reply r v.ctl h
  Step-IsSound v _ (asks_oda call_id attributes _) h =
      trigger_oda_for_call-IsSound lib cfg order call_id attributes v.ctl h
  Step-IsSound v _ (works r s b _ e m) h =
      put-IsSound r s b v.ctl h e (Move-SameIds lib cfg order (load s v.ctl) b m)
  Step-IsSound v _ (hangs_up call_id _) h = hangup_call-IsSound call_id v h
  Step-IsSound v _ (stops _) h =
      cleanup_all-IsSound (get_all_sessions order v.ctl.calls) v.ctl.calls h

  -- Whatever events, dials, replies, requests for ODA and handlers come to the controller, in whatever
  -- order, its maps agree with its sessions: an attempt id leads to the session that has it, and so
  -- does a call-id, which is never empty; the attempts that wait for a peer are outgoing calls to it
  -- with no call-id yet, each there once.
  pub Serves-IsSound : (v : Service lib.D) → Serves v → IsSound v.ctl.calls
  unfolding new_service
  Serves-IsSound v (new cache) = new_call_manager-IsSound
  Serves-IsSound w (next {v = v} l m) = Step-IsSound v w m (Serves-IsSound v l)

-- ===== src/Baresip/Sound.antt =====
-- The operations of the Baresip client keep its invariant.
use dia.Prelude.{
  ℕ, ◌≡◌, refl, sym, subst, ◌∙◌, inl, inr, Bool, true, false, not, List, [], ◌∷◌, ◌++◌, Option,
  none, some, arith, Bytes, codes, str_eq, str_eq_iff, is_empty, ltb, if◌then◌else◌, length,
  length-append, get_elem?, get_elem?-append, get_elem?-append_left, All-append, All-get_elem?,
  Bool-cases,
}
use dia.CallManager.{lookup, delete}
use dia.CallManager.Maps.{lookup-store}
use dia.Baresip.{
  listed, BaresipEvent, BaresipResponse, Json, Outcome, replied, Call, BaresipClient, event_cap,
  response_cap, give_up, next_token, hand_over, route_to, on_response, on_event, as_event,
  as_response, by_keys, on_frame, registered, begin_command, write_command, take_reply,
}
use dia.Baresip.Pending.{
  OwnOutcome, OwnChannel, Own, Awaits, IsSound, some_eq, deleted_others, replied_others,
  changed-IsSound,
}

module _ (c : BaresipClient) (s : IsSound c) (r : ℕ) (call : Call)
    (at : get_elem? c.calls r ≡ some call) where
  Own-call : Own call
  Own-call = All-get_elem? Own c.calls r call s.own at

  pub give_up-IsSound :
      (o : Outcome) → OwnOutcome call.token (some o) → IsSound (give_up r o call c)
  unfolding give_up
  give_up-IsSound o fits =
      changed-IsSound c s r call (record call { outcome = some o }) at
        (delete call.token c.pending_cmds) (deleted_others c s r call call at) (Own-call.0, fits)

  pub write_command-IsSound : (text : Bytes) (ok : Bool) → IsSound (write_command r call text ok c)
  unfolding write_command
  write_command-IsSound text true = record {
    awaits = s.awaits;
    own = s.own;
    few_events = s.few_events;
    few_responses = s.few_responses;
  }
  write_command-IsSound text false = give_up-IsSound Outcome.send_failed tt

  pub take_reply-IsSound :
      (resp : BaresipResponse) → call.channel ≡ resp ∷ [] → IsSound (take_reply r call resp c)
  unfolding take_reply
  take_reply-IsSound resp full =
      changed-IsSound c s r call (record call { channel = []; outcome = some (replied resp) }) at
        c.pending_cmds (replied_others c s r call call at resp [] full)
        (tt, subst (OwnChannel call.token) full Own-call.0)

-- The reply finds its channel empty, so that the lock is not held for long.
abbrev pub SoundOrStuck : Option BaresipClient → Type 0
SoundOrStuck none = ⊥
SoundOrStuck (some c) = IsSound c

module _ (c : BaresipClient) (s : IsSound c) where
  hand_over-IsSound :
      (r : ℕ) (resp : BaresipResponse) (call : Call)
      → get_elem? c.calls r ≡ some call
      → call.token ≡ resp.token
      → call.channel ≡ []
      → SoundOrStuck (hand_over r resp c (some call))
  unfolding hand_over
  hand_over-IsSound r resp call at same free = rw free (
      changed-IsSound c s r call (record call { channel = resp ∷ [] }) at
        (delete resp.token c.pending_cmds) (rw (← same) (deleted_others c s r call call at))
        (sym same, (All-get_elem? Own c.calls r call s.own at).1))

  route_to-IsSound :
      (resp : BaresipResponse) (found : Option ℕ)
      → lookup resp.token c.pending_cmds ≡ found
      → SoundOrStuck (route_to resp c found)
  unfolding route_to
  route_to-IsSound resp none e = s
  route_to-IsSound resp (some r) e =
      let (call, at, same, free) = s.awaits resp.token r e in
      rw at (hand_over-IsSound r resp call at same free)

  pub on_response-IsSound : (resp : BaresipResponse) → SoundOrStuck (on_response resp c)
  unfolding on_response
  on_response-IsSound resp = elim (Bool-cases (not (is_empty resp.token))) [
    | inl named ↦ rw named (route_to-IsSound resp _ refl)
    | inr bare ↦ rw bare (elim (Bool-cases (ltb (length c.response_chan) response_cap)) [
      | inl room ↦ rw room (record {
        awaits = s.awaits;
        own = s.own;
        few_events = s.few_events;
        few_responses = ground (arith, length-append c.response_chan (resp ∷ []));
      })
      | inr full ↦ rw full s
    ])
  ]

  pub on_event-IsSound : (e : BaresipEvent) → IsSound (on_event e c)
  unfolding on_event
  on_event-IsSound e = elim (Bool-cases (ltb (length c.event_chan) event_cap)) [
    | inl room ↦ rw room (record {
      awaits = s.awaits;
      own = s.own;
      few_events = ground (arith, length-append c.event_chan (e ∷ []));
      few_responses = s.few_responses;
    })
    | inr full ↦ rw full s
  ]

  module _ (json : Json) where
    choose :
        (b : Bool) (x y : Option BaresipClient)
        → SoundOrStuck x
        → SoundOrStuck y
        → SoundOrStuck (if b then x else y)
    choose true x y p q = p
    choose false x y p q = q

    as_event-IsSound : (e : Option BaresipEvent) → SoundOrStuck (as_event json c e)
    unfolding as_event
    as_event-IsSound none = s
    as_event-IsSound (some e) = on_event-IsSound e

    as_response-IsSound : (resp : Option BaresipResponse) → SoundOrStuck (as_response json c resp)
    unfolding as_response
    as_response-IsSound none = s
    as_response-IsSound (some resp) = on_response-IsSound resp

    by_keys-IsSound :
        (text : Bytes) (keys : Option (List Bytes)) → SoundOrStuck (by_keys json text c keys)
    unfolding by_keys
    by_keys-IsSound text none = s
    by_keys-IsSound text (some keys) =
        choose (listed (codes "event") keys) _ _ (as_event-IsSound (json.read_event text)) (
          choose (listed (codes "response") keys) _ _
            (as_response-IsSound (json.read_response text)) s)

    pub on_frame-IsSound : (text : Bytes) → SoundOrStuck (on_frame json text c)
    unfolding on_frame
    on_frame-IsSound text = by_keys-IsSound text (json.keys text)

    registered-IsSound :
        (token : Bytes) (text : Option Bytes) → IsSound (registered json token c text).1
    unfolding registered
    registered-IsSound token none = record {
      awaits = s.awaits;
      own = s.own;
      few_events = s.few_events;
      few_responses = s.few_responses;
    }
    registered-IsSound token (some text) = record {
      awaits = λ t i e.
          stored t i (str_eq token t) refl
            (sym (lookup-store token t (length c.calls) c.pending_cmds) ∙ e);
      own = All-append Own c.calls (new_call ∷ []) s.own ((tt, tt), tt);
      few_events = s.few_events;
      few_responses = s.few_responses;
    }
      where
        new_call : Call
        new_call = record { token = token; channel = []; outcome = none }

        stored :
            (t : Bytes) (i : ℕ) (b : Bool)
            → str_eq token t ≡ b
            → (if b then some (length c.calls) else lookup t c.pending_cmds) ≡ some i
            → Awaits (c.calls ++ new_call ∷ []) t i
        stored t i true same e = (
          new_call,
          rw (some_eq (some i) refl (sym e)) (get_elem?-append c.calls new_call []),
          (str_eq_iff token t).0 same,
          refl,
        )
        stored t i false differ e =
            let (d, found, same, free) = s.awaits t i e in
            (d, get_elem?-append_left c.calls (new_call ∷ []) i d found, same, free)

    pub begin_command-IsSound :
        (command params : Bytes) → IsSound (begin_command json command params c).1
    unfolding begin_command
    begin_command-IsSound command params = registered-IsSound (next_token c) _

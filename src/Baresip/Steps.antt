-- ===== src/Baresip/Steps.antt =====
-- The moves of the Baresip client: calls of `sendCommandCore`, the read loop, those who take events,
-- and closing. Their sequences are the interleavings of its goroutines.
use dia.Prelude.{
  ℕ, ◌≡◌, refl, ap, subst, ◌≢◌, ◌∙◌, inl, inr, Bool, true, false, List, [], ◌∷◌, Option, none, some,
  arith, Bytes, is_empty, Bool-cases, ◌==◌, ==_iff, ◌⊎◌, str_eq_refl, get_elem?-set_other, length,
  get_elem?, get_elem?-set_self, All-get_elem?,
}
use dia.CallManager.{lookup}
use dia.CallManager.Maps.{lookup-delete}
use dia.Baresip.{
  BaresipEvent, BaresipResponse, Json, replied, timed_out, connection_closed, Call, BaresipClient,
  new_baresip_client, give_up, route_to, on_response, on_frame, begin_command, write_command,
  take_reply, on_read_error, close,
}
use dia.Baresip.Pending.{IsSound, Own, OwnOutcome, new_baresip_client-IsSound}
use dia.Baresip.Sound.{
  SoundOrStuck, give_up-IsSound, write_command-IsSound, take_reply-IsSound, on_frame-IsSound,
  begin_command-IsSound,
}

-- No command waits, and nothing changes; or the reply is in the channel of the one that waits, which
-- waits no more, and the other calls are as they were.
abbrev pub Routed : BaresipClient → BaresipResponse → Option ℕ → Option BaresipClient → Type 0
Routed c resp none m = m ≡ some c
Routed c resp (some r) none = ⊥
Routed c resp (some r) (some c') =
    (call : Call) × (get_elem? c.calls r ≡ some call)
    × (call.token ≡ resp.token)
    × (get_elem? c'.calls r ≡ some (record call { channel = resp ∷ [] }))
    × (lookup resp.token c'.pending_cmds ≡ none)
    × ((i : ℕ) → (i ≡ r) ⊎ (get_elem? c'.calls i ≡ get_elem? c.calls i))

module _ (json : Json) where
  pub data Step (c : BaresipClient) : BaresipClient → Type 0 where
    begins : (command params : Bytes) → Step c (begin_command json command params c).1
    writes :
        (r : ℕ) (call : Call) (text : Bytes) (ok : Bool)
        → get_elem? c.calls r ≡ some call
        → call.outcome ≡ none
        → Step c (write_command r call text ok c)
    takes :
        (r : ℕ) (call : Call) (resp : BaresipResponse)
        → get_elem? c.calls r ≡ some call
        → call.outcome ≡ none
        → call.channel ≡ resp ∷ []
        → Step c (take_reply r call resp c)
    times_out :
        (r : ℕ) (call : Call)
        → get_elem? c.calls r ≡ some call
        → call.outcome ≡ none
        → Step c (give_up r timed_out call c)
    sees_close :
        (r : ℕ) (call : Call)
        → get_elem? c.calls r ≡ some call
        → call.outcome ≡ none
        → c.closed ≡ true
        → Step c (give_up r connection_closed call c)
    reads :
        (text : Bytes) (c' : BaresipClient)
        → c.reading ≡ true
        → on_frame json text c ≡ some c'
        → Step c c'
    fails : c.reading ≡ true → Step c (on_read_error c)
    hears :
        (e : BaresipEvent) (es : List BaresipEvent)
        → c.event_chan ≡ e ∷ es
        → Step c (record c { event_chan = es })
    closes : Step c (close c)

  pub data Reach : BaresipClient → Type 0 where
    start : Reach new_baresip_client
    after : {c c' : BaresipClient} → Reach c → Step c c' → Reach c'

  Step-IsSound : {c c' : BaresipClient} → IsSound c → Step c c' → IsSound c'
  unfolding on_read_error close
  Step-IsSound s (begins command params) = begin_command-IsSound _ s json command params
  Step-IsSound s (writes r call text ok at waits) = write_command-IsSound _ s r call at text ok
  Step-IsSound s (takes r call resp at waits full) = take_reply-IsSound _ s r call at resp full
  Step-IsSound s (times_out r call at waits) = give_up-IsSound _ s r call at timed_out tt
  Step-IsSound s (sees_close r call at waits closed) =
      give_up-IsSound _ s r call at connection_closed tt
  Step-IsSound {c = c} s (reads text c' on e) =
      subst SoundOrStuck e (on_frame-IsSound c s json text)
  Step-IsSound s (fails on) = record {
    awaits = s.awaits;
    own = s.own;
    few_events = s.few_events;
    few_responses = s.few_responses;
  }
  Step-IsSound s (hears e es full) = record {
    awaits = s.awaits;
    own = s.own;
    few_events = let few = s.few_events in omega (arith, ap (λ l. length l) full);
    few_responses = s.few_responses;
  }
  Step-IsSound s closes = record {
    awaits = s.awaits;
    own = s.own;
    few_events = s.few_events;
    few_responses = s.few_responses;
  }

  Reach-IsSound : {c : BaresipClient} → Reach c → IsSound c
  Reach-IsSound start = new_baresip_client-IsSound
  Reach-IsSound (after reach step) = Step-IsSound (Reach-IsSound reach) step

  -- Whatever the goroutines did before, the read loop gets over every frame that Baresip sends: no
  -- reply finds its command's channel full while the lock of the map is held.
  pub Reach-reads :
      {c : BaresipClient}
      → Reach c
      → (text : Bytes) → (c' : BaresipClient) × (on_frame json text c ≡ some c')
  Reach-reads {c = c} reach text =
      read_on (on_frame json text c) (on_frame-IsSound c (Reach-IsSound reach) json text)
    where
      read_on : (m : Option BaresipClient) → SoundOrStuck m → (c' : BaresipClient) × (m ≡ some c')
      read_on none h = absurd h
      read_on (some c') h = (c', refl)

  -- Whatever the interleaving, a command returns no reply but one with its own token.
  pub Reach-replies_own :
      {c : BaresipClient}
      → Reach c
      → (r : ℕ) (call : Call) (resp : BaresipResponse) → get_elem? c.calls r ≡ some call
      → call.outcome ≡ some (replied resp)
      → resp.token ≡ call.token
  Reach-replies_own {c = c} reach r call resp at done =
      let s = Reach-IsSound reach in
      subst (OwnOutcome call.token) done (All-get_elem? Own c.calls r call s.own at).1

  -- A reply with a token goes to the command that waits under it; if none does, because it was answered
  -- or has given up, nothing changes.
  pub on_response-Routed :
      {c : BaresipClient}
      → Reach c
      → (resp : BaresipResponse) → is_empty resp.token ≡ false
      → Routed c resp (lookup resp.token c.pending_cmds) (on_response resp c)
  unfolding on_response
  on_response-Routed {c = c} reach resp named = rw named (routed _ refl)
    where
      differ : (i r : ℕ) → (i ≡ r) ⊎ (r ≢ i)
      differ i r = elim (Bool-cases (i == r)) [
        | inl same ↦ inl ((==_iff i r).0 same)
        | inr other ↦ inr (λ e. absurd (ground arith))
      ]

      routed :
          (found : Option ℕ)
          → lookup resp.token c.pending_cmds ≡ found
          → Routed c resp found (route_to resp c found)
      routed none e = refl
      routed (some r) e =
          let (call, at, same, free) = (Reach-IsSound reach).awaits resp.token r e in
          rw (at, free)
            (
              call,
              at,
              same,
              get_elem?-set_self c.calls r _ call at,
              lookup-delete resp.token resp.token c.pending_cmds ∙ rw (str_eq_refl resp.token) refl,
              λ i. elim (differ i r) [
                | inl q ↦ inl q
                | inr ne ↦ inr (get_elem?-set_other c.calls r i _ ne)
              ],
            )

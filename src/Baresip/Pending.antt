-- ===== src/Baresip/Pending.antt =====
-- The invariant of the Baresip client, and a change of one of its calls.
use dia.Prelude.{
  ℕ, ◌≤◌, ◌≡◌, ◌≢◌, sym, ap, ◌∙◌, false, List, [], ◌∷◌, Option, none, some, arith, Bytes, str_eq,
  str_eq_refl, length, get_elem?, get_elem?-set_other, set, All, All-set,
}
use dia.CallManager.{Entries, lookup, delete}
use dia.CallManager.Maps.{lookup-delete}
use dia.Baresip.{
  BaresipResponse, Outcome, replied, Call, BaresipClient, event_cap, response_cap,
  new_baresip_client,
}

abbrev pub OwnOutcome : Bytes → Option Outcome → Type 0
OwnOutcome token (some (replied resp)) = resp.token ≡ token
OwnOutcome token _ = Unit

abbrev pub OwnChannel : Bytes → List BaresipResponse → Type 0
OwnChannel token [] = Unit
OwnChannel token (resp ∷ []) = resp.token ≡ token
OwnChannel token (resp ∷ more ∷ rest) = ⊥

-- A call has at most one reply, with its own token.
abbrev pub Own : Call → Type 0
Own call = OwnChannel call.token call.channel × OwnOutcome call.token call.outcome

-- A pending token is that of a call whose channel is empty.
abbrev pub Awaits : List Call → Bytes → ℕ → Type 0
Awaits calls token r =
    (call : Call) × (get_elem? calls r ≡ some call) × (call.token ≡ token) × (call.channel ≡ [])

pub record IsSound (c : BaresipClient) : Type 0 where
  pub awaits :
      (token : Bytes) (r : ℕ) → lookup token c.pending_cmds ≡ some r → Awaits c.calls token r
  pub own : All Own c.calls
  pub few_events : length c.event_chan ≤ event_cap
  pub few_responses : length c.response_chan ≤ response_cap

pub new_baresip_client-IsSound : IsSound new_baresip_client
unfolding new_baresip_client lookup
new_baresip_client-IsSound = record {
  awaits = λ token r e. absurd (no_entry r e);
  own = tt;
  few_events = omega arith;
  few_responses = omega arith;
}
  where
    no_entry : (r : ℕ) → ◌≡◌ {A = Option ℕ} none (some r) → ⊥
    no_entry r e = cc

-- A pending entry of another token.
lookup-delete-some :
    (k j : Bytes) (m : Entries ℕ) (r : ℕ)
    → lookup j (delete k m) ≡ some r
    → (str_eq k j ≡ false) × (lookup j m ≡ some r)
lookup-delete-some k j m r e = ground (arith, lookup-delete k j m)

pub some_eq {ℓ} : {A : Type ℓ} {x y : A} (o : Option A) → o ≡ some x → o ≡ some y → x ≡ y
some_eq none p q = cc
some_eq (some z) p q = cc

module _ (c : BaresipClient) (s : IsSound c) (r : ℕ) (call call' : Call)
    (at : get_elem? c.calls r ≡ some call) where
  -- The calls that still wait are others than the one that changes.
  others_wait :
      (pending : Entries ℕ)
      → ((token : Bytes) (i : ℕ)
          → lookup token pending ≡ some i
          → (lookup token c.pending_cmds ≡ some i) × (i ≢ r))
      → (token : Bytes) (i : ℕ) → lookup token pending ≡ some i
      → Awaits (set c.calls r call') token i
  others_wait pending kept token i e =
      let (old, other) = kept token i e in
      let (d, found, same, free) = s.awaits token i old in
      (d, get_elem?-set_other c.calls r i call' (λ q. other (sym q)) ∙ found, same, free)

  -- Without its token, a call waits no more.
  pub deleted_others :
      (token : Bytes) (i : ℕ)
      → lookup token (delete call.token c.pending_cmds) ≡ some i
      → (lookup token c.pending_cmds ≡ some i) × (i ≢ r)
  deleted_others token i e =
      let (differ, old) = lookup-delete-some call.token token c.pending_cmds i e in
      let (d, found, same, free) = s.awaits token i old in
      (old, λ q. not_same token d differ same (some_eq (get_elem? c.calls r) at (rw (← q) found)))
    where
      not_same :
          (token : Bytes) (d : Call)
          → str_eq call.token token ≡ false
          → d.token ≡ token
          → call ≡ d
          → ⊥
      not_same token d differ same e =
          cc (str_eq_refl token, ap (λ x. str_eq x token) (ap (λ (x : Call). x.token) e ∙ same))

  -- Nor does one whose channel has a reply.
  pub replied_others :
      (resp : BaresipResponse) (rest : List BaresipResponse)
      → call.channel ≡ resp ∷ rest
      → (token : Bytes) (i : ℕ) → lookup token c.pending_cmds ≡ some i
      → (lookup token c.pending_cmds ≡ some i) × (i ≢ r)
  replied_others resp rest full token i e =
      let (d, found, same, free) = s.awaits token i e in
      (e, λ q. not_same d free (some_eq (get_elem? c.calls r) at (rw (← q) found)))
    where
      not_same : (d : Call) → d.channel ≡ [] → call ≡ d → ⊥
      not_same d free e = cc (ap (λ (x : Call). x.channel) e)

  pub changed-IsSound :
      (pending : Entries ℕ)
      → ((token : Bytes) (i : ℕ)
          → lookup token pending ≡ some i
          → (lookup token c.pending_cmds ≡ some i) × (i ≢ r))
      → Own call'
      → IsSound (record c { pending_cmds = pending; calls = set c.calls r call' })
  changed-IsSound pending kept own = record {
    awaits = others_wait pending kept;
    own = All-set Own c.calls r call' s.own own;
    few_events = s.few_events;
    few_responses = s.few_responses;
  }

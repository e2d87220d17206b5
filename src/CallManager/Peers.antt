-- ===== src/CallManager/Peers.antt =====
-- The search for an active session of a peer, whatever the order in which the map is walked.
use mathlib.Core.List.{Mem, Perm, mem-cons, mem-cons_self, mem-cons_of_mem, not-mem-nil}
use mathlib.Core.HLevel.{⊥_prop}
use mathlib.Core.Logic.Or
use mathlib.Core.List.Perm
use dia.Prelude.{
  refl, ◌≢◌, ◌⊎◌, Bool, true, false, not, ◌&&◌, str_eq, str_eq_iff, str_eq_refl, ℕ, ◌≡◌, sym, ap,
  ◌∙◌, inl, inr, true, [], ◌∷◌, Option, none, some, arith, Bytes, Bool-cases, Option-cases,
  get_elem?,
}
use mathlib.Core.Bool.{false≢true}
use dia.CallManager.{
  Entries, CallSession, CallState, is_closed, CallManager, matches, first_active,
  get_active_session_by_peer,
}

module _ {D : Type 0} (phone : Bytes) (m : CallManager D) where
  -- The session that a pointer leads to belongs to the peer and is not closed.
  abbrev pub IsActive : ℕ → Type 0
  IsActive r =
      (s : CallSession D) × (get_elem? m.sessions r ≡ some s)
      × (s.peer_phone ≡ phone)
      × (s.state ≢ CallState.closed)

  is_closed-closed : (s : CallSession D) → s.state ≡ CallState.closed → is_closed s ≡ true
  is_closed-closed s e = rw e refl

  pub matches-IsActive : (r : ℕ) → matches phone (get_elem? m.sessions r) ≡ true → IsActive r
  unfolding matches
  matches-IsActive r e = elim (Option-cases (get_elem? m.sessions r)) [
    | inl n ↦ ground arith
    | inr (s, at) ↦
        let hit : (str_eq s.peer_phone phone && not (is_closed s)) ≡ true =
          ap (matches phone) (sym at) ∙ e in
        (
          s,
          at,
          (str_eq_iff s.peer_phone phone).0 (ground arith),
          λ c. ground (arith, is_closed-closed s c),
        )
  ]

  state_cases :
      (st : CallState)
      → (st ≡ CallState.closed)
        ⊎ ((elim st as (λ x. Bool) [ CallState.closed ↦ true | _ ↦ false ]) ≡ false)
  state_cases CallState.closed = inl refl
  state_cases _ = inr refl

  IsActive-matches : (r : ℕ) → IsActive r → matches phone (get_elem? m.sessions r) ≡ true
  unfolding matches
  IsActive-matches r (s, at, same, running) = elim (state_cases s.state) [
    | inl c ↦ absurd (running c)
    | inr o ↦ rw at (rw (same, o) (ground (arith, str_eq_refl phone)))
  ]

  first_active-some :
      (es : Entries ℕ) (r : ℕ)
      → first_active phone m es ≡ some r
      → IsActive r × ((k : Bytes) × Mem (k, r) es)
  unfolding first_active
  first_active-some [] r e = cc
  first_active-some ((k, x) ∷ es) r e = elim (Bool-cases (matches phone (get_elem? m.sessions x))) [
    | inl hit ↦
        let same : x ≡ r = ground arith in
        (matches-IsActive r (rw (← same) hit), (k, rw (← same) mem-cons_self))
    | inr miss ↦
        let (a, (j, i)) = first_active-some es r (ground arith) in (a, (j, mem-cons_of_mem _ i))
  ]

  first_active-none :
      (es : Entries ℕ) (k : Bytes) (r : ℕ)
      → first_active phone m es ≡ none
      → Mem (k, r) es
      → ¬ IsActive r
  unfolding first_active
  first_active-none [] k r e i a = not-mem-nil i
  first_active-none ((j, x) ∷ es) k r e i a =
      elim (Bool-cases (matches phone (get_elem? m.sessions x))) [
        | inl hit ↦ ground arith
        | inr miss ↦
            Or.elim ⊥_prop (mem-cons.0 i)
              (λ here. false≢true (
                sym miss
                ∙ ap (λ (p : Bytes × ℕ). matches phone (get_elem? m.sessions p.1)) (sym here)
                ∙ IsActive-matches r a))
              (λ later. first_active-none es k r (ground arith) later a)
      ]

  -- What the search of the peer's sessions answers.
  abbrev pub Answers : Option ℕ → Type 0
  Answers (some r) = IsActive r × ((k : Bytes) × Mem (k, r) m.by_attempt)
  Answers none = (k : Bytes) (r : ℕ) → Mem (k, r) m.by_attempt → ¬ IsActive r

  -- In whatever order Go walks the map, the search finds a registered session of the peer that is
  -- not closed, or there is none.
  pub get_active_session_by_peer-Answers :
      (order : Entries ℕ → Entries ℕ)
      → ((es : Entries ℕ) → Perm (order es) es)
      → Answers (get_active_session_by_peer order phone m)
  unfolding get_active_session_by_peer
  get_active_session_by_peer-Answers order perm =
      elim (Option-cases (first_active phone m (order m.by_attempt))) [
        | inl e ↦ rw e (λ k r i.
            first_active-none (order m.by_attempt) k r e ((Perm.mem_iff (perm m.by_attempt)).1 i))
        | inr (r, e) ↦
            let (a, (k, i)) = first_active-some (order m.by_attempt) r e in
            rw e (a, (k, (Perm.mem_iff (perm m.by_attempt)).0 i))
      ]

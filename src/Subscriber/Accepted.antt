-- ===== src/Subscriber/Accepted.antt =====
-- What the client queues, the relay server's MAC check accepts.
use dia.Prelude.{
  ℕ, zero, suc, ◌≤◌, ◌<◌, ◌≡◌, refl, ap, ◌∙◌, inl, inr, true, false, [], ◌∷◌, ◌++◌, none, some, ltb,
  lt→ltb, arith, Bytes, is_empty, if◌then◌else◌, Bool-cases, Option-cases, length, take, drop,
  length-append,
}
use dia.Wire.{RelayRequest, publish_type, subscribe_type, mac_data, MacLib}
use dia.Relay.Server.{World}
use dia.Relay.Tunnel.{refusal}
use dia.Subscriber.{
  Session, Sent, queued, build_mac_ticket, with_ticket, send, subscribe_to_new_topic,
}

-- What libdia documents of a token that was issued under the server's key: a MAC made with it has 32
-- bytes and verifies under that key, with the token's first 32 bytes as the preimage.
pub record IsIssued (lib : MacLib) (key token : Bytes) : Type 0 where
  pub mac_length : (d mac : Bytes) → lib.create_message_mac token d ≡ some mac → length mac ≡ 32
  pub verifies :
      (d mac : Bytes)
      → lib.create_message_mac token d ≡ some mac
      → lib.verify_message_mac key (take 32 token) d mac ≡ some true

length-take : (n : ℕ) (s : Bytes) → n ≤ length s → length (take n s) ≡ n
length-take zero s h = refl
length-take (suc n) [] h = absurd (omega arith)
length-take (suc n) (c ∷ s) h = omega (arith, length-take n s (omega arith))

cut_at :
    (n : ℕ) (xs ys : Bytes) → length xs ≡ n → (take n (xs ++ ys) ≡ xs) × (drop n (xs ++ ys) ≡ ys)
cut_at zero [] ys e = (refl, refl)
cut_at zero (x ∷ xs) ys e = absurd (omega arith)
cut_at (suc n) [] ys e = absurd (omega arith)
cut_at (suc n) (x ∷ xs) ys e = let (t, d) = cut_at n xs ys (omega arith) in (ap (◌∷◌ x) t, d)

module _ (w : World) where
  refusal_of :
      (req : RelayRequest) (preimage mac : Bytes)
      → req.ticket ≡ preimage ++ mac
      → length preimage ≡ 32
      → length mac ≡ 32
      → w.mac.verify_message_mac w.at_private_key preimage
          (mac_data req.type req.topic req.payload)
          mac
        ≡ some true
      → refusal w req ≡ none
  unfolding refusal
  refusal_of req preimage mac t p m ok =
      let (pre, post) = cut_at 32 preimage mac p in
      ground (
        arith,
        ap (take 32) t ∙ pre,
        ap (drop 32) t ∙ post,
        ap length t ∙ length-append preimage mac,
      )

  -- The token that `buildMacTicket` uses.
  abbrev pub token_of : Bytes → Session → Bytes
  token_of given s = if is_empty given then s.ticket else given

  pub build_mac_ticket-verifies :
      (type : ℕ) (topic payload given ticket : Bytes) (s : Session)
      → IsIssued w.mac w.at_private_key (token_of given s)
      → build_mac_ticket w.mac type topic payload given s ≡ some ticket
      → (req : RelayRequest) → req.ticket ≡ ticket
      → req.type ≡ type
      → req.topic ≡ topic
      → req.payload ≡ payload
      → refusal w req ≡ none
  unfolding build_mac_ticket
  build_mac_ticket-verifies type topic payload given ticket s iss b req e1 e2 e3 e4 =
      elim (Bool-cases (ltb (length (token_of given s)) 32)) [
        | inl short ↦ ground arith
        | inr long ↦
            elim (Option-cases
              (w.mac.create_message_mac (token_of given s) (mac_data type topic payload))) [
                | inl n ↦ ground arith
                | inr (mac, made) ↦
                    refusal_of req (take 32 (token_of given s)) mac (ground arith)
                      (length-take 32 (token_of given s) (ground arith)) (iss.mac_length _ mac made)
                      (rw (e2, e3, e4) (iss.verifies _ mac made))
              ]
      ]

  -- A request of the session.
  abbrev pub request : Session → ℕ → Bytes → Bytes → Bytes → RelayRequest
  request s type topic payload ticket = record {
    sender_id = s.sender_id;
    type = type;
    topic = topic;
    payload = payload;
    ticket = ticket;
  }

  -- The new state's queue is the old one with a request behind it that asks for this and that the
  -- server's check accepts.
  abbrev pub IsAccepted : Session → ℕ → Bytes → Bytes → Sent → Type 0
  IsAccepted s type topic payload (queued s') =
      (ticket : Bytes) × (s'.send_q ≡ s.send_q ++ request s type topic payload ticket ∷ [])
      × (refusal w (request s type topic payload ticket) ≡ none)
  IsAccepted s type topic payload _ = ⊥

  module _ (s : Session) (is_open : s.closed ≡ false) (room : length s.send_q < 256) where
    with_ticket-IsAccepted :
        (type : ℕ) (topic payload given ticket : Bytes)
        → IsIssued w.mac w.at_private_key (token_of given s)
        → build_mac_ticket w.mac type topic payload given s ≡ some ticket
        → IsAccepted s type topic payload (with_ticket type topic payload s (some ticket))
    unfolding with_ticket
    with_ticket-IsAccepted type topic payload given ticket iss b =
        let req = request s type topic payload ticket in
        rw (is_open, lt→ltb (length s.send_q) 256 room)
          (
            ticket,
            refl,
            build_mac_ticket-verifies type topic payload given ticket s iss b req refl refl refl
                refl,
          )

    -- On an open session with room in its queue and a token issued under the server's key, of which
    -- the MAC ticket can be built (it is long enough and libdia makes a MAC), `Send` of
    -- a payload queues one more request, to publish it on the session's topic, and that request
    -- passes the server's MAC check.
    pub send-IsAccepted :
        (payload ticket : Bytes)
        → is_empty payload ≡ false
        → IsIssued w.mac w.at_private_key (token_of s.ticket s)
        → build_mac_ticket w.mac publish_type s.topic payload s.ticket s ≡ some ticket
        → IsAccepted s publish_type s.topic payload (send w.mac payload s)
    unfolding send
    send-IsAccepted payload ticket p iss b =
        simp (is_open, p, b)
          (simp is_open at
            (with_ticket-IsAccepted publish_type s.topic payload s.ticket ticket iss b))

    -- On an open session with room in its queue, `SubscribeToNewTopicWithPayload`, with a topic that is
    -- not empty and a token, not empty, issued under the server's key, of which the MAC ticket can be
    -- built (the token is long enough and libdia makes a MAC), queues one more request, to subscribe to
    -- that topic with the payload, and that request passes the server's MAC check.
    pub subscribe_to_new_topic-IsAccepted :
        (topic payload given ticket : Bytes)
        → is_empty topic ≡ false
        → is_empty given ≡ false
        → IsIssued w.mac w.at_private_key (token_of given s)
        → build_mac_ticket w.mac subscribe_type topic payload given s ≡ some ticket
        → IsAccepted s subscribe_type topic payload
            (subscribe_to_new_topic w.mac topic payload given s)
    unfolding subscribe_to_new_topic with_ticket
    subscribe_to_new_topic-IsAccepted topic payload given ticket t g iss b =
        let req = request s subscribe_type topic payload ticket in
        simp (is_open, t, g, b, lt→ltb (length s.send_q) 256 room)
          (
            ticket,
            refl,
            build_mac_ticket-verifies subscribe_type topic payload given ticket s iss b req refl
                refl refl refl,
          )

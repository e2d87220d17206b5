-- ===== src/Callauth/Moves.antt =====
-- The command line client says goodbye once, and asks for ODA once.
use dia.Prelude.{
  ℕ, suc, ◌+◌, ◌≤◌, ◌≡◌, refl, ap, inl, inr, Bool, true, false, ◌||◌, Option, none, some, [], ◌∷◌,
  arith, Bytes, is_empty, if◌then◌else◌, length, length-append, Bool-cases, Option-cases,
}
use dia.Subscriber.{Sent, queued, refused, blocks, Immediate, written, by_queue, send_immediate}
use dia.Controller.State.{Dia}
use dia.Callauth.{
  AppConfig, Client, Roles, RuntimeState, stop, sent, set_runtime, maybe_schedule_oda, store_blob,
  bye_sent_by, bye_made, send_bye_then_stop, finish_rua,
}
use dia.Callauth.Messages.{handle_message, run_oda}
use dia.Callauth.Keep.{IsKept, Parts, Switches, handle_message-R, run_oda-R, either_way}

abbrev pub bit : Bool → ℕ
bit true = 1
bit false = 0

bit-le : (b : Bool) → bit b ≤ 1
bit-le true = omega arith
bit-le false = omega arith

-- What is said goodbye or asked anew has a flag that was not set before.
pub record Once {D : Type 0} (c c' : Client D) : Type 0 where
  pub goodbyes : length c'.byes + bit c.runtime.bye_sent ≤ length c.byes + bit c'.runtime.bye_sent
  pub requests :
      c'.oda_tasks + bit c.runtime.oda_triggered ≤ c.oda_tasks + bit c'.runtime.oda_triggered

module _ {D : Type 0} where
  Once-IsKept : IsKept {D = D} Once
  Once-IsKept = record {
    same = λ c. record { goodbyes = omega arith; requests = omega arith };
    after = λ a b c p q. record {
      goodbyes = (let x = p.goodbyes in let y = q.goodbyes in omega arith);
      requests = (let x = p.requests in let y = q.requests in omega arith);
    };
    dia = λ d c. record { goodbyes = omega arith; requests = omega arith };
  }

  sent-Once : (s : Sent) (c : Client D) → Once c (sent s c).1
  unfolding sent
  sent-Once (queued s) c = record { goodbyes = omega arith; requests = omega arith }
  sent-Once (refused why) c = record { goodbyes = omega arith; requests = omega arith }
  sent-Once (blocks s) c = record { goodbyes = omega arith; requests = omega arith }

  maybe_schedule_oda-Once : (cfg : AppConfig) (c : Client D) → Once c (maybe_schedule_oda cfg c)
  unfolding maybe_schedule_oda
  maybe_schedule_oda-Once cfg c = elim (Option-cases cfg.oda_delay_sec) [
    | inl off ↦ rw off (Once-IsKept.same c)
    | inr (n, on) ↦ rw on (elim (Bool-cases (is_empty cfg.oda_attrs || c.runtime.oda_triggered)) [
      | inl not_now ↦ rw not_now (Once-IsKept.same c)
      | inr now ↦ rw now (record { goodbyes = omega arith; requests = ground arith })
    ])
  ]

  store_blob-Once : (b : Option Bytes) (c : Client D) → Once c (store_blob b c)
  unfolding store_blob
  store_blob-Once none c = record { goodbyes = omega arith; requests = omega arith }
  store_blob-Once (some b) c =
      either_way Once Once-IsKept (is_empty b)
        (record { goodbyes = omega arith; requests = omega arith })
        (record { goodbyes = omega arith; requests = omega arith })

  -- One goodbye at most, and nothing else that counts.
  abbrev Parting : Client D → Client D → Type 0
  Parting d d' =
      (length d'.byes ≤ suc (length d.byes))
      × (d'.runtime ≡ d.runtime)
      × (d'.oda_tasks ≡ d.oda_tasks)

  bye_sent_by-Parting :
      (bye : Bytes) (i : Immediate) (d : Client D) → Parting d (bye_sent_by bye i d)
  unfolding bye_sent_by
  bye_sent_by-Parting bye (written req) d =
      (omega (arith, length-append d.byes (bye ∷ [])), refl, refl)
  bye_sent_by-Parting bye (by_queue (queued s)) d =
      (omega (arith, length-append d.byes (bye ∷ [])), refl, refl)
  bye_sent_by-Parting bye (by_queue (refused why)) d = (omega arith, refl, refl)
  bye_sent_by-Parting bye (by_queue (blocks s)) d = (omega arith, refl, refl)

module _ (lib : Dia) (roles : Roles lib.D) where
  bye_made-Parting : (o : Option Bytes) (d : Client lib.D) → Parting d (bye_made lib roles o d)
  unfolding bye_made
  bye_made-Parting none d = (omega arith, refl, refl)
  bye_made-Parting (some bye) d = bye_sent_by-Parting bye (send_immediate lib.mac bye d.session) d

  send_bye_then_stop-Once : (c : Client lib.D) → Once c (send_bye_then_stop lib roles c)
  unfolding send_bye_then_stop
  send_bye_then_stop-Once c = by_flag c.runtime.bye_sent refl
    where
      parting : Client lib.D
      parting = record c {
        runtime = record c.runtime { bye_sent = true };
        call_state = (lib.create_bye c.call_state).1;
      }

      by_flag :
          (b : Bool)
          → c.runtime.bye_sent ≡ b
          → Once c
              (if b then stop c else bye_made lib roles (lib.create_bye c.call_state).0 parting)
      by_flag true e = record { goodbyes = omega arith; requests = omega arith }
      by_flag false e =
          let (n, r, o) = bye_made-Parting (lib.create_bye c.call_state).0 parting in
          record {
            goodbyes = omega (arith, n, ap bit e, ap (λ (x : RuntimeState). bit x.bye_sent) r);
            requests = omega (arith, o, ap (λ (x : RuntimeState). bit x.oda_triggered) r);
          }

  finish_rua-Once : (cfg : AppConfig) (c : Client lib.D) → Once c (finish_rua lib roles cfg c)
  unfolding finish_rua
  finish_rua-Once cfg c =
      let scheduled = maybe_schedule_oda cfg c in
      let done = set_runtime (λ r. record r { rua_complete = true }) scheduled in
      let first =
        Once-IsKept.after c scheduled done (maybe_schedule_oda-Once cfg c)
          (record { goodbyes = omega arith; requests = omega arith }) in
      either_way Once Once-IsKept _
        (Once-IsKept.after c done _ first
          (store_blob-Once (lib.export_peer_session done.call_state) done))
        first

  module _ (cfg : AppConfig) where
    Once-Parts : Parts lib roles cfg Once
    Once-Parts = record {
      kept = Once-IsKept;
      sends = λ payload c. sent-Once _ c;
      rua = finish_rua-Once cfg;
      bye = send_bye_then_stop-Once;
      handled = λ c. record { goodbyes = omega arith; requests = omega arith };
      stops = λ c. record { goodbyes = omega arith; requests = omega arith };
    }

    Once-Switches : Switches lib roles cfg Once Once-IsKept
    Once-Switches = record {
      publishes = λ topic payload ticket c. sent-Once _ c;
      subscribes = λ topic payload ticket c. sent-Once _ c;
    }

    -- A message comes in, or a goroutine that was started asks for ODA.
    pub data Move (c : Client lib.D) : Client lib.D → Type 0 where
      receives : (raw : Bytes) → Move c (handle_message lib roles cfg raw c)
      asks : Move c (run_oda lib roles cfg c)

    pub data Moves (c : Client lib.D) : Client lib.D → Type 0 where
      none_yet : Moves c c
      later : {d e : Client lib.D} → Moves c d → Move d e → Moves c e

    Move-Once : (c d : Client lib.D) → Move c d → Once c d
    unfolding Once-Parts Once-IsKept
    Move-Once c _ (receives raw) =
        handle_message-R lib roles cfg Once Once-Parts raw c (inr Once-Switches)
    Move-Once c _ asks = run_oda-R lib roles cfg Once Once-Parts c

    Moves-Once : (c d : Client lib.D) → Moves c d → Once c d
    Moves-Once c _ none_yet = Once-IsKept.same c
    Moves-Once c e (later {d = d} before move) =
        Once-IsKept.after c d e (Moves-Once c d before) (Move-Once d e move)

    -- Whatever messages come and goroutines run, in whatever order: a client that has said no goodbye
    -- and asked for no ODA yet says goodbye at most once, and starts at most one request for ODA.
    pub Moves-part_once :
        (c d : Client lib.D)
        → c.byes ≡ []
        → c.oda_tasks ≡ 0
        → Moves c d
        → (length d.byes ≤ 1) × (d.oda_tasks ≤ 1)
    Moves-part_once c d e f m =
        let o = Moves-Once c d m in
        (
          (let g = o.goodbyes in
              omega (
                arith,
                ap (λ l. length l) e,
                bit-le c.runtime.bye_sent,
                bit-le d.runtime.bye_sent,
              )),
          (let r = o.requests in
              omega (arith, f, bit-le c.runtime.oda_triggered, bit-le d.runtime.oda_triggered)),
        )

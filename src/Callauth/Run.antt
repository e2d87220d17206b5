-- ===== src/Callauth/Run.antt =====
-- The command line client from its start on.
use dia.Prelude.{◌≤◌, ◌≡◌, refl, subst, Bool, true, false, Option, none, some, [], Bytes, length}
use dia.Subscriber
use dia.Subscriber.{Sent, queued, refused, blocks, send}
use dia.Controller.State.{Dia}
use dia.Controller.Protocol.{new_controller}
use dia.Callauth.{AppConfig, Client, Roles}
use dia.Callauth.Start.{
  Launch, Prepared, take, need, prepare, begin_client, on_sent, first_message, dialed, created,
  start,
}
use dia.Callauth.Moves.{Moves, Moves-part_once}

abbrev IsFresh : {D : Type 0} → Option (Client D) → Type 0
IsFresh none = Unit
IsFresh (some c) = (c.byes ≡ []) × (c.oda_tasks ≡ 0)

take-IsFresh :
    {D A : Type 0} (p : Option A × D) (k : A → D → Option (Client D))
    → ((x : A) (d : D) → IsFresh (k x d))
    → IsFresh (take p k)
take-IsFresh (none, d) k h = tt
take-IsFresh (some x, d) k h = h x d

need-IsFresh :
    {D : Type 0} (p : Bool × D) (k : D → Option (Client D))
    → ((d : D) → IsFresh (k d))
    → IsFresh (need p k)
need-IsFresh (true, d) k h = h d
need-IsFresh (false, d) k h = tt

module _ (lib : Dia) where
  on_sent-IsFresh : (hit : Bool) (d : lib.D) (s : Sent) → IsFresh (on_sent lib hit d s)
  unfolding on_sent begin_client
  on_sent-IsFresh hit d (queued s) = (refl, refl)
  on_sent-IsFresh hit d (refused why) = tt
  on_sent-IsFresh hit d (blocks s) = (refl, refl)

  first_message-IsFresh :
      (hit outgoing : Bool) (request : Bytes) (d : lib.D) (s : Subscriber.Session)
      → IsFresh (first_message lib hit outgoing request d s)
  unfolding first_message begin_client
  first_message-IsFresh true true request d s = on_sent-IsFresh true d _
  first_message-IsFresh true false request d s = need-IsFresh (lib.rua_init d) _ λ d'. (refl, refl)
  first_message-IsFresh false true request d s =
      take-IsFresh (lib.ake_request d) _ λ message d'. on_sent-IsFresh false d' _
  first_message-IsFresh false false request d s = (refl, refl)

  dialed-IsFresh : (l : Launch) (p : Option (Prepared lib.D)) → IsFresh (dialed lib l p)
  unfolding dialed
  dialed-IsFresh l none = tt
  dialed-IsFresh l (some p) =
      take-IsFresh (new_controller lib l.dials p.topic p.ticket p.state) _
        λ session d. first_message-IsFresh p.hit l.outgoing p.request d session

  created-IsFresh : (l : Launch) (o : Option lib.D) → IsFresh (created lib l o)
  unfolding created
  created-IsFresh l none = tt
  created-IsFresh l (some d) =
      need-IsFresh (lib.ake_init d) _ λ d'. dialed-IsFresh l (prepare lib l.outgoing l.cached d')

  start-IsFresh : (l : Launch) → IsFresh (start lib l)
  unfolding start
  start-IsFresh l = created-IsFresh l (lib.new_call_state l.phone l.outgoing)

  -- From the start of the program on, whatever messages come and goroutines run, in whatever order:
  -- the client says goodbye at most once, and starts at most one request for ODA.
  pub start-part_once :
      (roles : Roles lib.D) (cfg : AppConfig) (l : Launch) (c d : Client lib.D)
      → start lib l ≡ some c
      → Moves lib roles cfg c d
      → (length d.byes ≤ 1) × (d.oda_tasks ≤ 1)
  start-part_once roles cfg l c d started moves =
      let (e, f) = subst IsFresh started (start-IsFresh l) in
      Moves-part_once lib roles cfg c d e f moves

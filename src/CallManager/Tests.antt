-- ===== src/CallManager/Tests.antt =====
-- The theorems on the call manager at two pending attempts for one peer.
use mathlib.Core.List.Perm
use dia.Prelude.{
  ℕ, ◌≡◌, refl, true, false, not, ◌&&◌, [], ◌∷◌, ◌++◌, some, Bytes, codes, str_eq, is_empty, ◌==◌,
  if◌then◌else◌, get_elem?,
}
use dia.Decimal.{format}
use dia.CallManager.{
  CallSession, CallManager, new_call_manager, new_outgoing_attempt, bind_outgoing, remove_session,
  get_by_attempt_id, get_active_session_by_peer, queue_of, attempt_name, next_attempt,
  new_call_session, outgoing, fresh_ref, lookup,
}
use dia.CallManager.Maps.{holds}
use dia.CallManager.Binding.{
  pending, new_outgoing_attempt_waits, bind_serves_oldest, remove_session_forgets,
}
use dia.CallManager.Peers.{Answers, get_active_session_by_peer-Answers}

abbrev phone : Bytes
phone = codes "+1"

-- Sessions 0 and 1 wait, in this order.
two : CallManager ℕ
unfolding new_outgoing_attempt new_call_manager
two =
    (new_outgoing_attempt phone [] true (new_outgoing_attempt phone [] false new_call_manager).1).1

first : CallSession ℕ
unfolding new_call_session
first = record (new_call_session phone [] outgoing) { attempt_id = codes "a1" }

two-pending : pending phone two ≡ 0 ∷ 1 ∷ []
unfolding two queue_of lookup str_eq
two-pending = refl

two_first : get_elem? two.sessions 0 ≡ some first
unfolding two first new_outgoing_attempt new_call_manager attempt_name format
two_first = refl

new_outgoing_attempt_waits_example :
    (pending phone (new_outgoing_attempt phone [] true two).1
      ≡ (if str_eq phone phone then pending phone two ++ fresh_ref two ∷ [] else pending phone two))
    × (get_by_attempt_id
          (attempt_name (next_attempt two))
          (new_outgoing_attempt phone [] true two).1
        ≡ some (fresh_ref two))
unfolding new_outgoing_attempt
new_outgoing_attempt_waits_example = new_outgoing_attempt_waits phone [] phone true two

bind_serves_oldest_example : (bind_outgoing phone (codes "c") [] [] two).0 ≡ some 0
bind_serves_oldest_example =
    (bind_serves_oldest phone (codes "c") [] [] phone 0 (1 ∷ []) first two two-pending two_first).0

remove_session_forgets_example : holds 0 (pending phone (remove_session 0 two)) ≡ (
    not (not (is_empty first.peer_phone) && (str_eq first.peer_phone phone && 0 == 0))
    && holds 0 (pending phone two))
remove_session_forgets_example =
    (remove_session_forgets 0 first two (codes "a1") 0 phone two_first).2

get_active_session_by_peer-Answers_example :
    Answers phone two (get_active_session_by_peer (λ es. es) phone two)
get_active_session_by_peer-Answers_example =
    get_active_session_by_peer-Answers phone two (λ es. es) (λ es. Perm.refl es)

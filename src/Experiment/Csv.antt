-- ===== src/Experiment/Csv.antt =====
-- cmd/sipcontroller/main.go: the columns of a CSV file of results, and the fields of one record.
-- The quoting is that of encoding/csv.
use dia.Prelude.{
  ℕ, ◌+◌, ◌≡◌, refl, Bool, List, [], ◌∷◌, Option, none, some, Bytes, codes, is_empty, if◌then◌else◌,
  length,
}
use dia.Decimal.{format}
use dia.CallManager.{
  Direction, outgoing, incoming, Outcome, answered, call_closed, call_error, oda_ended, oda_done,
  oda_timed_out,
}
use dia.PeerCache.{trim_space}
use dia.Controller.State.{ℤ, pos, negsuc, CallResult}

abbrev pub csv_header : List Bytes
csv_header =
    codes "attempt_id"
    ∷ codes "call_id"
    ∷ codes "self_phone"
    ∷ codes "peer_phone"
    ∷ codes "peer_uri"
    ∷ codes "direction"
    ∷ codes "protocol_enabled"
    ∷ codes "dial_sent_unix_ms"
    ∷ codes "answered_unix_ms"
    ∷ codes "latency_ms"
    ∷ codes "oda_requested_unix_ms"
    ∷ codes "oda_completed_unix_ms"
    ∷ codes "oda_latency_ms"
    ∷ codes "outcome"
    ∷ codes "error"
    ∷ []

-- `openCSV`: the directory is made, the file created, the header written and flushed.
pub data Opened : Type 0 where
  no_file : Opened
  opened : List (List Bytes) → Opened
  no_directory not_created header_failed : Opened

-- `made` is whether the directory is there or is the current one.
unfoldable pub open_csv : Bytes → Bool → Bool → Bool → Opened
unfolding trim_space
open_csv path made created written =
    if is_empty (trim_space path)
    then no_file
    else if made
    then (if created
        then (if written then opened (csv_header ∷ []) else header_failed)
        else not_created)
    else no_directory

abbrev pub direction_name : Direction → Bytes
direction_name outgoing = codes "outgoing"
direction_name incoming = codes "incoming"

abbrev pub outcome_name : Outcome → Bytes
outcome_name answered = codes "answered"
outcome_name call_closed = codes "closed"
outcome_name call_error = codes "error"
outcome_name (oda_ended oda_done) = codes "oda_done"
outcome_name (oda_ended oda_timed_out) = codes "oda_timeout"

-- A time that is not set is 0.
abbrev pub millis : Option ℕ → Bytes
millis none = format 0
millis (some t) = format t

abbrev pub signed_millis : Option ℤ → Bytes
signed_millis none = format 0
signed_millis (some (pos n)) = format n
signed_millis (some (negsuc n)) = b'-' ∷ format (n + 1)

-- The record of a result with its own phone and its error text.
unfoldable pub csv_record : Bytes → Bytes → CallResult → List Bytes
unfolding format
csv_record self_phone error_text res =
    res.attempt_id
    ∷ res.call_id
    ∷ self_phone
    ∷ res.peer_phone
    ∷ res.peer_uri
    ∷ direction_name res.direction
    ∷ (if res.protocol_enabled then codes "true" else codes "false")
    ∷ signed_millis res.dial_sent_ms
    ∷ millis res.answered_ms
    ∷ signed_millis res.latency_ms
    ∷ millis res.oda_requested_ms
    ∷ millis res.oda_completed_ms
    ∷ signed_millis res.oda_latency_ms
    ∷ outcome_name res.outcome
    ∷ error_text
    ∷ []

-- A record has a field for each column.
csv_record-length :
    (self_phone error_text : Bytes) (res : CallResult)
    → length (csv_record self_phone error_text res) ≡ length csv_header
unfolding csv_record
csv_record-length self_phone error_text res = refl

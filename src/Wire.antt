-- ===== src/Wire.antt =====
-- api/go/relay/v1/relay.pb.go: the frames of the `Tunnel` stream, and what both ends compute on
-- them: internal/relay/grpc.go and internal/subscriber/session.go build the same MAC input.
use dia.Prelude.{ℕ, ◌%◌, Bool, ◌∷◌, ◌++◌, Option, Bytes}

-- Values of the open enum `RelayRequest_Type`, an int32 pattern.
abbrev pub publish_type : ℕ
publish_type = 1

abbrev pub subscribe_type : ℕ
subscribe_type = 2

pub record RelayRequest : Type 0 where
  pub sender_id : Bytes
  pub type : ℕ
  pub topic : Bytes
  pub payload : Bytes
  pub ticket : Bytes

-- The texts of the server's error frames.
pub data ErrorText : Type 0 where
  unknown_request_type ticket_required invalid_ticket_size mac_verification_failed : ErrorText
  invalid_mac missing_topic_or_payload topic_does_not_exist missing_topic : ErrorText

-- `codes.Code` values that the server sends.
pub data Code : Type 0 where
  invalid_argument permission_denied internal_error unauthenticated : Code

-- A frame to the client: `EVENT` with topic and payload, or `ERROR` with topic, code and text.
pub data RelayResponse : Type 0 where
  event : Bytes → Bytes → RelayResponse
  error : Bytes → Code → ErrorText → RelayResponse

abbrev pub mac_token_preimage_len : ℕ
mac_token_preimage_len = 32

abbrev pub mac_len : ℕ
mac_len = 32

-- `byte(type) || topic || payload`, the input of the MAC.
unfoldable pub mac_data : ℕ → Bytes → Bytes → Bytes
mac_data type topic payload = (type % 256) ∷ (topic ++ payload)

-- The MAC functions of libdia, which is not part of the repository: `CreateMessageMAC(token, data)`
-- and `VerifyMessageMAC(key, preimage, data, mac)`. `none` is a returned error.
pub record MacLib : Type 0 where
  pub create_message_mac : Bytes → Bytes → Option Bytes
  pub verify_message_mac : Bytes → Bytes → Bytes → Bytes → Option Bool

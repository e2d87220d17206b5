-- ===== src/Relay/Tunnel.antt =====
-- internal/relay/grpc.go: `verifyRequestMAC` and the receive loop of the `Tunnel` stream.
use dia.Prelude.{
  ℕ, ◌+◌, Bool, true, false, not, Option, none, some, is_empty, ◌==◌, if◌then◌else◌, length, take,
  drop,
}
use dia.Wire.{
  RelayRequest, ErrorText, Code, unknown_request_type, ticket_required, invalid_ticket_size,
  mac_verification_failed, invalid_mac, invalid_argument, permission_denied, internal_error,
  unauthenticated, publish_type, subscribe_type, mac_token_preimage_len, mac_len, mac_data,
}
use dia.Relay.Server.{World, State, send_error, detach, handle_publish, handle_subscribe}

module _ (w : World) where
  open w use {mac, at_private_key}

  -- The result of `VerifyMessageMAC`, as an error code or success.
  judge : Option Bool → Option (Code × ErrorText)
  judge none = some (internal_error, mac_verification_failed)
  judge (some false) = some (unauthenticated, invalid_mac)
  judge (some true) = none

  -- Why `verifyRequestMAC` refuses a request; `none` is acceptance.
  unfoldable pub refusal : RelayRequest → Option (Code × ErrorText)
  unfolding judge
  refusal req =
      if is_empty req.ticket
      then some (permission_denied, ticket_required)
      else if not (length req.ticket == mac_token_preimage_len + mac_len)
      then some (invalid_argument, invalid_ticket_size)
      else judge (
          mac.verify_message_mac at_private_key (take mac_token_preimage_len req.ticket)
            (mac_data req.type req.topic req.payload) (drop mac_token_preimage_len req.ticket))

  unfoldable pub verify_request_mac : ℕ → RelayRequest → State w → Bool × State w
  unfolding send_error
  verify_request_mac i req v = elim (refusal req) [
    | none ↦ (true, v)
    | some why ↦ (false, send_error i why.0 why.1 req.topic v)
  ]

  -- The switch of `Tunnel` on the request's type.
  unfoldable pub dispatch : ℕ → RelayRequest → State w → State w
  dispatch i req v =
      if req.type == publish_type
      then handle_publish w i req v
      else if req.type == subscribe_type
      then handle_subscribe w i req v
      else send_error i invalid_argument unknown_request_type req.topic v

  -- `continue` after a refusal, the switch otherwise.
  unfoldable pub proceed : ℕ → RelayRequest → Bool × State w → State w
  proceed i req (true, v) = dispatch i req v
  proceed i req (false, v) = v

  -- One round of the loop of `Tunnel`: a received request, or `none` for an error of `Recv`.
  unfoldable pub tunnel_step : ℕ → Option RelayRequest → State w → State w
  unfolding proceed
  tunnel_step i none v = detach i v
  tunnel_step i (some req) v = proceed i req (verify_request_mac i req v)

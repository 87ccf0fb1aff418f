-- ===== src/Protocol/Error.antt =====
-- The error enums of src/error.rs. A message that the source formats for a log is left out.
use echomesh_relay.Prelude.{ℕ, ltb, if◌then◌else◌, length, Bytes, Result, err}

pub data ProtocolError : Type 0 where
  frame_too_short : (expected actual : ℕ) → ProtocolError
  payload_too_large : (actual max : ℕ) → ProtocolError
  unsupported_version : (expected actual : ℕ) → ProtocolError
  unknown_message_type : ℕ → ProtocolError
  malformed_envelope : ProtocolError
  unexpected_direction : ProtocolError
  io : ProtocolError

pub data ValidationError : Type 0 where
  invalid_field : ValidationError
  payload_too_large : (actual max : ℕ) → ValidationError
  timestamp_skew : (timestamp now : ℕ) → ValidationError
  duplicate_message_id : ℕ → ValidationError
  missing_correlation_id : ValidationError

-- A destination is the peer's id or the connection's number, which the source prints in hex or
-- decimal; a failed handler carries the error that the source prints.
pub data RoutingError : Type 0 where
  peer_not_found : Bytes → RoutingError
  connection_not_found : ℕ → RoutingError
  unhandled_message_type : ℕ → RoutingError
  correlation_not_found : ℕ → RoutingError
  handler_failed : ProtocolError → RoutingError
  channel_closed : RoutingError

-- The answer to a slice that is shorter than a message needs.
abbrev pub needs {ℓ} : {A : Type ℓ} → ℕ → Bytes → Result ProtocolError A → Result ProtocolError A
needs n slice r =
    if ltb (length slice) n then err (ProtocolError.frame_too_short n (length slice)) else r

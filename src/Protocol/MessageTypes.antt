-- ===== src/Protocol/MessageTypes.antt =====
-- The `MessageType` of src/protocol/envelope.rs: its bytes and its directions.
use echomesh_relay.Prelude.{
  ℕ, ◌<◌, bit_and, ◌≡◌, refl, subst, ◌↔◌, Bool, false, not, ◌&&◌, ◌||◌, arith, leb, ◌==◌,
  if◌then◌else◌, Result, ok, err,
}
use echomesh_relay.Protocol.Error.{ProtocolError}

pub data MessageType : Type 0 where
  auth_request connect_request disconnect_request send_message ack heartbeat key_exchange
        relay_request raw_echo :
      MessageType
  auth_response connection_accepted connection_rejected heartbeat_response error_response
        send_message_response raw_echo_response :
      MessageType
  incoming_message_event delivery_status_event peer_event relay_event : MessageType

unfoldable pub from_u8 : ℕ → Result ProtocolError MessageType
from_u8 val =
    if val == 0x01
    then ok auth_request
    else if val == 0x02
    then ok connect_request
    else if val == 0x03
    then ok disconnect_request
    else if val == 0x04
    then ok send_message
    else if val == 0x05
    then ok ack
    else if val == 0x06
    then ok heartbeat
    else if val == 0x07
    then ok key_exchange
    else if val == 0x08
    then ok relay_request
    else if val == 0x0f
    then ok raw_echo
    else if val == 0x81
    then ok auth_response
    else if val == 0x82
    then ok connection_accepted
    else if val == 0x83
    then ok connection_rejected
    else if val == 0x84
    then ok heartbeat_response
    else if val == 0x85
    then ok error_response
    else if val == 0x86
    then ok send_message_response
    else if val == 0x8f
    then ok raw_echo_response
    else if val == 0x90
    then ok incoming_message_event
    else if val == 0x91
    then ok delivery_status_event
    else if val == 0x92
    then ok peer_event
    else if val == 0x93
    then ok relay_event
    else err (ProtocolError.unknown_message_type val)

unfoldable pub to_u8 : MessageType → ℕ
to_u8 auth_request = 0x01
to_u8 connect_request = 0x02
to_u8 disconnect_request = 0x03
to_u8 send_message = 0x04
to_u8 ack = 0x05
to_u8 heartbeat = 0x06
to_u8 key_exchange = 0x07
to_u8 relay_request = 0x08
to_u8 raw_echo = 0x0f
to_u8 auth_response = 0x81
to_u8 connection_accepted = 0x82
to_u8 connection_rejected = 0x83
to_u8 heartbeat_response = 0x84
to_u8 error_response = 0x85
to_u8 send_message_response = 0x86
to_u8 raw_echo_response = 0x8f
to_u8 incoming_message_event = 0x90
to_u8 delivery_status_event = 0x91
to_u8 peer_event = 0x92
to_u8 relay_event = 0x93

unfoldable pub is_client_to_server : MessageType → Bool
unfolding to_u8
is_client_to_server t = bit_and (to_u8 t) 0x80 == 0

unfoldable pub is_server_to_client : MessageType → Bool
unfolding to_u8
is_server_to_client t = not (bit_and (to_u8 t) 0x80 == 0)

unfoldable pub is_response : MessageType → Bool
unfolding to_u8
is_response t = leb 0x80 (to_u8 t) && leb (to_u8 t) 0x8f

unfoldable pub is_event : MessageType → Bool
unfolding to_u8
is_event t = leb 0x90 (to_u8 t) && leb (to_u8 t) 0x9f

pub from_u8-to_u8 : (t : MessageType) → from_u8 (to_u8 t) ≡ ok t
unfolding from_u8 to_u8
from_u8-to_u8 auth_request = refl
from_u8-to_u8 _ = refl

from_u8_written : (v : ℕ) (t : MessageType) → from_u8 v ≡ ok t → to_u8 t ≡ v
unfolding from_u8 to_u8
from_u8_written v t h = ground arith

-- A byte is read as a message type exactly when that type is written as the byte.
pub from_u8_iff : (v : ℕ) (t : MessageType) → (from_u8 v ≡ ok t) ↔ (to_u8 t ≡ v)
from_u8_iff v t = (from_u8_written v t, λ e. subst (λ k. from_u8 k ≡ ok t) e (from_u8-to_u8 t))

pub to_u8-lt : (t : MessageType) → to_u8 t < 256
unfolding to_u8
to_u8-lt auth_request = omega arith
to_u8-lt _ = omega arith

-- Of the three classes (request, response, event) a type is in exactly one, and the server sends
-- exactly the responses and the events.
pub class_unique :
    (t : MessageType)
    → (is_server_to_client t ≡ (is_response t || is_event t))
      × (is_client_to_server t ≡ not (is_server_to_client t))
      × ((is_response t && is_event t) ≡ false)
unfolding is_client_to_server is_server_to_client is_response is_event
class_unique auth_request = (refl, refl, refl)
class_unique _ = (refl, refl, refl)

-- ===== src/Protocol/Messages/ServerToClient.antt =====
-- src/protocol/messages/server_to_client/mod.rs. A `String` is the list of its UTF-8 bytes.
pub mod Wire
pub mod RoundTrip
use echomesh_relay.Prelude.{
  ℕ, ◌%◌, ◌^◌, ◌≡◌, Bool, true, not, [], ◌∷◌, ltb, ◌==◌, if◌then◌else◌, length, take, drop, Bytes,
  ByteBuf, put_slice, put_u8, put_u16, put_u32, put_u64, get_u8, get_u16, get_u32, get_u64, Result,
  ok, err,
}
use echomesh_relay.Protocol.Error.{ProtocolError, needs}
use echomesh_relay.Protocol.MessageTypes.{MessageType}
use echomesh_relay.Protocol.MessageTypes

-- `String::from_utf8_lossy` keeps what is UTF-8 already.
pub record Utf8 : Type 0 where
  pub is_utf8 : Bytes → Bool
  pub from_utf8_lossy : Bytes → Bytes
  pub lossy_lem : (s : Bytes) → is_utf8 s ≡ true → from_utf8_lossy s ≡ s

pub data DeliveryStatus : Type 0 where
  delivered dropped queued failed : DeliveryStatus

-- `DeliveryStatus::from_u8`, and the `as u8` of its discriminants.
unfoldable pub delivery_from_u8 : ℕ → DeliveryStatus
delivery_from_u8 v =
    if v == 1 then delivered else if v == 2 then dropped else if v == 3 then queued else failed

unfoldable pub delivery_to_u8 : DeliveryStatus → ℕ
delivery_to_u8 delivered = 1
delivery_to_u8 dropped = 2
delivery_to_u8 queued = 3
delivery_to_u8 failed = 4

pub data PeerStatus : Type 0 where
  online offline relay_active : PeerStatus

unfoldable pub peer_from_u8 : ℕ → PeerStatus
peer_from_u8 v = if v == 1 then online else if v == 3 then relay_active else offline

unfoldable pub peer_to_u8 : PeerStatus → ℕ
peer_to_u8 online = 1
peer_to_u8 offline = 2
peer_to_u8 relay_active = 3

pub data ServerToClientMessage : Type 0 where
  auth_response : (success : Bool) (session_id : Bytes) → ServerToClientMessage
  connection_accepted : (session_id assigned_peer_id : Bytes) → ServerToClientMessage
  connection_rejected : (reason_code : ℕ) (message : Bytes) → ServerToClientMessage
  heartbeat_response : (sequence : ℕ) → ServerToClientMessage
  error_response : (code : ℕ) (message : Bytes) → ServerToClientMessage
  send_message_response : (message_id : ℕ) (accepted : Bool) → ServerToClientMessage
  raw_echo_response : (payload : Bytes) → ServerToClientMessage
  incoming_message_event : (sender_id payload : Bytes) → ServerToClientMessage
  delivery_status_event : (message_id : ℕ) (status : DeliveryStatus) → ServerToClientMessage
  peer_event : (peer_id : Bytes) (status : PeerStatus) → ServerToClientMessage
  relay_event : (session_id : Bytes) (status : ℕ) → ServerToClientMessage

unfoldable pub message_type : ServerToClientMessage → MessageType
message_type (auth_response success session_id) = MessageType.auth_response
message_type (connection_accepted session_id peer_id) = MessageType.connection_accepted
message_type (connection_rejected reason_code message) = MessageType.connection_rejected
message_type (heartbeat_response sequence) = MessageType.heartbeat_response
message_type (error_response code message) = MessageType.error_response
message_type (send_message_response message_id accepted) = MessageType.send_message_response
message_type (raw_echo_response payload) = MessageType.raw_echo_response
message_type (incoming_message_event sender_id payload) = MessageType.incoming_message_event
message_type (delivery_status_event message_id status) = MessageType.delivery_status_event
message_type (peer_event peer_id status) = MessageType.peer_event
message_type (relay_event session_id status) = MessageType.relay_event

unfoldable pub is_response : ServerToClientMessage → Bool
unfolding message_type
is_response m = MessageTypes.is_response (message_type m)

unfoldable pub is_event : ServerToClientMessage → Bool
unfolding message_type
is_event m = MessageTypes.is_event (message_type m)

abbrev pub flag : Bool → ℕ
flag accepted = if accepted then 1 else 0

-- An index, `slice[i]`; the program asks for the length first, and 0 stands for the panic.
unfoldable pub byte_at : ℕ → Bytes → ℕ
byte_at i slice = elim (drop i slice) [ [] ↦ 0 | x ∷ _ ↦ x ]

module _ ⦃b : ByteBuf⦄ where
  unfoldable pub encode : ServerToClientMessage → Bytes
  encode (auth_response success session_id) = put_slice (put_u8 [] (flag success)) session_id
  encode (connection_accepted session_id assigned_peer_id) =
      put_slice (put_slice [] session_id) assigned_peer_id
  encode (connection_rejected reason_code message) =
      put_slice (put_u16 (put_u32 [] reason_code) (length message % 2 ^ 16)) message
  encode (heartbeat_response sequence) = put_u64 [] sequence
  encode (error_response code message) =
      put_slice (put_u16 (put_u32 [] code) (length message % 2 ^ 16)) message
  encode (send_message_response message_id accepted) =
      put_u8 (put_u64 [] message_id) (flag accepted)
  encode (raw_echo_response payload) = put_slice [] payload
  encode (incoming_message_event sender_id payload) = put_slice (put_slice [] sender_id) payload
  encode (delivery_status_event message_id status) =
      put_u8 (put_u64 [] message_id) (delivery_to_u8 status)
  encode (peer_event peer_id status) = put_u8 (put_slice [] peer_id) (peer_to_u8 status)
  encode (relay_event session_id status) = put_u8 (put_slice [] session_id) status

  module _ ⦃u : Utf8⦄ where
    -- The code and the text of a rejection and of an error.
    unfoldable pub decode_text :
        (ℕ → Bytes → ServerToClientMessage) → Bytes → Result ProtocolError ServerToClientMessage
    decode_text make slice = needs 6 slice (
        let (code, slice') = get_u32 slice in
        let (msg_len, slice'') = get_u16 slice' in
        if ltb (length slice'') msg_len
        then err (ProtocolError.frame_too_short msg_len (length slice''))
        else ok (make code (u.from_utf8_lossy (take msg_len slice''))))

    unfoldable pub decode : MessageType → Bytes → Result ProtocolError ServerToClientMessage
    unfolding decode_text
    decode MessageType.auth_response slice = needs 17 slice (
        let (success, slice') = get_u8 slice in
        ok (auth_response (not (success == 0)) (take 16 slice')))
    decode MessageType.connection_accepted slice =
        needs 48 slice (ok (connection_accepted (take 16 slice) (take 32 (drop 16 slice))))
    decode MessageType.connection_rejected slice = decode_text connection_rejected slice
    decode MessageType.heartbeat_response slice =
        needs 8 slice (ok (heartbeat_response (get_u64 slice).0))
    decode MessageType.error_response slice = decode_text error_response slice
    decode MessageType.send_message_response slice = needs 9 slice (
        let (message_id, slice') = get_u64 slice in
        ok (send_message_response message_id (not ((get_u8 slice').0 == 0))))
    decode MessageType.raw_echo_response slice = ok (raw_echo_response slice)
    decode MessageType.incoming_message_event slice =
        needs 32 slice (ok (incoming_message_event (take 32 slice) (drop 32 slice)))
    decode MessageType.delivery_status_event slice = needs 9 slice (
        let (message_id, slice') = get_u64 slice in
        ok (delivery_status_event message_id (delivery_from_u8 (get_u8 slice').0)))
    decode MessageType.peer_event slice =
        needs 33 slice (ok (peer_event (take 32 slice) (peer_from_u8 (byte_at 32 slice))))
    decode MessageType.relay_event slice =
        needs 17 slice (ok (relay_event (take 16 slice) (byte_at 16 slice)))
    decode _ slice = err ProtocolError.unexpected_direction

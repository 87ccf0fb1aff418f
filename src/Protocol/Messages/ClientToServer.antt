-- ===== src/Protocol/Messages/ClientToServer.antt =====
-- src/protocol/messages/client_to_server/mod.rs.
pub mod Bounds
pub mod RoundTrip
use echomesh_relay.Prelude.{
  ℕ, ◌+◌, ◌%◌, ◌^◌, [], length, take, drop, Bytes, ByteBuf, put_slice, advance, put_u16, put_u32,
  put_u64, get_u16, get_u32, get_u64, Result, ok, err,
}
use echomesh_relay.Protocol.Error.{ProtocolError, needs}
use echomesh_relay.Protocol.MessageTypes.{MessageType}

pub data ClientToServerMessage : Type 0 where
  auth_request : (token : Bytes) (client_version : ℕ) → ClientToServerMessage
  connect_request : (peer_id : Bytes) → ClientToServerMessage
  disconnect_request : (reason_code : ℕ) → ClientToServerMessage
  send_message : (recipient_id payload : Bytes) → ClientToServerMessage
  ack : (acknowledged_message_id : ℕ) → ClientToServerMessage
  heartbeat : (sequence : ℕ) → ClientToServerMessage
  key_exchange : (ephemeral_pubkey : Bytes) → ClientToServerMessage
  relay_request : (target_peer_id : Bytes) → ClientToServerMessage
  raw_echo : (payload : Bytes) → ClientToServerMessage

unfoldable pub message_type : ClientToServerMessage → MessageType
message_type (auth_request token client_version) = MessageType.auth_request
message_type (connect_request peer_id) = MessageType.connect_request
message_type (disconnect_request reason_code) = MessageType.disconnect_request
message_type (send_message recipient_id payload) = MessageType.send_message
message_type (ack acknowledged_message_id) = MessageType.ack
message_type (heartbeat sequence) = MessageType.heartbeat
message_type (key_exchange ephemeral_pubkey) = MessageType.key_exchange
message_type (relay_request target_peer_id) = MessageType.relay_request
message_type (raw_echo payload) = MessageType.raw_echo

module _ ⦃b : ByteBuf⦄ where
  unfoldable pub encode : ClientToServerMessage → Bytes
  encode (auth_request token client_version) =
      put_u32 (put_slice (put_u16 [] (length token % 2 ^ 16)) token) client_version
  encode (connect_request peer_id) = put_slice [] peer_id
  encode (disconnect_request reason_code) = put_u32 [] reason_code
  encode (send_message recipient_id payload) = put_slice (put_slice [] recipient_id) payload
  encode (ack acknowledged_message_id) = put_u64 [] acknowledged_message_id
  encode (heartbeat sequence) = put_u64 [] sequence
  encode (key_exchange ephemeral_pubkey) = put_slice [] ephemeral_pubkey
  encode (relay_request target_peer_id) = put_slice [] target_peer_id
  encode (raw_echo payload) = put_slice [] payload

  unfoldable pub decode : MessageType → Bytes → Result ProtocolError ClientToServerMessage
  decode MessageType.auth_request slice = needs 2 slice (
      let (token_len, slice') = get_u16 slice in
      needs (token_len + 4) slice' (
        let token = take token_len slice' in
        let (client_version, rest) = get_u32 (advance token_len slice') in
        ok (auth_request token client_version)))
  decode MessageType.connect_request slice = needs 32 slice (ok (connect_request (take 32 slice)))
  decode MessageType.disconnect_request slice =
      needs 4 slice (ok (disconnect_request (get_u32 slice).0))
  decode MessageType.send_message slice =
      needs 32 slice (ok (send_message (take 32 slice) (drop 32 slice)))
  decode MessageType.ack slice = needs 8 slice (ok (ack (get_u64 slice).0))
  decode MessageType.heartbeat slice = needs 8 slice (ok (heartbeat (get_u64 slice).0))
  decode MessageType.key_exchange slice = needs 32 slice (ok (key_exchange (take 32 slice)))
  decode MessageType.relay_request slice = needs 32 slice (ok (relay_request (take 32 slice)))
  decode MessageType.raw_echo slice = ok (raw_echo slice)
  decode _ slice = err ProtocolError.unexpected_direction

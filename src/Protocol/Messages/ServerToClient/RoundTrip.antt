-- ===== src/Protocol/Messages/ServerToClient/RoundTrip.antt =====
-- `ServerToClientMessage::decode` against `encode` and `message_type`.
use echomesh_relay.Prelude.{
  ℕ, ◌+◌, ◌^◌, ◌<◌, ◌≡◌, refl, subst, ◌↔◌, true, false, ◌++◌, arith, ltb, le→not_ltb, length,
  length-append, take-append, drop-append, take_all, Bytes, to_be_bytes, length-to_be_bytes,
  ByteBuf, get_int-append, get_int_alone, ok, err,
}
use echomesh_relay.Protocol.Error.{ProtocolError}
use echomesh_relay.Protocol.MessageTypes.{MessageType, is_server_to_client}
use echomesh_relay.Protocol.Messages.ServerToClient.{
  ServerToClientMessage, auth_response, connection_accepted, connection_rejected,
  heartbeat_response, error_response, send_message_response, raw_echo_response,
  incoming_message_event, delivery_status_event, peer_event, relay_event, message_type, encode,
  decode, decode_text, flag, Utf8, delivery_to_u8, peer_to_u8,
}
use echomesh_relay.Protocol.Messages.ServerToClient.Wire.{
  wire, encode-wire, delivery_round_trip, delivery_to_u8-lt, peer_round_trip, peer_to_u8-lt,
  flag-lt, flag_round_trip, byte_at-append,
}

module _ ⦃b : ByteBuf⦄ where
  module _ ⦃u : Utf8⦄ where
    -- The widths that the Rust types fix, and that a `String` is UTF-8.
    abbrev pub IsValid : ServerToClientMessage → Type 0
    IsValid (auth_response success session_id) = length session_id ≡ 16
    IsValid (connection_accepted session_id assigned_peer_id) =
        (length session_id ≡ 16) × (length assigned_peer_id ≡ 32)
    IsValid (connection_rejected reason_code message) =
        (reason_code < 2 ^ 32) × (u.is_utf8 message ≡ true)
    IsValid (heartbeat_response sequence) = sequence < 2 ^ 64
    IsValid (error_response code message) = (code < 2 ^ 32) × (u.is_utf8 message ≡ true)
    IsValid (send_message_response message_id accepted) = message_id < 2 ^ 64
    IsValid (raw_echo_response payload) = Unit {0}
    IsValid (incoming_message_event sender_id payload) = length sender_id ≡ 32
    IsValid (delivery_status_event message_id status) = message_id < 2 ^ 64
    IsValid (peer_event peer_id status) = length peer_id ≡ 32
    IsValid (relay_event session_id status) = (length session_id ≡ 16) × (status < 256)

    text_read :
        (make : ℕ → Bytes → ServerToClientMessage) (code : ℕ) (message : Bytes)
        → code < 2 ^ 32
        → u.is_utf8 message ≡ true
        → length (to_be_bytes 4 code ++ (to_be_bytes 2 (length message) ++ message)) < 2 ^ 16
        → decode_text make (to_be_bytes 4 code ++ (to_be_bytes 2 (length message) ++ message))
          ≡ ok (make code message)
    unfolding decode_text
    text_read make code message hc hm h =
        let n = length message in
        let body : Bytes = to_be_bytes 2 n ++ message in
        let size = length-append (to_be_bytes 4 code) body in
        let body_size = length-append (to_be_bytes 2 n) message in
        let four = length-to_be_bytes 4 code in
        let two = length-to_be_bytes 2 n in
        rw (
          le→not_ltb (length (to_be_bytes 4 code ++ body)) 6 (omega arith),
          get_int-append 4 code body hc,
          get_int-append 2 n message (omega arith),
          le→not_ltb n n (omega arith),
          take_all n message refl,
          u.lossy_lem message hm,
        )

    -- A field of fixed length and what follows it are long enough together.
    enough :
        (n m k : ℕ) (xs ys : Bytes)
        → length xs ≡ n
        → length ys ≡ m
        → k ≡ n + m
        → ltb (length (xs ++ ys)) k ≡ false
    enough n m k xs ys hx hy hk =
        le→not_ltb (length (xs ++ ys)) k (omega (arith, length-append xs ys))

    decode-wire :
        (m : ServerToClientMessage)
        → IsValid m
        → length (wire m) < 2 ^ 16
        → decode (message_type m) (wire m) ≡ ok m
    unfolding decode message_type
    decode-wire (auth_response success sid) v h = rw (
      enough 1 16 17 (to_be_bytes 1 (flag success)) sid (length-to_be_bytes 1 _) v (omega arith),
      get_int-append 1 (flag success) sid (flag-lt success),
      take_all 16 sid v,
      flag_round_trip success,
    )
    decode-wire (connection_accepted sid pid) v h = rw (
      enough 16 32 48 sid pid v.0 v.1 (omega arith),
      take-append 16 sid pid v.0,
      drop-append 16 sid pid v.0,
      take_all 32 pid v.1,
    )
    decode-wire (connection_rejected code message) v h =
        text_read connection_rejected code message v.0 v.1 h
    decode-wire (heartbeat_response n) v h = rw (
      le→not_ltb (length (to_be_bytes 8 n)) 8 (omega (arith, length-to_be_bytes 8 n)),
      get_int_alone 8 n v,
    )
    decode-wire (error_response code message) v h = text_read error_response code message v.0 v.1 h
    decode-wire (send_message_response n accepted) v h = rw (
      enough 8 1 9 (to_be_bytes 8 n) (to_be_bytes 1 (flag accepted)) (length-to_be_bytes 8 n)
          (length-to_be_bytes 1 _) (omega arith),
      get_int-append 8 n (to_be_bytes 1 (flag accepted)) v,
      get_int_alone 1 (flag accepted) (flag-lt accepted),
      flag_round_trip accepted,
    )
    decode-wire (raw_echo_response payload) v h = refl
    decode-wire (incoming_message_event sender payload) v h = rw (
      le→not_ltb (length (sender ++ payload)) 32 (omega (arith, length-append sender payload)),
      take-append 32 sender payload v,
      drop-append 32 sender payload v,
    )
    decode-wire (delivery_status_event n status) v h = rw (
      enough 8 1 9 (to_be_bytes 8 n) (to_be_bytes 1 (delivery_to_u8 status))
          (length-to_be_bytes 8 n) (length-to_be_bytes 1 _) (omega arith),
      get_int-append 8 n (to_be_bytes 1 (delivery_to_u8 status)) v,
      get_int_alone 1 (delivery_to_u8 status) (delivery_to_u8-lt status),
      delivery_round_trip status,
    )
    decode-wire (peer_event pid status) v h = rw (
      enough 32 1 33 pid (to_be_bytes 1 (peer_to_u8 status)) v (length-to_be_bytes 1 _)
          (omega arith),
      take-append 32 pid (to_be_bytes 1 (peer_to_u8 status)) v,
      byte_at-append 32 (peer_to_u8 status) pid v (peer_to_u8-lt status),
      peer_round_trip status,
    )
    decode-wire (relay_event sid status) v h = rw (
      enough 16 1 17 sid (to_be_bytes 1 status) v.0 (length-to_be_bytes 1 _) (omega arith),
      take-append 16 sid (to_be_bytes 1 status) v.0,
      byte_at-append 16 status sid v.0 v.1,
    )

    -- A server's message whose encoding is shorter than 65536 bytes is decoded, under its own
    -- type, to itself, where its texts are UTF-8.
    pub decode-encode_reply :
        (m : ServerToClientMessage)
        → IsValid m
        → length (encode m) < 2 ^ 16
        → decode (message_type m) (encode m) ≡ ok m
    decode-encode_reply m v h =
        let e = encode-wire m h in rw e (decode-wire m v (subst (λ s. length s < 2 ^ 16) e h))

    -- What is decoded under a type is a message of that type.
    pub message_type-decode :
        (t : MessageType) (s : Bytes) (m : ServerToClientMessage)
        → decode t s ≡ ok m
        → message_type m ≡ t
    unfolding decode message_type
    message_type-decode MessageType.raw_echo s m h = ground arith
    message_type-decode _ s m h = ground arith

    -- The decoder of server messages answers `UnexpectedDirection` to exactly the types that are
    -- not sent by servers, whatever the payload.
    pub decode_direction_reply :
        (t : MessageType) (s : Bytes)
        → (decode t s ≡ err ProtocolError.unexpected_direction) ↔ (is_server_to_client t ≡ false)
    unfolding decode is_server_to_client
    decode_direction_reply MessageType.raw_echo s = (λ h. refl, λ h. refl)
    decode_direction_reply _ s = (λ h. ground arith, λ h. ground arith)

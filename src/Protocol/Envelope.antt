-- ===== src/Protocol/Envelope.antt =====
-- src/protocol/envelope.rs: the envelope around every application message.
pub mod Wire
pub mod Canonical
use echomesh_relay.Prelude.{
  ℕ, ◌-◌, ◌%◌, ◌^◌, [], ltb, if◌then◌else◌, length, take, Bytes, ByteBuf, put_slice, put_u8,
  put_u16, put_u64, get_u8, get_u16, get_u64, Result, ◌>>=◌, ok, err,
}
use echomesh_relay.Protocol.Error.{ProtocolError}
use echomesh_relay.Protocol.Versioning
use echomesh_relay.Protocol.Versioning.{ProtocolVersion}
use echomesh_relay.Protocol.MessageTypes
use echomesh_relay.Protocol.MessageTypes.{MessageType}
use echomesh_relay.Protocol.Frame.{max_payload_size}

abbrev pub envelope_header_size : ℕ
envelope_header_size = 30

abbrev pub max_envelope_payload_size : ℕ
max_envelope_payload_size = max_payload_size - envelope_header_size

pub record MessageEnvelope : Type 0 where
  pub version : ProtocolVersion
  pub message_type : MessageType
  pub flags : ℕ
  pub message_id : ℕ
  pub correlation_id : ℕ
  pub timestamp : ℕ
  pub payload : Bytes

unfoldable pub new : MessageType → ℕ → ℕ → ℕ → Bytes → Result ProtocolError MessageEnvelope
new message_type message_id correlation_id timestamp payload =
    if ltb max_envelope_payload_size (length payload)
    then err (ProtocolError.payload_too_large (length payload) max_envelope_payload_size)
    else ok (record {
      version = Versioning.current;
      message_type = message_type;
      flags = 0;
      message_id = message_id;
      correlation_id = correlation_id;
      timestamp = timestamp;
      payload = payload;
    })

pub with_flags : MessageEnvelope → ℕ → MessageEnvelope
with_flags e flags = record e { flags = flags }

module _ ⦃b : ByteBuf⦄ where
  unfoldable pub encode : MessageEnvelope → Bytes → Result ProtocolError (Unit {0}) × Bytes
  encode e dst =
      if ltb max_envelope_payload_size (length e.payload)
      then (err (ProtocolError.payload_too_large (length e.payload) max_envelope_payload_size), dst)
      else (let dst = put_u8 dst (Versioning.to_u8 e.version) in
          let dst = put_u8 dst (MessageTypes.to_u8 e.message_type) in
          let dst = put_u16 dst e.flags in
          let dst = put_u64 dst e.message_id in
          let dst = put_u64 dst e.correlation_id in
          let dst = put_u64 dst e.timestamp in
          let dst = put_u16 dst (length e.payload % 2 ^ 16) in (ok tt, put_slice dst e.payload))

  unfoldable pub to_bytes : MessageEnvelope → Result ProtocolError Bytes
  to_bytes e = let (r, buf) = encode e [] in r >>= λ _. ok buf

  unfoldable pub decode : Bytes → Result ProtocolError MessageEnvelope
  decode slice =
      if ltb (length slice) envelope_header_size
      then err (ProtocolError.frame_too_short envelope_header_size (length slice))
      else (let (version_raw, buf) = get_u8 slice in
          Versioning.from_u8 version_raw >>= λ version.
          let (type_raw, buf1) = get_u8 buf in
          MessageTypes.from_u8 type_raw >>= λ message_type.
          let (flags, buf2) = get_u16 buf1 in
          let (message_id, buf3) = get_u64 buf2 in
          let (correlation_id, buf4) = get_u64 buf3 in
          let (timestamp, buf5) = get_u64 buf4 in
          let (payload_len, buf6) = get_u16 buf5 in
          if ltb max_envelope_payload_size payload_len
          then err (ProtocolError.payload_too_large payload_len max_envelope_payload_size)
          else if ltb (length buf6) payload_len
          then err (ProtocolError.frame_too_short payload_len (length buf6))
          else ok (record {
            version = version;
            message_type = message_type;
            flags = flags;
            message_id = message_id;
            correlation_id = correlation_id;
            timestamp = timestamp;
            payload = take payload_len buf6;
          }))

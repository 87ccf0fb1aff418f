-- ===== src/Protocol/Envelope/Wire.antt =====
-- The envelope format of src/protocol/envelope.rs, and its encoder and decoder against it.
use native.Mathlib.Nat.{mod-eq_of_lt}
use echomesh_relay.Prelude.{
  ℕ, ◌+◌, ◌^◌, ◌≤◌, ◌<◌, ◌≡◌, refl, [], ◌++◌, append_assoc, arith, le→not_ltb, length,
  length-append, take-append, Bytes, to_be_bytes, length-to_be_bytes, ByteBuf, get_int-append, ok,
}
use echomesh_relay.Protocol.Versioning
use echomesh_relay.Protocol.MessageTypes
use echomesh_relay.Protocol.Envelope.{MessageEnvelope, encode, decode, to_bytes}

-- The widths that the Rust types fix, and the limit that `MessageEnvelope::new` checks.
pub record IsValid (e : MessageEnvelope) : Type 0 where
  pub flags_lt : e.flags < 2 ^ 16
  pub message_id_lt : e.message_id < 2 ^ 64
  pub correlation_id_lt : e.correlation_id < 2 ^ 64
  pub timestamp_lt : e.timestamp < 2 ^ 64
  pub payload_le : length e.payload ≤ 1364

-- The numbers that a caller hands over are `u64`.
pub record AreIds (message_id correlation_id timestamp : ℕ) : Type 0 where
  pub message_id_lt : message_id < 2 ^ 64
  pub correlation_id_lt : correlation_id < 2 ^ 64
  pub timestamp_lt : timestamp < 2 ^ 64

abbrev pub wire : MessageEnvelope → Bytes
wire e =
    to_be_bytes 1 (Versioning.to_u8 e.version)
    ++ (to_be_bytes 1 (MessageTypes.to_u8 e.message_type)
        ++ (to_be_bytes 2 e.flags
            ++ (to_be_bytes 8 e.message_id
                ++ (to_be_bytes 8 e.correlation_id
                    ++ (to_be_bytes 8 e.timestamp
                        ++ (to_be_bytes 2 (length e.payload) ++ e.payload))))))

pub length-wire : (e : MessageEnvelope) → length (wire e) ≡ length e.payload + 30
length-wire e =
    rw
      (
        length-append (to_be_bytes 1 (Versioning.to_u8 e.version)),
        length-append (to_be_bytes 1 (MessageTypes.to_u8 e.message_type)),
        length-append (to_be_bytes 2 e.flags),
        length-append (to_be_bytes 8 e.message_id),
        length-append (to_be_bytes 8 e.correlation_id),
        length-append (to_be_bytes 8 e.timestamp),
        length-append (to_be_bytes 2 (length e.payload)),
      )
      (omega (arith, length-to_be_bytes))

module _ ⦃b : ByteBuf⦄ where
  pub encode-wire :
      (e : MessageEnvelope) (dst : Bytes) → IsValid e → encode e dst ≡ (ok tt, dst ++ wire e)
  unfolding encode
  encode-wire e dst v = rw (le→not_ltb 1364 (length e.payload) v.payload_le) (
      simp (
        b.put_slice_lem,
        b.put_int_lem,
        append_assoc,
        mod-eq_of_lt {n = length e.payload} {m = 2 ^ 16} (omega arith),
      ))

  pub to_bytes-wire : (e : MessageEnvelope) → IsValid e → to_bytes e ≡ ok (wire e)
  unfolding to_bytes
  to_bytes-wire e v = rw (encode-wire e [] v)

  -- Bytes behind the payload are left unread.
  pub decode-wire :
      (e : MessageEnvelope) (rest : Bytes) → IsValid e → decode (wire e ++ rest) ≡ ok e
  unfolding decode
  decode-wire e rest v =
      let n = length e.payload in
      let size : 30 ≤ length (wire e ++ rest) =
        omega (arith, length-append (wire e) rest, length-wire e) in
      rw (le→not_ltb (length (wire e ++ rest)) 30 size) (
        simp append_assoc (
          rw (
            get_int-append 1 (Versioning.to_u8 e.version) _ (Versioning.to_u8-lt e.version),
            Versioning.from_u8-to_u8 e.version,
            get_int-append 1 (MessageTypes.to_u8 e.message_type) _
                (MessageTypes.to_u8-lt e.message_type),
            MessageTypes.from_u8-to_u8 e.message_type,
            get_int-append 2 e.flags _ v.flags_lt,
            get_int-append 8 e.message_id _ v.message_id_lt,
            get_int-append 8 e.correlation_id _ v.correlation_id_lt,
            get_int-append 8 e.timestamp _ v.timestamp_lt,
            get_int-append 2 n (e.payload ++ rest) (omega arith),
            le→not_ltb 1364 n v.payload_le,
            le→not_ltb (length (e.payload ++ rest)) n (omega (arith, length-append e.payload rest)),
            take-append n e.payload rest refl,
          )))

-- ===== src/Protocol/Codec/Client.antt =====
-- The client's side of `EnvelopeCodec`: what a server decodes from what a client encodes, alone and
-- inside a frame.
use echomesh_relay.Prelude.{
  ℕ, ◌≤◌, ◌<◌, ◌≡◌, ap, ◌⊎◌, inl, inr, some, [], ◌++◌, append-nil, arith, ltb, ltb→lt, le→not_ltb,
  not_ltb→le, Bool-cases, length, Bytes, ByteBuf, ok, err,
}
use echomesh_relay.Protocol.Error.{ProtocolError}
use echomesh_relay.Protocol.Versioning
use echomesh_relay.Protocol.Frame
use echomesh_relay.Protocol.Envelope
use echomesh_relay.Protocol.Envelope.{MessageEnvelope}
use echomesh_relay.Protocol.Envelope.Wire.{AreIds}
use echomesh_relay.Protocol.Messages.ClientToServer
use echomesh_relay.Protocol.Messages.ClientToServer.{ClientToServerMessage}
use echomesh_relay.Protocol.Messages.ClientToServer.RoundTrip
use echomesh_relay.Protocol.Codec.{encode_client_message, decode_client_message}

module _ ⦃b : ByteBuf⦄ (msg : ClientToServerMessage) (mid cid ts : ℕ) where
  -- The envelope of a message.
  abbrev pub envelope : MessageEnvelope
  envelope = record {
    version = Versioning.current;
    message_type = ClientToServer.message_type msg;
    flags = 0;
    message_id = mid;
    correlation_id = cid;
    timestamp = ts;
    payload = ClientToServer.encode msg;
  }

  pub envelope-IsValid :
      AreIds mid cid ts
      → length (ClientToServer.encode msg) ≤ Envelope.max_envelope_payload_size
      → Envelope.Wire.IsValid envelope
  envelope-IsValid ids h = record {
    flags_lt = omega arith;
    message_id_lt = ids.message_id_lt;
    correlation_id_lt = ids.correlation_id_lt;
    timestamp_lt = ids.timestamp_lt;
    payload_le = h;
  }

  -- `encode_client_message` refuses a message whose encoding is over 1364 bytes, and writes the
  -- envelope of any other.
  pub encode_client_message_cases :
      AreIds mid cid ts
      → ((length (ClientToServer.encode msg) ≤ Envelope.max_envelope_payload_size)
          × (encode_client_message msg mid cid ts ≡ ok (Envelope.Wire.wire envelope)))
        ⊎ ((Envelope.max_envelope_payload_size < length (ClientToServer.encode msg))
            × (encode_client_message msg mid cid ts
                ≡ err (
                    ProtocolError.payload_too_large
                      (length (ClientToServer.encode msg))
                      Envelope.max_envelope_payload_size)))
  unfolding encode_client_message Envelope.new
  encode_client_message_cases ids =
      let n = length (ClientToServer.encode msg) in
      elim (Bool-cases (ltb 1364 n)) [
        | inl over ↦ inr (ltb→lt 1364 n over, rw over)
        | inr fits ↦
            let h = not_ltb→le 1364 n fits in
            inl (h, rw fits (Envelope.Wire.to_bytes-wire envelope (envelope-IsValid ids h)))
      ]

  pub decode_written :
      (rest : Bytes)
      → ClientToServer.RoundTrip.IsValid msg
      → AreIds mid cid ts
      → length (ClientToServer.encode msg) ≤ Envelope.max_envelope_payload_size
      → decode_client_message (Envelope.Wire.wire envelope ++ rest) ≡ ok (envelope, msg)
  unfolding decode_client_message
  decode_written rest v ids h = rw (
    Envelope.Wire.decode-wire envelope rest (envelope-IsValid ids h),
    ClientToServer.RoundTrip.decode-encode_request msg v (omega arith),
  )

  -- Whatever `encode_client_message` writes of a message with the widths of its Rust type, the
  -- server decodes: the bytes, in a frame of any session, fit `Frame::new`; that frame survives
  -- its codec, with any bytes behind it; and its payload decodes to the message in an envelope
  -- with the ids that were given.
  pub client_message_arrives :
      (session_id nonce bytes rest : Bytes)
      → ClientToServer.RoundTrip.IsValid msg
      → AreIds mid cid ts
      → length session_id ≡ 16
      → length nonce ≡ 8
      → encode_client_message msg mid cid ts ≡ ok bytes
      → (f : Frame.Frame) × (Frame.new session_id nonce bytes ≡ ok f)
        × (Frame.decode ((Frame.encode f []).1 ++ rest) ≡ (ok (some f), rest))
        × (decode_client_message f.payload ≡ ok (envelope, msg))
  client_message_arrives session_id nonce bytes rest v ids hs hn e =
      elim (encode_client_message_cases ids) [
        | inr (_, refused) ↦ absurd (cc)
        | inl (h, written) ↦
            let same : bytes ≡ Envelope.Wire.wire envelope = cc in
            let size : length bytes ≤ 1394 =
              omega (arith, ap length same, Envelope.Wire.length-wire envelope) in
            let f : Frame.Frame = record {
              session_id = session_id;
              nonce = nonce;
              payload = bytes;
            } in
            let valid : Frame.Wire.IsValid f = record {
              session_id_len = hs;
              nonce_len = hn;
              payload_le = size;
            } in
            (
              f,
              unfold Frame.new in rw (le→not_ltb 1394 (length bytes) size),
              rw (Frame.Wire.encode-wire f [] valid) (Frame.Wire.decode-wire f rest valid),
              rw (same, ← append-nil (Envelope.Wire.wire envelope)) (decode_written [] v ids h),
            )
      ]

-- ===== src/Relay/Session/Replies.antt =====
-- The frames that the relay of src/server/routed_listener.rs builds, and what a client reads in them.
use mathlib.Core.Path.{subst₂}
use echomesh_relay.Prelude.{
  ℕ, ◌≤◌, ◌≡◌, inl, inr, [], arith, length, Bytes, AreBytes, ByteBuf, ◌>>=◌, >>=-eq-ok, >>=_assoc,
  ok,
}
use echomesh_relay.Protocol.Frame
use echomesh_relay.Protocol.Frame.{Frame}
use echomesh_relay.Protocol.Envelope
use echomesh_relay.Protocol.Envelope.{MessageEnvelope}
use echomesh_relay.Protocol.Envelope.Wire.{AreIds}
use echomesh_relay.Protocol.Envelope.Canonical.{decode_canonical, decode-AreBytes}
use echomesh_relay.Protocol.Messages.ClientToServer
use echomesh_relay.Protocol.Messages.ClientToServer.{ClientToServerMessage}
use echomesh_relay.Protocol.Messages.ServerToClient
use echomesh_relay.Protocol.Messages.ServerToClient.{ServerToClientMessage, Utf8}
use echomesh_relay.Protocol.Messages.ServerToClient.RoundTrip
use echomesh_relay.Protocol.Codec.{
  decode_client_message, decode_server_message, encode_server_message,
}
use echomesh_relay.Protocol.Codec.Server
use echomesh_relay.Relay.Session.{message_frame}

pub new_fields :
    (session_id nonce bytes : Bytes) (f : Frame)
    → Frame.new session_id nonce bytes ≡ ok f
    → (f.session_id ≡ session_id) × (f.nonce ≡ nonce) × (f.payload ≡ bytes)
unfolding Frame.new
new_fields session_id nonce bytes f h = ground arith

module _ ⦃b : ByteBuf⦄ where
  message_frame-eq-encode :
      (prefix nonce : Bytes) (msg : ServerToClientMessage) (mid cid ts : ℕ)
      → message_frame prefix nonce msg mid cid ts
        ≡ (encode_server_message msg mid cid ts >>= λ bytes. Frame.new prefix nonce bytes)
  unfolding message_frame encode_server_message
  message_frame-eq-encode prefix nonce msg mid cid ts =
      >>=_assoc
        (Envelope.new (ServerToClient.message_type msg) mid cid ts (ServerToClient.encode msg))
        Envelope.to_bytes (Frame.new prefix nonce)

  -- The request behind a decoded frame: its envelope fits its widths.
  pub request_ids :
      (s : Bytes) (e : MessageEnvelope) (m : ClientToServerMessage)
      → AreBytes s
      → decode_client_message s ≡ ok (e, m)
      → AreIds e.message_id e.correlation_id e.timestamp
        × (length e.payload ≤ 1364)
        × (ClientToServer.decode e.message_type e.payload ≡ ok m)
        × AreBytes e.payload
  unfolding decode_client_message
  request_ids s e m bytes h =
      let (e', decoded, rest) = >>=-eq-ok (Envelope.decode s) _ h in
      let (m', inner, same) =
        >>=-eq-ok (ClientToServer.decode e'.message_type e'.payload) (λ m'. ok (e', m')) rest in
      let (_, _, v) = decode_canonical s e' bytes decoded in
      let pair : (e' ≡ e) × (m' ≡ m) = (cc, cc) in
      subst₂
        (λ x y.
          AreIds x.message_id x.correlation_id x.timestamp
          × (length x.payload ≤ 1364)
          × (ClientToServer.decode x.message_type x.payload ≡ ok y)
          × AreBytes x.payload)
        pair.0 pair.1
        (
          record {
            message_id_lt = v.message_id_lt;
            correlation_id_lt = v.correlation_id_lt;
            timestamp_lt = v.timestamp_lt;
          },
          v.payload_le,
          inner,
          decode-AreBytes s e' bytes decoded,
        )

  module _ ⦃u : Utf8⦄ where
    -- The frame goes out under the prefix, and a client reads the message in it.
    abbrev pub Carries : Frame → Bytes → ServerToClientMessage → ℕ → ℕ → ℕ → Type 0
    Carries f prefix msg mid cid ts =
        (f.session_id ≡ prefix)
        × (decode_server_message f.payload ≡ ok (Server.envelope msg mid cid ts, msg))

    pub message_frame_arrives :
        (prefix nonce : Bytes) (msg : ServerToClientMessage) (mid cid ts : ℕ)
        → ServerToClient.RoundTrip.IsValid msg
        → AreIds mid cid ts
        → length prefix ≡ 16
        → length nonce ≡ 8
        → length (ServerToClient.encode msg) ≤ 1364
        → (f : Frame) × (message_frame prefix nonce msg mid cid ts ≡ ok f)
          × Carries f prefix msg mid cid ts
          × (f.nonce ≡ nonce)
    message_frame_arrives prefix nonce msg mid cid ts v ids hp hn h =
        elim (Server.encode_server_message_cases msg mid cid ts ids) [
          | inr (over, _) ↦ absurd (omega arith)
          | inl (_, written) ↦
              let bytes : Bytes = Envelope.Wire.wire (Server.envelope msg mid cid ts) in
              let (f, made, _, decoded) =
                Server.server_message_arrives msg mid cid ts prefix nonce bytes [] v ids hp hn
                  written in
              let fields = new_fields prefix nonce bytes f made in
              (
                f,
                rw (message_frame-eq-encode prefix nonce msg mid cid ts, written) made,
                (fields.0, decoded),
                fields.1,
              )
        ]

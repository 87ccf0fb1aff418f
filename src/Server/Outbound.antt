-- ===== src/Server/Outbound.antt =====
-- src/server/routing/outbound_router.rs: frames from the server to a client. The counter of
-- messages is passed along, and the time of the day is an argument.
use echomesh_relay.Prelude.{
  ℕ, ◌+◌, ◌%◌, ◌^◌, ◌≤◌, ◌≡◌, refl, inl, inr, Bool, [], arith, length, replicate, length-replicate,
  Bytes, ByteBuf, Result, ◌>>=◌, map_err, ok,
}
use echomesh_relay.Protocol.Error.{ProtocolError, RoutingError}
use echomesh_relay.Protocol.Frame
use echomesh_relay.Protocol.Frame.{Frame}
use echomesh_relay.Protocol.Envelope
use echomesh_relay.Protocol.Envelope.Wire.{AreIds}
use echomesh_relay.Protocol.Messages.ServerToClient
use echomesh_relay.Protocol.Messages.ServerToClient.{ServerToClientMessage, Utf8}
use echomesh_relay.Protocol.Messages.ServerToClient.RoundTrip
use echomesh_relay.Protocol.Codec.{encode_server_message}
use echomesh_relay.Protocol.Codec.Server
use echomesh_relay.Relay.Registry.{Sender}
use echomesh_relay.Relay.Session.Replies.{Carries, new_fields}
use echomesh_relay.Server.Connections
use echomesh_relay.Server.Connections.{ConnectionManager}

-- `.map_err(|e| RoutingError::HandlerFailed(e.to_string()))`.
abbrev pub failed {ℓ} : {A : Type ℓ} → Result ProtocolError A → Result RoutingError A
failed r = map_err RoutingError.handler_failed r

-- `fetch_add(1)` of a `u64`.
abbrev pub fetch_add : ℕ → ℕ
fetch_add counter = (counter + 1) % 2 ^ 64

module _ ⦃b : ByteBuf⦄ where
  -- The frame, and the counter afterwards: a failure has used a number too.
  unfoldable pub build_frame :
      ℕ → ℕ → Bytes → ℕ → ServerToClientMessage → Result RoutingError Frame × ℕ
  build_frame counter timestamp session_id correlation_id message = (
    (failed (encode_server_message message counter correlation_id timestamp) >>= λ encoded_bytes.
        failed (Frame.new session_id (replicate 8 0) encoded_bytes)),
    fetch_add counter,
  )

  unfoldable pub send_to_connection :
      (Sender → Bool)
      → ConnectionManager
      → ℕ
      → ℕ
      → ℕ
      → Bytes
      → ℕ
      → ServerToClientMessage
      → Result RoutingError (Sender × Frame) × ℕ
  send_to_connection is_open m counter timestamp conn_id session_id correlation_id message =
      let (built, counter') = build_frame counter timestamp session_id correlation_id message in
      ((built >>= λ frame. Connections.send_to_connection is_open m conn_id frame), counter')

  unfoldable pub send_to_peer :
      (Sender → Bool)
      → ConnectionManager
      → ℕ
      → ℕ
      → Bytes
      → Bytes
      → ℕ
      → ServerToClientMessage
      → Result RoutingError (Sender × Frame) × ℕ
  send_to_peer is_open m counter timestamp peer_id session_id correlation_id message =
      let (built, counter') = build_frame counter timestamp session_id correlation_id message in
      ((built >>= λ frame. Connections.send_to_peer is_open m peer_id frame), counter')

  module _ ⦃u : Utf8⦄ where
    -- A message of at most 1364 bytes gets a frame of its session; the client decodes it to that
    -- message, numbered by the counter and correlated to the request.
    pub build_frame_arrives :
        (counter ts cid : ℕ) (session_id : Bytes) (msg : ServerToClientMessage)
        → ServerToClient.RoundTrip.IsValid msg
        → AreIds counter cid ts
        → length session_id ≡ 16
        → length (ServerToClient.encode msg) ≤ 1364
        → (f : Frame) × (build_frame counter ts session_id cid msg ≡ (ok f, (counter + 1) % 2 ^ 64))
          × Carries f session_id msg counter cid ts
    unfolding build_frame
    build_frame_arrives counter ts cid session_id msg v ids hs h =
        elim (Server.encode_server_message_cases msg counter cid ts ids) [
          | inr (over, _) ↦ absurd (omega arith)
          | inl (_, written) ↦
              let bytes : Bytes = Envelope.Wire.wire (Server.envelope msg counter cid ts) in
              let (f, made, _, decoded) =
                Server.server_message_arrives msg counter cid ts session_id (replicate 8 0) bytes []
                  v ids hs (length-replicate 8 0) written in
              (
                f,
                rw (written, made) refl,
                ((new_fields session_id (replicate 8 0) bytes f made).0, decoded),
              )
        ]

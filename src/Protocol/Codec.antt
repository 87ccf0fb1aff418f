-- ===== src/Protocol/Codec.antt =====
-- `EnvelopeCodec` of src/protocol/codec/mod.rs: typed messages in and out of envelopes.
pub mod Client
pub mod Server
use echomesh_relay.Prelude.{ℕ, Bytes, ByteBuf, Result, ◌>>=◌, ok}
use echomesh_relay.Protocol.Error.{ProtocolError}
use echomesh_relay.Protocol.Envelope
use echomesh_relay.Protocol.Envelope.{MessageEnvelope}
use echomesh_relay.Protocol.Messages.ClientToServer
use echomesh_relay.Protocol.Messages.ClientToServer.{ClientToServerMessage}
use echomesh_relay.Protocol.Messages.ServerToClient
use echomesh_relay.Protocol.Messages.ServerToClient.{ServerToClientMessage, Utf8}

module _ ⦃b : ByteBuf⦄ where
  unfoldable pub wrap_client_message :
      ClientToServerMessage → ℕ → ℕ → ℕ → Result ProtocolError MessageEnvelope
  wrap_client_message msg message_id correlation_id timestamp =
      let payload = ClientToServer.encode msg in
      Envelope.new (ClientToServer.message_type msg) message_id correlation_id timestamp payload

  unfoldable pub encode_client_message :
      ClientToServerMessage → ℕ → ℕ → ℕ → Result ProtocolError Bytes
  encode_client_message msg message_id correlation_id timestamp = do
    let payload = ClientToServer.encode msg
    envelope ←
        Envelope.new (ClientToServer.message_type msg) message_id correlation_id timestamp payload
    Envelope.to_bytes envelope

  unfoldable pub decode_client_message :
      Bytes → Result ProtocolError (MessageEnvelope × ClientToServerMessage)
  decode_client_message bytes = do
    envelope ← Envelope.decode bytes
    msg ← ClientToServer.decode envelope.message_type envelope.payload
    ok (envelope, msg)

  unfoldable pub wrap_server_message :
      ServerToClientMessage → ℕ → ℕ → ℕ → Result ProtocolError MessageEnvelope
  wrap_server_message msg message_id correlation_id timestamp =
      let payload = ServerToClient.encode msg in
      Envelope.new (ServerToClient.message_type msg) message_id correlation_id timestamp payload

  unfoldable pub encode_server_message :
      ServerToClientMessage → ℕ → ℕ → ℕ → Result ProtocolError Bytes
  encode_server_message msg message_id correlation_id timestamp = do
    let payload = ServerToClient.encode msg
    envelope ←
        Envelope.new (ServerToClient.message_type msg) message_id correlation_id timestamp payload
    Envelope.to_bytes envelope

  unfoldable pub decode_server_message :
      ⦃u : Utf8⦄ → Bytes → Result ProtocolError (MessageEnvelope × ServerToClientMessage)
  decode_server_message bytes = do
    envelope ← Envelope.decode bytes
    msg ← ServerToClient.decode envelope.message_type envelope.payload
    ok (envelope, msg)

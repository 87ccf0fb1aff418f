-- ===== src/Relay/Session/Services.antt =====
-- What the frame loop of src/server/routed_listener.rs does with a heartbeat and with an
-- acknowledgement.
use echomesh_relay.Prelude.{
  ℕ, ◌^◌, ◌<◌, ◌≡◌, refl, some, [], ◌∷◌, arith, length, take, Bytes, AreBytes, ByteBuf, ok,
}
use echomesh_relay.Protocol.Frame.{Frame}
use echomesh_relay.Protocol.Envelope.{MessageEnvelope}
use echomesh_relay.Protocol.Messages.ClientToServer.{ClientToServerMessage}
use echomesh_relay.Protocol.Messages.ClientToServer.Bounds.{decode-IsValid}
use echomesh_relay.Protocol.Messages.ServerToClient
use echomesh_relay.Protocol.Messages.ServerToClient.{ServerToClientMessage, Utf8}
use echomesh_relay.Protocol.Messages.ServerToClient.Wire.{
  length-encode_delivery, length-encode_heartbeat,
}
use echomesh_relay.Protocol.Codec.{decode_client_message}
use echomesh_relay.Relay.Registry.{get_by_prefix, Sender, RouteEntry, RouteRegistry}
use echomesh_relay.Relay.Session.{reply, no_nonce, handle_message, receive_frame}
use echomesh_relay.Relay.Session.Replies.{request_ids, Carries}
use echomesh_relay.Relay.Session.Dispatch.{
  IsRouted, receive_registered, handled, sent, length-no_nonce,
}

module _ ⦃b : ByteBuf⦄ where
  module _ ⦃u : Utf8⦄ where
    -- A registered peer's heartbeat has one effect: an answer on the same connection that decodes
    -- to its sequence number, correlated to its message.
    pub heartbeat_answered :
        (routes : RouteRegistry) (c : ℕ) (tx : Sender) (source : Bytes) (frame : Frame)
        (e : MessageEnvelope) (sequence : ℕ)
        → IsRouted frame
        → length source ≡ 32
        → AreBytes frame.payload
        → decode_client_message frame.payload ≡ ok (e, ClientToServerMessage.heartbeat sequence)
        → (f : Frame) × (receive_frame routes c tx (some source) frame
            ≡ (some source, reply tx f ∷ []))
          × Carries f
              (take 16 source)
              (ServerToClientMessage.heartbeat_response sequence)
              e.message_id
              e.message_id
              e.timestamp
    unfolding handle_message
    heartbeat_answered routes c tx source frame e sequence routed hs bytes h =
        let (ids, _, inner, read) = request_ids frame.payload e _ bytes h in
        let fits : sequence < 2 ^ 64 = decode-IsValid e.message_type e.payload _ read inner in
        let (f, made, carries, _) =
          sent source no_nonce (ServerToClientMessage.heartbeat_response sequence) e.message_id
            e.message_id e.timestamp fits hs length-no_nonce ids.message_id_lt ids.message_id_lt
            ids.timestamp_lt (omega (arith, length-encode_heartbeat sequence)) in
        let done : handle_message routes tx source frame e
              (ClientToServerMessage.heartbeat sequence)
            ≡ some (reply tx f ∷ []) =
          rw made refl in
        (
          f,
          rw
              (
                receive_registered routes c tx source frame routed,
                handled routes tx source frame e _ _ h done,
              )
              refl,
          carries,
        )

    -- A registered peer's acknowledgement, in a frame whose prefix finds a peer, has one effect: a
    -- delivery event for the acknowledged message, on that peer's connection.
    pub ack_notifies :
        (routes : RouteRegistry) (c : ℕ) (tx : Sender) (source : Bytes) (frame : Frame)
        (e : MessageEnvelope) (id : ℕ) (entry : RouteEntry)
        → IsRouted frame
        → length source ≡ 32
        → AreBytes frame.payload
        → decode_client_message frame.payload ≡ ok (e, ClientToServerMessage.ack id)
        → get_by_prefix routes frame.session_id ≡ some entry
        → (f : Frame) × (receive_frame routes c tx (some source) frame
            ≡ (some source, reply entry.tx f ∷ []))
          × Carries f
              (take 16 source)
              (ServerToClientMessage.delivery_status_event id ServerToClient.delivered)
              id
              id
              e.timestamp
    unfolding handle_message
    ack_notifies routes c tx source frame e id entry routed hs bytes h found =
        let (ids, _, inner, read) = request_ids frame.payload e _ bytes h in
        let fits : id < 2 ^ 64 = decode-IsValid e.message_type e.payload _ read inner in
        let (f, made, carries, _) =
          sent source no_nonce
            (ServerToClientMessage.delivery_status_event id ServerToClient.delivered) id id
            e.timestamp fits hs length-no_nonce fits fits ids.timestamp_lt
            (omega (arith, length-encode_delivery id ServerToClient.delivered)) in
        let done : handle_message routes tx source frame e (ClientToServerMessage.ack id)
            ≡ some (reply entry.tx f ∷ []) =
          rw (found, made) refl in
        (
          f,
          rw
              (
                receive_registered routes c tx source frame routed,
                handled routes tx source frame e _ _ h done,
              )
              refl,
          carries,
        )

-- ===== src/Relay/Session/Routing.antt =====
-- What the frame loop of src/server/routed_listener.rs does with a `SendMessage`.
use echomesh_relay.Prelude.{
  ℕ, ◌≡◌, refl, ap, ◌≢◌, ◌⊎◌, true, false, none, some, [], ◌∷◌, arith, length, take, length-drop,
  Bytes, AreBytes, ByteBuf, ok,
}
use echomesh_relay.Maps.{bytes_beq_iff}
use echomesh_relay.Protocol.Frame.{Frame}
use echomesh_relay.Protocol.Envelope.{MessageEnvelope}
use echomesh_relay.Protocol.Messages.ClientToServer.{ClientToServerMessage}
use echomesh_relay.Protocol.Messages.ClientToServer.RoundTrip.{decode-send_message}
use echomesh_relay.Protocol.Messages.ServerToClient.{ServerToClientMessage, Utf8}
use echomesh_relay.Protocol.Messages.ServerToClient.Wire.{length-encode_incoming}
use echomesh_relay.Protocol.Codec.{decode_client_message}
use echomesh_relay.Relay.Registry.{Sender, RouteEntry, RouteRegistry, get_by_peer_id}
use echomesh_relay.Relay.Session.{
  reply, forward, deliver, handle_send, handle_message, receive_frame,
}
use echomesh_relay.Relay.Session.Replies.{request_ids, Carries}
use echomesh_relay.Relay.Session.Dispatch.{IsRouted, receive_registered, handled, sent, answered}

module _ ⦃b : ByteBuf⦄ where
  module _ ⦃u : Utf8⦄ where
    -- A registered peer's `SendMessage` to itself or to a peer that is not online, in a frame that
    -- is neither a registration nor for the echo route, has one effect: an answer to the sender,
    -- which decodes to the refusal of the message.
    pub send_refused :
        (routes : RouteRegistry) (c : ℕ) (tx : Sender) (source : Bytes) (frame : Frame)
        (e : MessageEnvelope) (recipient payload : Bytes)
        → IsRouted frame
        → length source ≡ 32
        → AreBytes frame.payload
        → decode_client_message frame.payload
          ≡ ok (e, ClientToServerMessage.send_message recipient payload)
        → (source ≡ recipient) ⊎ (get_by_peer_id routes recipient ≡ none)
        → (f : Frame) × (receive_frame routes c tx (some source) frame
            ≡ (some source, reply tx f ∷ []))
          × Carries f
              (take 16 source)
              (ServerToClientMessage.send_message_response e.message_id false)
              e.message_id
              e.message_id
              e.timestamp
    unfolding handle_message handle_send deliver
    send_refused routes c tx source frame e recipient payload routed hs bytes h why =
        let (ids, _, _, _) = request_ids frame.payload e _ bytes h in
        let (f, made, carries) = answered tx source e false hs ids in
        let same = bytes_beq_iff source recipient in
        let done : handle_message routes tx source frame e
              (ClientToServerMessage.send_message recipient payload)
            ≡ some (reply tx f ∷ []) =
          ground arith in
        (
          f,
          rw
              (
                receive_registered routes c tx source frame routed,
                handled routes tx source frame e _ _ h done,
              )
              refl,
          carries,
        )

    -- A registered peer's `SendMessage` to another peer that is online, in a frame that is neither
    -- a registration nor for the echo route, is accepted by one answer to the sender, and then
    -- goes out, once, to the connection of the recipient: with the sender's id, the sender's data,
    -- the frame's nonce and the id of the message. Both frames decode at the client to these
    -- messages.
    pub send_delivered :
        (routes : RouteRegistry) (c : ℕ) (tx : Sender) (source : Bytes) (frame : Frame)
        (e : MessageEnvelope) (recipient payload : Bytes) (entry : RouteEntry)
        → IsRouted frame
        → length source ≡ 32
        → length frame.nonce ≡ 8
        → AreBytes frame.payload
        → decode_client_message frame.payload
          ≡ ok (e, ClientToServerMessage.send_message recipient payload)
        → source ≢ recipient
        → get_by_peer_id routes recipient ≡ some entry
        → (f g : Frame) × (receive_frame routes c tx (some source) frame
            ≡ (some source, reply tx f ∷ forward entry g ∷ []))
          × Carries f
              (take 16 source)
              (ServerToClientMessage.send_message_response e.message_id true)
              e.message_id
              e.message_id
              e.timestamp
          × Carries g
              (take 16 source)
              (ServerToClientMessage.incoming_message_event source payload)
              e.message_id
              0
              e.timestamp
          × (g.nonce ≡ frame.nonce)
    unfolding handle_message handle_send deliver
    send_delivered routes c tx source frame e recipient payload entry routed hs hn bytes h other
          online =
        let (ids, size, inner, _) = request_ids frame.payload e _ bytes h in
        let (f, made, carries) = answered tx source e true hs ids in
        let (fits, _, tail) =
          decode-send_message e.message_type e.payload recipient payload inner in
        let (g, made', carries', nonce) =
          sent source frame.nonce (ServerToClientMessage.incoming_message_event source payload)
            e.message_id 0 e.timestamp hs hs hn ids.message_id_lt (omega arith) ids.timestamp_lt
            (omega (
              arith,
              length-encode_incoming source payload,
              ap length tail,
              length-drop 32 e.payload,
            )) in
        let same = bytes_beq_iff source recipient in
        let done : handle_message routes tx source frame e
              (ClientToServerMessage.send_message recipient payload)
            ≡ some (reply tx f ∷ forward entry g ∷ []) =
          ground arith in
        (
          f,
          g,
          rw
              (
                receive_registered routes c tx source frame routed,
                handled routes tx source frame e _ _ h done,
              )
              refl,
          carries,
          carries',
          nonce,
        )

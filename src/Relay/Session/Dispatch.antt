-- ===== src/Relay/Session/Dispatch.antt =====
-- How a frame of a registered peer reaches its handler, and the frames that the handlers of
-- src/server/routed_listener.rs send.
use echomesh_relay.Prelude.{
  ℕ, ◌^◌, ◌≤◌, ◌<◌, ◌≡◌, refl, ◌≢◌, Bool, some, List, [], ◌∷◌, arith, length, take, replicate,
  length-take_of_le, Bytes, ByteBuf, ok,
}
use echomesh_relay.Maps.{bytes_beq_iff}
use echomesh_relay.Protocol.Frame.{Frame}
use echomesh_relay.Protocol.Envelope.{MessageEnvelope}
use echomesh_relay.Protocol.Envelope.Wire.{AreIds}
use echomesh_relay.Protocol.Messages.ClientToServer.{ClientToServerMessage}
use echomesh_relay.Protocol.Messages.ServerToClient
use echomesh_relay.Protocol.Messages.ServerToClient.{ServerToClientMessage, Utf8}
use echomesh_relay.Protocol.Messages.ServerToClient.Wire.{length-encode_answer}
use echomesh_relay.Protocol.Codec.{decode_client_message}
use echomesh_relay.Relay.Registry.{Sender, RouteRegistry}
use echomesh_relay.Relay.Session.{
  Action, reply, route_registration_id, echo_route_id, no_nonce, message_frame, answer_send,
  handle_message, route_frame, receive_frame,
}
use echomesh_relay.Relay.Session.Replies.{Carries, message_frame_arrives}

-- A frame that is neither a registration nor sent to the echo route.
abbrev pub IsRouted : Frame → Type 0
IsRouted frame = (frame.session_id ≢ route_registration_id) × (frame.session_id ≢ echo_route_id)

module _ ⦃b : ByteBuf⦄ where
  pub receive_registered :
      (routes : RouteRegistry) (c : ℕ) (tx : Sender) (source : Bytes) (frame : Frame)
      → IsRouted frame
      → receive_frame routes c tx (some source) frame
        ≡ (some source, route_frame routes tx source frame)
  unfolding receive_frame
  receive_registered routes c tx source frame routed = ground (
    arith,
    bytes_beq_iff frame.session_id route_registration_id,
    bytes_beq_iff frame.session_id echo_route_id,
  )

  pub length-no_nonce : length no_nonce ≡ 8
  unfolding replicate
  length-no_nonce = refl

  pub handled :
      (routes : RouteRegistry) (tx : Sender) (source : Bytes) (frame : Frame) (e : MessageEnvelope)
      (m : ClientToServerMessage) (actions : List Action)
      → decode_client_message frame.payload ≡ ok (e, m)
      → handle_message routes tx source frame e m ≡ some actions
      → route_frame routes tx source frame ≡ actions
  unfolding route_frame
  handled routes tx source frame e m actions h k = rw (h, k) refl

  module _ ⦃u : Utf8⦄ where
    -- A frame of the relay's own, under the prefix of the peer that caused it.
    pub sent :
        (source nonce : Bytes) (msg : ServerToClientMessage) (mid cid ts : ℕ)
        → ServerToClient.RoundTrip.IsValid msg
        → length source ≡ 32
        → length nonce ≡ 8
        → mid < 2 ^ 64
        → cid < 2 ^ 64
        → ts < 2 ^ 64
        → length (ServerToClient.encode msg) ≤ 1364
        → (f : Frame) × (message_frame (take 16 source) nonce msg mid cid ts ≡ ok f)
          × Carries f (take 16 source) msg mid cid ts
          × (f.nonce ≡ nonce)
    sent source nonce msg mid cid ts v hs hn hm hc ht h =
        message_frame_arrives (take 16 source) nonce msg mid cid ts v
          (record { message_id_lt = hm; correlation_id_lt = hc; timestamp_lt = ht })
          (length-take_of_le 16 source (omega arith)) hn h

    pub answered :
        (tx : Sender) (source : Bytes) (e : MessageEnvelope) (accepted : Bool)
        → length source ≡ 32
        → AreIds e.message_id e.correlation_id e.timestamp
        → (f : Frame) × (answer_send tx (take 16 source) e accepted ≡ reply tx f ∷ [])
          × Carries f
              (take 16 source)
              (ServerToClientMessage.send_message_response e.message_id accepted)
              e.message_id
              e.message_id
              e.timestamp
    unfolding answer_send
    answered tx source e accepted hs ids =
        let id = e.message_id in
        let (f, made, carries, _) =
          sent source no_nonce (ServerToClientMessage.send_message_response id accepted) id id
            e.timestamp ids.message_id_lt hs length-no_nonce ids.message_id_lt ids.message_id_lt
            ids.timestamp_lt (omega (arith, length-encode_answer id accepted)) in
        (f, rw made refl, carries)

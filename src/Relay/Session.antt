-- ===== src/Relay/Session.antt =====
-- The frame loop of `handle_routed_noise_session` in src/server/routed_listener.rs, after decryption.
-- A frame is answered by the session's new registration and a list of actions: the registry is
-- shared, and other connections may act between the lookup and each action.
pub mod Replies
pub mod Dispatch
pub mod Routing
pub mod Services
pub mod Effects
pub mod Senders
use echomesh_relay.Prelude.{
  ℕ, Bool, true, false, not, Option, none, some, List, [], ◌∷◌, ◌++◌, ◌==◌, if◌then◌else◌, length,
  take, replicate, Bytes, ByteBuf, Result, ◌>>=◌, ok, err,
}
use echomesh_relay.Maps.{bytes_beq}
use echomesh_relay.Protocol.Error.{ProtocolError}
use echomesh_relay.Protocol.Frame
use echomesh_relay.Protocol.Frame.{Frame}
use echomesh_relay.Protocol.Envelope
use echomesh_relay.Protocol.Envelope.{MessageEnvelope}
use echomesh_relay.Protocol.Messages.ClientToServer.{ClientToServerMessage}
use echomesh_relay.Protocol.Messages.ServerToClient
use echomesh_relay.Protocol.Messages.ServerToClient.{ServerToClientMessage}
use echomesh_relay.Protocol.Codec.{decode_client_message}
use echomesh_relay.Relay.Registry
use echomesh_relay.Relay.Registry.{Sender, RouteEntry, RouteRegistry, get_by_peer_id, get_by_prefix}

abbrev pub route_registration_id : Bytes
route_registration_id = replicate 16 0xf0

abbrev pub echo_route_id : Bytes
echo_route_id = replicate 16 0xee

abbrev pub no_nonce : Bytes
no_nonce = replicate 8 0

pub data Action : Type 0 where
  -- `let _ = tx.send(frame).await`
  reply : (tx : Sender) (frame : Frame) → Action
  -- `entry.tx.send(frame).await`, and `remove_connection` of the entry where that fails.
  forward : (entry : RouteEntry) (frame : Frame) → Action
  -- `routes.write().await.insert(..)`
  register : (peer_id : Bytes) (connection_id : ℕ) (tx : Sender) → Action

-- `if let Ok(..) = ..`.
abbrev pub if_ok : Result ProtocolError Frame → (Frame → List Action) → List Action
if_ok (ok frame) send = send frame
if_ok (err e) send = []

module _ ⦃b : ByteBuf⦄ where
  -- The three nested `if let Ok` that wrap a message in an envelope and a frame.
  unfoldable pub message_frame :
      Bytes → Bytes → ServerToClientMessage → ℕ → ℕ → ℕ → Result ProtocolError Frame
  message_frame source_prefix nonce msg message_id correlation_id timestamp = do
    envelope ←
        Envelope.new (ServerToClient.message_type msg) message_id correlation_id timestamp
          (ServerToClient.encode msg)
    bytes ← Envelope.to_bytes envelope
    Frame.new source_prefix nonce bytes

  -- `SendMessageResponse`, correlated to the request.
  unfoldable pub answer_send : Sender → Bytes → MessageEnvelope → Bool → List Action
  answer_send out_tx source_prefix envelope accepted =
      let id = envelope.message_id in
      if_ok
        (message_frame source_prefix no_nonce
          (ServerToClientMessage.send_message_response id accepted) id id envelope.timestamp)
        (λ frame. reply out_tx frame ∷ [])

  unfoldable pub deliver :
      Sender → Bytes → Frame → MessageEnvelope → Bytes → Option RouteEntry → List Action
  deliver out_tx source_peer_id frame envelope payload none =
      answer_send out_tx (take 16 source_peer_id) envelope false
  deliver out_tx source_peer_id frame envelope payload (some entry) =
      answer_send out_tx (take 16 source_peer_id) envelope true
      ++ if_ok
          (message_frame (take 16 source_peer_id) frame.nonce
            (ServerToClientMessage.incoming_message_event source_peer_id payload)
            envelope.message_id 0 envelope.timestamp)
          (λ event. forward entry event ∷ [])

  unfoldable pub handle_send :
      RouteRegistry → Sender → Bytes → Frame → MessageEnvelope → Bytes → Bytes → List Action
  handle_send routes out_tx source_peer_id frame envelope recipient_id payload =
      if bytes_beq source_peer_id recipient_id
      then answer_send out_tx (take 16 source_peer_id) envelope false
      else deliver out_tx source_peer_id frame envelope payload (get_by_peer_id routes recipient_id)

  delivered_to : Bytes → MessageEnvelope → ℕ → Option RouteEntry → List Action
  delivered_to source_prefix envelope id none = []
  delivered_to source_prefix envelope id (some entry) =
      if_ok
        (message_frame source_prefix no_nonce
          (ServerToClientMessage.delivery_status_event id ServerToClient.delivered) id id
          envelope.timestamp)
        (λ frame. reply entry.tx frame ∷ [])

  -- The structured messages; `none` where the match falls through to raw routing.
  unfoldable pub handle_message :
      RouteRegistry
      → Sender
      → Bytes
      → Frame
      → MessageEnvelope
      → ClientToServerMessage
      → Option (List Action)
  unfolding delivered_to
  handle_message routes out_tx source_peer_id frame envelope
        (ClientToServerMessage.send_message recipient_id payload) =
      some (handle_send routes out_tx source_peer_id frame envelope recipient_id payload)
  handle_message routes out_tx source_peer_id frame envelope (ClientToServerMessage.ack id) =
      some
        (delivered_to (take 16 source_peer_id) envelope id (get_by_prefix routes frame.session_id))
  handle_message routes out_tx source_peer_id frame envelope (ClientToServerMessage.heartbeat seq) =
      some (
        if_ok
          (message_frame (take 16 source_peer_id) no_nonce
            (ServerToClientMessage.heartbeat_response seq) envelope.message_id envelope.message_id
            envelope.timestamp)
          (λ answer. reply out_tx answer ∷ []))
  handle_message routes out_tx source_peer_id frame envelope _ = none

  forward_raw : Bytes → Frame → Option RouteEntry → List Action
  forward_raw source_prefix frame none = []
  forward_raw source_prefix frame (some entry) =
      forward entry (record frame { session_id = source_prefix }) ∷ []

  -- A frame whose payload is no envelope, or one that is not handled above, goes by its prefix.
  unfoldable pub route_raw : RouteRegistry → Bytes → Frame → List Action
  unfolding forward_raw
  route_raw routes source_prefix frame =
      if bytes_beq source_prefix frame.session_id
      then []
      else forward_raw source_prefix frame (get_by_prefix routes frame.session_id)

  abbrev pub or_raw : Option (List Action) → List Action → List Action
  or_raw (some actions) raw = actions
  or_raw none raw = raw

  structured :
      RouteRegistry
      → Sender
      → Bytes
      → Frame
      → Result ProtocolError (MessageEnvelope × ClientToServerMessage)
      → Option (List Action)
  structured routes out_tx source_peer_id frame (ok (envelope, msg)) =
      handle_message routes out_tx source_peer_id frame envelope msg
  structured routes out_tx source_peer_id frame (err e) = none

  unfoldable pub route_frame : RouteRegistry → Sender → Bytes → Frame → List Action
  unfolding structured
  route_frame routes out_tx source_peer_id frame =
      or_raw (structured routes out_tx source_peer_id frame (decode_client_message frame.payload))
        (route_raw routes (take 16 source_peer_id) frame)

  from_registered : RouteRegistry → Sender → Option Bytes → Frame → List Action
  from_registered routes out_tx none frame = []
  from_registered routes out_tx (some source_peer_id) frame =
      route_frame routes out_tx source_peer_id frame

  -- One round of the loop: the registered peer afterwards, and what is done.
  unfoldable pub receive_frame :
      RouteRegistry → ℕ → Sender → Option Bytes → Frame → Option Bytes × List Action
  unfolding from_registered
  receive_frame routes connection_id out_tx registered_peer frame =
      if bytes_beq frame.session_id route_registration_id
      then if not (length frame.payload == 32) then (registered_peer, []) else (
        some (take 32 frame.payload),
        register (take 32 frame.payload) connection_id out_tx ∷ [],
      )
      else if bytes_beq frame.session_id echo_route_id
      then (registered_peer, [])
      else (registered_peer, from_registered routes out_tx registered_peer frame)

-- ===== src/Server/Pipeline.antt =====
-- `ServerPipeline::process_frame` of src/server/networking/pipeline.rs.
pub mod Answers
pub mod Echo
use echomesh_relay.Prelude.{
  ℕ, Bool, true, false, not, ◌&&◌, none, some, List, [], ◌∷◌, if◌then◌else◌, take, replicate, Bytes,
  ByteBuf, Result, map_err, ok, err,
}
use echomesh_relay.Protocol.Error.{ProtocolError, RoutingError}
use echomesh_relay.Protocol.Frame
use echomesh_relay.Protocol.Frame.{Frame, constant_time_eq}
use echomesh_relay.Protocol.MessageTypes.{MessageType}
use echomesh_relay.Protocol.Envelope
use echomesh_relay.Protocol.Envelope.{MessageEnvelope}
use echomesh_relay.Protocol.Messages.ClientToServer.{ClientToServerMessage}
use echomesh_relay.Protocol.Messages.ClientToServer
use echomesh_relay.Protocol.Messages.ServerToClient.{ServerToClientMessage}
use echomesh_relay.Protocol.Codec.{decode_client_message}
use echomesh_relay.Server.Sessions.{Session, SessionManager, touch_session}
use echomesh_relay.Server.Handlers.{Answer, ServerInboundRouter, dispatch}
use echomesh_relay.Server.Outbound.{build_frame}

-- The variants of `EchoMeshError` that the pipeline returns.
pub data EchoMeshError : Type 0 where
  protocol : ProtocolError → EchoMeshError
  routing : RoutingError → EchoMeshError

abbrev pub echo_service_peer_id : Bytes
echo_service_peer_id = replicate 32 0xee

-- "internal processing error".
abbrev pub internal_error : Bytes
internal_error =
    105 ∷ 110 ∷ 116 ∷ 101 ∷ 114 ∷ 110 ∷ 97 ∷ 108 ∷ 32 ∷ 112 ∷ 114 ∷ 111 ∷ 99 ∷ 101 ∷ 115 ∷ 115 ∷ 105
    ∷ 110 ∷ 103 ∷ 32 ∷ 101 ∷ 114 ∷ 114 ∷ 111 ∷ 114 ∷ []

-- What the pipeline shares with others, and changes: the sessions and the counter of the outbound
-- router.
pub record State : Type 0 where
  pub session_manager : SessionManager
  pub msg_id_counter : ℕ

-- The result of the call, the state afterwards and the frames that went out.
abbrev pub Outcome : Type 0
Outcome = Result EchoMeshError Unit × State × List Frame

sent_or : State → Result EchoMeshError Frame → Outcome
sent_or st (ok frame) = (ok tt, st, frame ∷ [])
sent_or st (err e) = (err e, st, [])

module _ ⦃b : ByteBuf⦄ where
  -- `build_frame(..)?` and `let _ = outbound_tx.send(frame).await`.
  respond : ℕ → State → Bytes → ℕ → ServerToClientMessage → Outcome
  unfolding sent_or
  respond timestamp st session_id correlation_id message =
      let (built, counter') =
        build_frame st.msg_id_counter timestamp session_id correlation_id message in
      sent_or (record st { msg_id_counter = counter' }) (map_err EchoMeshError.routing built)

  answer : ℕ → State → Session → MessageEnvelope → Answer → Outcome
  unfolding respond
  answer timestamp st session envelope (ok (some message)) =
      respond timestamp st session.session_id envelope.message_id message
  answer timestamp st session envelope (ok none) = (ok tt, st, [])
  answer timestamp st session envelope (err e) =
      respond timestamp st session.session_id envelope.message_id
        (ServerToClientMessage.error_response 500 internal_error)

  -- `if let Ok(Some(RawEchoResponse { payload }))`.
  echo_back : State → Frame → Answer → Outcome
  unfolding sent_or
  echo_back st frame (ok (some (ServerToClientMessage.raw_echo_response payload))) =
      sent_or st (map_err EchoMeshError.protocol (Frame.new frame.session_id frame.nonce payload))
  echo_back st frame _ = (ok tt, st, [])

  echo_raw :
      ServerInboundRouter → State → Session → Frame → Result ProtocolError MessageEnvelope → Outcome
  unfolding echo_back
  echo_raw router st session frame (err e) = (err (EchoMeshError.protocol e), st, [])
  echo_raw router st session frame (ok synthetic_envelope) =
      echo_back st frame
        (dispatch router synthetic_envelope (ClientToServerMessage.raw_echo frame.payload) session)

  accepted :
      ServerInboundRouter
      → ℕ
      → State
      → Session
      → Frame
      → Bool
      → Result ProtocolError (MessageEnvelope × ClientToServerMessage)
      → Outcome
  unfolding answer echo_raw
  accepted router timestamp st session frame is_echo_service (ok (envelope, client_msg)) =
      answer timestamp st session envelope (dispatch router envelope client_msg session)
  accepted router timestamp st session frame true (err e) =
      echo_raw router st session frame (Envelope.new MessageType.raw_echo 0 0 0 frame.payload)
  accepted router timestamp st session frame false (err e) = (ok tt, st, [])

  unfoldable pub process_frame :
      ServerInboundRouter → (now timestamp : ℕ) → State → Session → Frame → Outcome
  unfolding accepted
  process_frame router now timestamp st session frame =
      let is_echo_service = constant_time_eq frame.session_id (take 16 echo_service_peer_id) in
      let is_current_session = constant_time_eq frame.session_id session.session_id in
      if not is_echo_service && not is_current_session
      then (ok tt, st, [])
      else (let touched = (touch_session now st.session_manager session.session_id).0 in
          accepted router timestamp (record st { session_manager = touched }) session frame
            is_echo_service (decode_client_message frame.payload))

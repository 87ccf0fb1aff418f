-- ===== src/Server/Handlers.antt =====
-- src/server/handlers, src/server/services and src/server/routing/inbound_router.rs: which handler
-- a message goes to, and what it answers.
use echomesh_relay.Prelude.{
  ◌≡◌, refl, subst, ◌↔◌, Bool, true, Option, none, some, [], ◌==◌, ==_iff, ==_refl, Bytes, Result,
  ok, err,
}
use echomesh_relay.Maps
use echomesh_relay.Maps.{Eq, HashMap}
use echomesh_relay.Protocol.Error.{RoutingError}
use echomesh_relay.Protocol.MessageTypes
use echomesh_relay.Protocol.MessageTypes.{MessageType}
use echomesh_relay.Protocol.Envelope.{MessageEnvelope}
use echomesh_relay.Protocol.Messages.ClientToServer
use echomesh_relay.Protocol.Messages.ClientToServer.{ClientToServerMessage}
use echomesh_relay.Protocol.Messages.ServerToClient.{ServerToClientMessage}
use echomesh_relay.Server.Sessions.{Session}

abbrev pub Answer : Type 0
Answer = Result RoutingError (Option ServerToClientMessage)

-- `UnhandledMessageType(message.message_type().to_u8())`.
abbrev pub unhandled : ClientToServerMessage → Answer
unhandled message =
    err (
      RoutingError.unhandled_message_type
        (MessageTypes.to_u8 (ClientToServer.message_type message)))

unfoldable pub handle_auth : MessageEnvelope → ClientToServerMessage → Session → Answer
handle_auth envelope (ClientToServerMessage.auth_request token version) session =
    ok (some (ServerToClientMessage.auth_response true session.session_id))
handle_auth envelope (ClientToServerMessage.connect_request peer_id) session =
    ok (some (ServerToClientMessage.connection_accepted session.session_id peer_id))
handle_auth envelope message session = unhandled message

unfoldable pub process_echo : Bytes → Bytes
process_echo payload = payload

unfoldable pub handle_echo : MessageEnvelope → ClientToServerMessage → Session → Answer
handle_echo envelope (ClientToServerMessage.raw_echo payload) session =
    ok (some (ServerToClientMessage.raw_echo_response (process_echo payload)))
handle_echo envelope message session = unhandled message

unfoldable pub handle_heartbeat : MessageEnvelope → ClientToServerMessage → Session → Answer
handle_heartbeat envelope (ClientToServerMessage.heartbeat sequence) session =
    ok (some (ServerToClientMessage.heartbeat_response sequence))
handle_heartbeat envelope message session = unhandled message

unfoldable pub handle_message : MessageEnvelope → ClientToServerMessage → Session → Answer
handle_message envelope (ClientToServerMessage.send_message recipient payload) session =
    ok (some (ServerToClientMessage.send_message_response envelope.message_id true))
handle_message envelope message session = unhandled message

abbrev pub Handler : Type 0
Handler = MessageEnvelope → ClientToServerMessage → Session → Answer

abbrev pub type_beq : MessageType → MessageType → Bool
type_beq s t = MessageTypes.to_u8 s == MessageTypes.to_u8 t

pub type_beq_iff : (s t : MessageType) → (type_beq s t ≡ true) ↔ (s ≡ t)
type_beq_iff s t = (
  λ h.
      let e = (==_iff (MessageTypes.to_u8 s) (MessageTypes.to_u8 t)).0 h in
      let l = (MessageTypes.from_u8_iff (MessageTypes.to_u8 t) s).1 e in
      let r = MessageTypes.from_u8-to_u8 t in cc,
  λ e. subst (λ x. type_beq s x ≡ true) e (==_refl (MessageTypes.to_u8 s)),
)

instance abbrev pub type_eq : Eq MessageType
type_eq = record { beq = type_beq; beq_iff = type_beq_iff }

abbrev pub ServerInboundRouter : Type 0
ServerInboundRouter = HashMap MessageType Handler

unfoldable pub register : ServerInboundRouter → MessageType → Handler → ServerInboundRouter
register router message_type handler = Maps.insert message_type handler router

unfoldable pub standard_relay : ServerInboundRouter
standard_relay =
    let router = register [] MessageType.raw_echo handle_echo in
    let router = register router MessageType.send_message handle_message in
    let router = register router MessageType.heartbeat handle_heartbeat in
    let router = register router MessageType.auth_request handle_auth in
    register router MessageType.connect_request handle_auth

dispatch_to : Option Handler → MessageEnvelope → ClientToServerMessage → Session → Answer
dispatch_to none envelope message session =
    err (RoutingError.unhandled_message_type (MessageTypes.to_u8 envelope.message_type))
dispatch_to (some handler) envelope message session = handler envelope message session

unfoldable pub dispatch :
    ServerInboundRouter → MessageEnvelope → ClientToServerMessage → Session → Answer
unfolding dispatch_to
dispatch router envelope message session =
    dispatch_to (Maps.get envelope.message_type router) envelope message session

-- What the standard relay answers, by the message alone.
abbrev pub answer_to : MessageEnvelope → ClientToServerMessage → Session → Answer
answer_to envelope (ClientToServerMessage.auth_request token version) session =
    ok (some (ServerToClientMessage.auth_response true session.session_id))
answer_to envelope (ClientToServerMessage.connect_request peer_id) session =
    ok (some (ServerToClientMessage.connection_accepted session.session_id peer_id))
answer_to envelope (ClientToServerMessage.send_message recipient payload) session =
    ok (some (ServerToClientMessage.send_message_response envelope.message_id true))
answer_to envelope (ClientToServerMessage.heartbeat sequence) session =
    ok (some (ServerToClientMessage.heartbeat_response sequence))
answer_to envelope (ClientToServerMessage.raw_echo payload) session =
    ok (some (ServerToClientMessage.raw_echo_response payload))
answer_to envelope message session = unhandled message

-- For a message whose envelope bears its own type, the standard relay answers authentication,
-- connection, sending, heartbeat and echo, and refuses every other type by its number.
pub dispatch_standard :
    (e : MessageEnvelope) (m : ClientToServerMessage) (s : Session)
    → e.message_type ≡ ClientToServer.message_type m
    → dispatch standard_relay e m s ≡ answer_to e m s
unfolding dispatch standard_relay register Maps.get Maps.insert ClientToServer.message_type
    MessageTypes.to_u8 handle_auth handle_echo handle_heartbeat handle_message process_echo
dispatch_standard e (ClientToServerMessage.auth_request token version) s h = rw h refl
dispatch_standard e _ s h = rw h refl

-- ===== src/Examples/Exchanges.antt =====
-- Examples for the session pipeline of src/server and the routers of src/client.
use echomesh_relay.Prelude.{
  ℕ, ◌≤◌, ◌<◌, ◌≡◌, refl, ◌≢◌, inl, true, some, [], ◌∷◌, arith, length, take, replicate,
  length-replicate, documented, ok, err,
}
use echomesh_relay.Maps
use echomesh_relay.Maps.{nat_eq, bytes_eq}
use echomesh_relay.Maps.Laws.{get-insert_self}
use echomesh_relay.Protocol.Error.{ProtocolError, RoutingError}
use echomesh_relay.Protocol.Frame.{Frame}
use echomesh_relay.Protocol.MessageTypes
use echomesh_relay.Protocol.Envelope
use echomesh_relay.Protocol.Envelope.{MessageEnvelope}
use echomesh_relay.Protocol.Messages.ServerToClient
use echomesh_relay.Protocol.Messages.ServerToClient.{ServerToClientMessage}
use echomesh_relay.Protocol.Codec.{decode_client_message, decode_server_message}
use echomesh_relay.Protocol.Codec.Server
use echomesh_relay.Relay.Session.Replies.{Carries}
use echomesh_relay.Server.Connections
use echomesh_relay.Server.Connections.{
  ConnectionManager, bind_session, register, unregister, send_to_peer, send_to_connection,
}
use echomesh_relay.Server.Connections.Laws.{
  AreMaps, new-AreMaps, bind_session-AreMaps, register-AreMaps, unregister_silent,
}
use echomesh_relay.Server.Sessions
use echomesh_relay.Server.Sessions.{
  Session, SessionManager, create_session, touch_session, remove_session, session_lifecycle,
}
use echomesh_relay.Server.Handlers.{standard_relay}
use echomesh_relay.Server.Outbound.{fetch_add}
use echomesh_relay.Server.Pipeline.{State, process_frame, EchoMeshError, echo_service_peer_id}
use echomesh_relay.Server.Pipeline.Answers.{after, reply_to, structured_answered}
use echomesh_relay.Server.Pipeline.Echo.{stranger_ignored, raw_echo_lem}
use echomesh_relay.Client.Inbound
use echomesh_relay.Client.Inbound.{
  ClientInboundRouter, register_pending, wake, notify_all, response_wakes_once, event_notifies_all,
}
use echomesh_relay.Client.Outbound.{send_message}
use echomesh_relay.Client.Exchange.{request_answered}
use echomesh_relay.Examples.Data.{
  alice, bob, hello, lenient, to_bob, to_bob-IsValid, to_bob_size, to_bob_bytes, request_envelope,
  request_frame, request_decoded, request_bytes, replicate_apart,
}

abbrev session : Session
session = Sessions.new 10 (replicate 16 9) (some alice)

abbrev state : State
state = record { session_manager = []; msg_id_counter = 1 }

abbrev waiting : ClientInboundRouter
waiting = record { pending_requests = (7, 70) ∷ (8, 80) ∷ []; event_handlers = 1 ∷ 2 ∷ [] }

request_answered_example :
    let reply = reply_to (request_envelope to_bob) to_bob session in
    let answered = Server.envelope ⦃b = documented⦄ reply 1 7 6 in
    (f g : Frame) × (send_message ⦃b = documented⦄ true 7 5 session.session_id to_bob
      ≡ (ok (7, f), fetch_add 7))
    × (process_frame ⦃b = documented⦄ standard_relay 11 6 state session f
        ≡ (ok tt, record (after 11 state session) { msg_id_counter = fetch_add 1 }, g ∷ []))
    × (decode_server_message ⦃b = documented⦄ ⦃u = lenient⦄ g.payload ≡ ok (answered, reply))
    × ((Inbound.dispatch (register_pending waiting 7 90).0 answered reply).1 ≡ wake 90 reply ∷ [])
request_answered_example =
    request_answered ⦃b = documented⦄ ⦃u = lenient⦄ 7 5 11 6 90 session state waiting to_bob refl
      to_bob-IsValid to_bob_bytes to_bob_size (omega arith) (omega arith) (omega arith)
      (omega arith) (omega arith) (unfold Sessions.new in length-replicate 16 9)

structured_answered_example :
    (f : Frame) × (process_frame ⦃b = documented⦄ standard_relay 11 6 state session
        (request_frame session.session_id to_bob)
      ≡ (ok tt, record (after 11 state session) { msg_id_counter = fetch_add 1 }, f ∷ []))
    × Carries ⦃b = documented⦄ ⦃u = lenient⦄ f session.session_id
        (reply_to (request_envelope to_bob) to_bob session)
        1
        7
        6
structured_answered_example =
    structured_answered ⦃b = documented⦄ ⦃u = lenient⦄ 11 6 state session
      (request_frame session.session_id to_bob) (request_envelope to_bob) to_bob refl (inl refl)
      (unfold Sessions.new in length-replicate 16 9) (omega arith) (omega arith)
      (request_bytes to_bob to_bob_bytes) (request_decoded to_bob to_bob-IsValid to_bob_size)

abbrev stray : Frame
stray = record { session_id = replicate 16 4; nonce = replicate 8 3; payload = hello }

stranger_ignored_example :
    process_frame ⦃b = documented⦄ standard_relay 11 6 state session stray ≡ (ok tt, state, [])
stranger_ignored_example =
    stranger_ignored ⦃b = documented⦄ standard_relay 11 6 state session stray
      (unfold Sessions.new in replicate_apart 15 4 9 (λ e. omega arith))
      (unfold take replicate in replicate_apart 15 4 0xee (λ e. omega arith))

abbrev shout : Frame
shout = record { session_id = take 16 echo_service_peer_id; nonce = replicate 8 3; payload = hello }

raw_echo_example :
    (length hello ≤ 1364
      → process_frame ⦃b = documented⦄ standard_relay 11 6 state session shout
        ≡ (ok tt, after 11 state session, shout ∷ []))
    × (1364 < length hello
        → process_frame ⦃b = documented⦄ standard_relay 11 6 state session shout ≡ (
          err (EchoMeshError.protocol (ProtocolError.payload_too_large (length hello) 1364)),
          after 11 state session,
          [],
        ))
raw_echo_example =
    raw_echo_lem ⦃b = documented⦄ 11 6 state session shout (ProtocolError.frame_too_short 30 2) refl
      (unfold decode_client_message Envelope.decode in refl)

abbrev answer : ServerToClientMessage
answer = ServerToClientMessage.send_message_response 7 true

abbrev answer_envelope : MessageEnvelope
answer_envelope = Server.envelope ⦃b = documented⦄ answer 1 7 6

response_wakes_once_example :
    let (r', effects) = Inbound.dispatch waiting answer_envelope answer in
    (effects ≡ wake 70 answer ∷ [])
    × (Inbound.dispatch r' answer_envelope answer ≡ (r', []))
    × ((id : ℕ) → id ≢ 7 → Maps.get id r'.pending_requests ≡ Maps.get id waiting.pending_requests)
response_wakes_once_example =
    response_wakes_once waiting answer_envelope answer 70
      (unfold ServerToClient.is_response ServerToClient.message_type MessageTypes.is_response in
        refl)
      (λ e. omega arith) (unfold Maps.get in refl)

abbrev news : ServerToClientMessage
news = ServerToClientMessage.incoming_message_event bob hello

abbrev managed : ConnectionManager
managed = bind_session (register 1 Connections.new 10 hello 4).1 1 (replicate 16 9) (some alice)

managed_maps : AreMaps managed
managed_maps =
    bind_session-AreMaps _ 1 (replicate 16 9) (some alice)
      (register-AreMaps 1 Connections.new 10 hello 4 new-AreMaps)

managed_alice : Maps.get alice managed.peer_to_conn ≡ some 1
managed_alice = unfold bind_session in get-insert_self alice 1 _

unregister_silent_example :
    (send_to_connection (λ tx. true) (unregister managed 1) 1 stray
      ≡ err (RoutingError.connection_not_found 1))
    × (Maps.get alice managed.peer_to_conn ≡ some 1
        → send_to_peer (λ tx. true) (unregister managed 1) alice stray
          ≡ err (RoutingError.peer_not_found alice))
unregister_silent_example = unregister_silent (λ tx. true) managed 1 alice stray managed_maps

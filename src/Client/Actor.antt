-- ===== src/Client/Actor.antt =====
-- The background task of `EchoMeshClient::connect` in src/client/api.rs. What `select!` picks, with
-- what the pick gives, is an event; the socket's answers are in the events, and so is what
-- `recv_frame` gives after a half-done one was dropped.
use echomesh_relay.Prelude.{
  ◌≤◌, ◌<◌, ◌≡◌, refl, ◌⊎◌, inl, inr, Bool, true, false, List, [], ◌∷◌, ◌++◌, map, ltb, ltb→lt,
  not_ltb→le, Bool-cases, length, Bytes, ByteBuf, Result, ok, err,
}
use echomesh_relay.Protocol.Error.{ProtocolError}
use echomesh_relay.Protocol.Frame.{Frame}
use echomesh_relay.Protocol.Envelope
use echomesh_relay.Protocol.Envelope.{MessageEnvelope}
use echomesh_relay.Protocol.MessageTypes
use echomesh_relay.Protocol.Messages.ServerToClient
use echomesh_relay.Protocol.Messages.ServerToClient.{Utf8, ServerToClientMessage, is_response}
use echomesh_relay.Protocol.Codec.{decode_server_message}
use echomesh_relay.Client.Inbound.{ClientInboundRouter, Effect, dispatch, handle_event}

pub data Status : Type 0 where
  running : Status
  -- The loop was left.
  finished : Status
  -- `unwrap` of an error.
  panicked : Status

pub record Task : Type 0 where
  pub status : Status
  pub router : ClientInboundRouter

pub data Event : Type 0 where
  frame_received : (frame : Frame) → Event
  stream_closed : Event
  read_failed : Event
  -- A frame from the channel, and whether the socket took it.
  frame_queued : (frame : Frame) (sent : Bool) → Event
  shutdown_changed : (shutdown : Bool) → Event

pub data Action : Type 0 where
  dispatched : (effect : Effect) → Action
  frame_sent : (frame : Frame) → Action

abbrev pub running_with : ClientInboundRouter × List Effect → Task × List Action
running_with (r, effects) = (record { status = running; router = r }, map dispatched effects)

-- `MessageEnvelope::new(..).unwrap()`, then `dispatch`.
unfoldable pub synthetic :
    ClientInboundRouter
    → ServerToClientMessage
    → Result ProtocolError MessageEnvelope
    → Task × List Action
synthetic r message (err e) = (record { status = panicked; router = r }, [])
synthetic r message (ok envelope) = running_with (dispatch r envelope message)

module _ ⦃b : ByteBuf⦄ ⦃u : Utf8⦄ where
  abbrev pub decoded_or :
      ClientInboundRouter
      → Bytes
      → Result ProtocolError (MessageEnvelope × ServerToClientMessage)
      → Task × List Action
  decoded_or r payload (ok (envelope, server_msg)) = running_with (dispatch r envelope server_msg)
  decoded_or r payload (err e) =
      let synthetic_msg = ServerToClientMessage.raw_echo_response payload in
      synthetic r synthetic_msg
        (Envelope.new (ServerToClient.message_type synthetic_msg) 0 0 0 payload)

  unfoldable pub receive : ClientInboundRouter → Frame → Task × List Action
  unfolding synthetic
  receive r frame = decoded_or r frame.payload (decode_server_message frame.payload)

  unfoldable pub select : Event → ClientInboundRouter → Task × List Action
  unfolding receive
  select (frame_received frame) r = receive r frame
  select stream_closed r = (record { status = finished; router = r }, [])
  select read_failed r = (record { status = finished; router = r }, [])
  select (frame_queued frame true) r =
      (record { status = running; router = r }, frame_sent frame ∷ [])
  select (frame_queued frame false) r = (record { status = finished; router = r }, [])
  select (shutdown_changed true) r = (record { status = finished; router = r }, [])
  select (shutdown_changed false) r = (record { status = running; router = r }, [])

  abbrev pub turn : Event → Status → ClientInboundRouter → Task × List Action
  turn event running r = select event r
  turn event finished r = (record { status = finished; router = r }, [])
  turn event panicked r = (record { status = panicked; router = r }, [])

  -- `loop { select! { .. } }`, for the events that come while it runs.
  unfoldable pub run : List Event → Task → Task × List Action
  unfolding select
  run [] t = (t, [])
  run (event ∷ more) t =
      let (t', actions) = turn event t.status t.router in
      let (t'', later) = run more t' in (t'', actions ++ later)

  run_panicked :
      (events : List Event) (r : ClientInboundRouter)
      → run events (record { status = panicked; router = r })
        ≡ (record { status = panicked; router = r }, [])
  unfolding run
  run_panicked [] r = refl
  run_panicked (event ∷ more) r = rw (run_panicked more r) refl

  -- A frame whose payload is no message of the server reaches neither a waiting request nor a
  -- handler. With at most 1364 bytes the task goes on as if it had not come; with more the task
  -- panics, and whatever comes then has no effect.
  pub raw_frame_lem :
      (frame : Frame) (r : ClientInboundRouter) (more : List Event) (e : ProtocolError)
      → decode_server_message frame.payload ≡ err e
      → let t : Task = record { status = running; router = r } in
        ((length frame.payload ≤ 1364) × (run (frame_received frame ∷ more) t ≡ run more t))
        ⊎ ((1364 < length frame.payload)
            × (run (frame_received frame ∷ more) t
                ≡ (record { status = panicked; router = r }, [])))
  unfolding run select receive Envelope.new synthetic dispatch handle_event is_response
      ServerToClient.message_type MessageTypes.is_response
  raw_frame_lem frame r more e d = elim (Bool-cases (ltb 1364 (length frame.payload))) [
    | inl over ↦ inr (ltb→lt 1364 (length frame.payload) over, rw (d, over) (run_panicked more r))
    | inr fits ↦ inl (not_ltb→le 1364 (length frame.payload) fits, rw (d, fits) refl)
  ]

-- ===== src/Server/Pipeline/Echo.antt =====
-- The frames of src/server/networking/pipeline.rs that carry no message: strangers' frames, raw
-- echo, and what is dropped.
use echomesh_relay.Prelude.{
  ℕ, ◌≤◌, ◌<◌, ◌≡◌, refl, ◌≢◌, true, false, [], ◌∷◌, arith, lt→ltb, le→not_ltb, length, take,
  ByteBuf, ok, err,
}
use echomesh_relay.Protocol.Error.{ProtocolError}
use echomesh_relay.Protocol.Frame
use echomesh_relay.Protocol.Frame.{Frame, constant_time_eq}
use echomesh_relay.Protocol.Frame.Compare.{constant_time_eq_iff}
use echomesh_relay.Protocol.Envelope
use echomesh_relay.Protocol.MessageTypes.{raw_echo}
use echomesh_relay.Protocol.Versioning.{current}
use echomesh_relay.Protocol.Messages.ClientToServer
use echomesh_relay.Protocol.Messages.ClientToServer.{ClientToServerMessage}
use echomesh_relay.Protocol.Codec.{decode_client_message}
use echomesh_relay.Server.Sessions.{Session}
use echomesh_relay.Server.Handlers.{ServerInboundRouter, standard_relay, dispatch_standard}
use echomesh_relay.Server.Pipeline.{State, process_frame, echo_service_peer_id, protocol}
use echomesh_relay.Server.Pipeline.Answers.{after}

module _ ⦃b : ByteBuf⦄ where
  -- A frame that is neither of the session nor for the echo service is dropped: no frame goes out,
  -- no error is returned and nothing changes, not even the time at which the session was last
  -- seen.
  pub stranger_ignored :
      (router : ServerInboundRouter) (now ts : ℕ) (st : State) (session : Session) (frame : Frame)
      → frame.session_id ≢ session.session_id
      → frame.session_id ≢ take 16 echo_service_peer_id
      → process_frame router now ts st session frame ≡ (ok tt, st, [])
  unfolding process_frame
  stranger_ignored router now ts st session frame n1 n2 = ground (
    arith,
    constant_time_eq_iff frame.session_id session.session_id,
    constant_time_eq_iff frame.session_id (take 16 echo_service_peer_id),
  )

  -- A payload that is no message of a client, in a frame of the session, is dropped without an
  -- answer.
  pub unparseable_dropped :
      (router : ServerInboundRouter) (now ts : ℕ) (st : State) (session : Session) (frame : Frame)
      (e : ProtocolError)
      → frame.session_id ≡ session.session_id
      → frame.session_id ≢ take 16 echo_service_peer_id
      → decode_client_message frame.payload ≡ err e
      → process_frame router now ts st session frame ≡ (ok tt, after now st session, [])
  unfolding process_frame
  unparseable_dropped router now ts st session frame e h n d =
      let other : constant_time_eq frame.session_id (take 16 echo_service_peer_id) ≡ false =
        ground (arith, constant_time_eq_iff frame.session_id (take 16 echo_service_peer_id)) in
      rw (other, (constant_time_eq_iff frame.session_id session.session_id).1 h, d) refl

  -- A payload that decodes to no message of a client, sent to the echo service, comes back
  -- unchanged in one frame if it has at most 1364 bytes; with more, the call ends in an error and
  -- no frame goes out.
  pub raw_echo_lem :
      (now ts : ℕ) (st : State) (session : Session) (frame : Frame) (e : ProtocolError)
      → frame.session_id ≡ take 16 echo_service_peer_id
      → decode_client_message frame.payload ≡ err e
      → (length frame.payload ≤ 1364
          → process_frame standard_relay now ts st session frame
            ≡ (ok tt, after now st session, frame ∷ []))
        × (1364 < length frame.payload
            → process_frame standard_relay now ts st session frame ≡ (
              err (protocol (ProtocolError.payload_too_large (length frame.payload) 1364)),
              after now st session,
              [],
            ))
  unfolding process_frame Envelope.new Frame.new
  raw_echo_lem now ts st session frame e h d =
      let here : constant_time_eq frame.session_id (take 16 echo_service_peer_id) ≡ true =
        (constant_time_eq_iff frame.session_id (take 16 echo_service_peer_id)).1 h in
      (
        λ fits.
            rw (here, d, le→not_ltb 1364 (length frame.payload) fits)
              (rw
                (
                  dispatch_standard
                      (record {
                        version = current;
                        message_type = raw_echo;
                        flags = 0;
                        message_id = 0;
                        correlation_id = 0;
                        timestamp = 0;
                        payload = frame.payload;
                      })
                      (ClientToServerMessage.raw_echo frame.payload) session
                      (unfold ClientToServer.message_type in refl),
                  le→not_ltb 1394 (length frame.payload) (omega arith),
                )
                refl),
        λ over. rw (here, d, lt→ltb 1364 (length frame.payload) over) refl,
      )

-- ===== src/Server/Pipeline/Answers.antt =====
-- What the pipeline of src/server/networking/pipeline.rs answers to a message, with the standard
-- relay as its router.
use echomesh_relay.Prelude.{
  ℕ, ◌+◌, ◌^◌, ◌≤◌, ◌<◌, ◌≡◌, refl, sym, ap, ◌⊎◌, inl, inr, Bool, true, false, not, ◌&&◌, some, [],
  ◌∷◌, ◌++◌, arith, length, length-append, take, Bytes, to_be_bytes, length-to_be_bytes, AreBytes,
  ByteBuf, ok,
}
use echomesh_relay.Protocol.Frame.{Frame, constant_time_eq}
use echomesh_relay.Protocol.Frame.Compare.{constant_time_eq_iff}
use echomesh_relay.Protocol.Envelope.{MessageEnvelope}
use echomesh_relay.Protocol.Messages.ClientToServer.{ClientToServerMessage}
use echomesh_relay.Protocol.Messages.ClientToServer
use echomesh_relay.Protocol.Messages.ClientToServer.RoundTrip.{message_type-decode}
use echomesh_relay.Protocol.Messages.ClientToServer.Bounds.{decode-IsValid, decode-raw_echo}
use echomesh_relay.Protocol.Messages.ServerToClient.{ServerToClientMessage, Utf8}
use echomesh_relay.Protocol.Messages.ServerToClient
use echomesh_relay.Protocol.Messages.ServerToClient.RoundTrip.{IsValid}
use echomesh_relay.Protocol.Messages.ServerToClient.Wire.{
  length-encode_answer, length-encode_heartbeat,
}
use echomesh_relay.Protocol.Codec.{decode_client_message}
use echomesh_relay.Relay.Session.Replies.{Carries, request_ids}
use echomesh_relay.Server.Sessions.{Session, touch_session}
use echomesh_relay.Server.Handlers.{Answer, answer_to, standard_relay, dispatch_standard}
use echomesh_relay.Server.Outbound.{build_frame, build_frame_arrives, fetch_add}
use echomesh_relay.Server.Pipeline.{
  State, process_frame, echo_service_peer_id, internal_error, respond, answer,
}

-- The frame is for the session, or for the echo service.
abbrev pub IsKnown : Session → Frame → Type 0
IsKnown session frame =
    (frame.session_id ≡ session.session_id) ⊎ (frame.session_id ≡ take 16 echo_service_peer_id)

-- The answer, with the refusal of a handler turned into the error that the client sees.
abbrev or_error : Answer → ServerToClientMessage
or_error (ok (some message)) = message
or_error _ = ServerToClientMessage.error_response 500 internal_error

abbrev pub reply_to : MessageEnvelope → ClientToServerMessage → Session → ServerToClientMessage
reply_to e m s = or_error (answer_to e m s)

pub known_passes :
    (session : Session) (frame : Frame)
    → IsKnown session frame
    → (not (constant_time_eq frame.session_id (take 16 echo_service_peer_id))
        && not (constant_time_eq frame.session_id session.session_id))
      ≡ false
known_passes session frame (inl h) =
    ground (arith, constant_time_eq_iff frame.session_id session.session_id)
known_passes session frame (inr h) =
    ground (arith, constant_time_eq_iff frame.session_id (take 16 echo_service_peer_id))

abbrev pub after : ℕ → State → Session → State
after now st session = record {
  session_manager = (touch_session now st.session_manager session.session_id).0;
  msg_id_counter = st.msg_id_counter;
}

module _ ⦃b : ByteBuf⦄ where
  length-encode_error :
      (code : ℕ)
      → length (ServerToClient.encode (ServerToClientMessage.error_response code internal_error))
        ≡ 31
  unfolding ServerToClient.encode
  length-encode_error code =
      rw (b.put_int_lem 4 [] code, b.put_int_lem 2 (to_be_bytes 4 code) 25, b.put_slice_lem)
        (omega (
          arith,
          length-append (to_be_bytes 4 code ++ to_be_bytes 2 25) internal_error,
          length-append (to_be_bytes 4 code) (to_be_bytes 2 25),
          length-to_be_bytes 4 code,
          length-to_be_bytes 2 25,
        ))

  length-encode_auth :
      (success : Bool) (s : Bytes)
      → length (ServerToClient.encode (ServerToClientMessage.auth_response success s))
        ≡ 1 + length s
  unfolding ServerToClient.encode
  length-encode_auth success s =
      rw (b.put_int_lem, b.put_slice_lem)
        (omega (
          arith,
          length-append (to_be_bytes 1 (ServerToClient.flag success)) s,
          length-to_be_bytes 1 (ServerToClient.flag success),
        ))

  length-encode_accepted :
      (s p : Bytes)
      → length (ServerToClient.encode (ServerToClientMessage.connection_accepted s p))
        ≡ length s + length p
  unfolding ServerToClient.encode
  length-encode_accepted s p = rw (b.put_slice_lem [] s, b.put_slice_lem s p) (length-append s p)

  length-encode_echo :
      (p : Bytes)
      → length (ServerToClient.encode (ServerToClientMessage.raw_echo_response p)) ≡ length p
  unfolding ServerToClient.encode
  length-encode_echo p = rw (b.put_slice_lem [] p) refl

  answered_by :
      (ts : ℕ) (st : State) (session : Session) (e : MessageEnvelope) (m : ClientToServerMessage)
      (f : Frame)
      → build_frame st.msg_id_counter ts session.session_id e.message_id (reply_to e m session)
        ≡ (ok f, fetch_add st.msg_id_counter)
      → answer ts st session e (answer_to e m session)
        ≡ (ok tt, record st { msg_id_counter = fetch_add st.msg_id_counter }, f ∷ [])
  unfolding answer respond
  answered_by ts st session e (ClientToServerMessage.raw_echo p) f h = rw h refl
  answered_by ts st session e _ f h = rw h refl

  module _ ⦃u : Utf8⦄ where
    reply_fits :
        (e : MessageEnvelope) (m : ClientToServerMessage) (s : Session)
        → u.is_utf8 internal_error ≡ true
        → length s.session_id ≡ 16
        → e.message_id < 2 ^ 64
        → length e.payload ≤ 1364
        → AreBytes e.payload
        → ClientToServer.decode e.message_type e.payload ≡ ok m
        → IsValid (reply_to e m s) × (length (ServerToClient.encode (reply_to e m s)) ≤ 1364)
    reply_fits e (ClientToServerMessage.auth_request token version) s text hs hm hp v h =
        (hs, omega (arith, length-encode_auth true s.session_id))
    reply_fits e (ClientToServerMessage.connect_request p) s text hs hm hp v h =
        let hp = decode-IsValid e.message_type e.payload _ v h in
        ((hs, hp), omega (arith, length-encode_accepted s.session_id p))
    reply_fits e (ClientToServerMessage.send_message r p) s text hs hm hp v h =
        (hm, omega (arith, length-encode_answer e.message_id true))
    reply_fits e (ClientToServerMessage.heartbeat n) s text hs hm hp v h =
        (decode-IsValid e.message_type e.payload _ v h, omega (arith, length-encode_heartbeat n))
    reply_fits e (ClientToServerMessage.raw_echo p) s text hs hm hp v h = (
      tt,
      omega (arith, length-encode_echo p, ap length (decode-raw_echo e.message_type e.payload p h)),
    )
    reply_fits e _ s text hs hm hp v h =
        ((omega arith, text), omega (arith, length-encode_error 500))

    -- A message that decodes, in a frame of the session or of the echo service, is answered by
    -- exactly one frame: the answer of the standard relay or, where it refuses the type, the error
    -- 500. The frame is of the session, bears the next number of the counter and is correlated to
    -- the request; and the session is touched.
    pub structured_answered :
        (now ts : ℕ) (st : State) (session : Session) (frame : Frame) (e : MessageEnvelope)
        (m : ClientToServerMessage)
        → u.is_utf8 internal_error ≡ true
        → IsKnown session frame
        → length session.session_id ≡ 16
        → st.msg_id_counter < 2 ^ 64
        → ts < 2 ^ 64
        → AreBytes frame.payload
        → decode_client_message frame.payload ≡ ok (e, m)
        → (f : Frame) × (process_frame standard_relay now ts st session frame ≡ (
          ok tt,
          record (after now st session) { msg_id_counter = fetch_add st.msg_id_counter },
          f ∷ [],
        ))
          × Carries f session.session_id (reply_to e m session) st.msg_id_counter e.message_id ts
    unfolding process_frame
    structured_answered now ts st session frame e m text known hs hc ht bytes h =
        let (ids, size, inner, read) = request_ids frame.payload e m bytes h in
        let (valid, fits) = reply_fits e m session text hs ids.message_id_lt size read inner in
        let (f, built, carries) =
          build_frame_arrives st.msg_id_counter ts e.message_id session.session_id
            (reply_to e m session) valid
            (record {
              message_id_lt = hc;
              correlation_id_lt = ids.message_id_lt;
              timestamp_lt = ht;
            })
            hs fits in
        let typed : e.message_type ≡ ClientToServer.message_type m =
          sym (message_type-decode e.message_type e.payload m inner) in
        (
          f,
          rw (known_passes session frame known, h, dispatch_standard e m session typed)
              (answered_by ts (after now st session) session e m f built),
          carries,
        )

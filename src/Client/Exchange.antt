-- ===== src/Client/Exchange.antt =====
-- A request of src/client through the pipeline of src/server, and back to the one who waits for it.
use echomesh_relay.Prelude.{
  ℕ, ◌^◌, ◌≤◌, ◌<◌, ◌≡◌, refl, sym, subst, inl, inr, true, [], ◌∷◌, ◌++◌, arith, length, replicate,
  length-replicate, Bytes, to_be_bytes, AreBytes, AreBytes-append, AreBytes-to_be_bytes, ByteBuf,
  ok,
}
use echomesh_relay.Maps.{nat_eq}
use echomesh_relay.Maps.Laws.{get-insert_self}
use echomesh_relay.Protocol.Frame.{Frame}
use echomesh_relay.Protocol.MessageTypes
use echomesh_relay.Protocol.Versioning
use echomesh_relay.Protocol.Envelope.{MessageEnvelope}
use echomesh_relay.Protocol.Envelope.Wire.{AreIds, wire}
use echomesh_relay.Protocol.Messages.ClientToServer
use echomesh_relay.Protocol.Messages.ClientToServer.{ClientToServerMessage}
use echomesh_relay.Protocol.Messages.ClientToServer.RoundTrip.{IsValid}
use echomesh_relay.Protocol.Messages.ServerToClient
use echomesh_relay.Protocol.Messages.ServerToClient.{Utf8, ServerToClientMessage, is_response}
use echomesh_relay.Protocol.Codec.{decode_server_message}
use echomesh_relay.Protocol.Codec.Client
use echomesh_relay.Protocol.Codec.Server
use echomesh_relay.Relay.Session.Replies.{new_fields}
use echomesh_relay.Server.Sessions.{Session}
use echomesh_relay.Server.Handlers.{standard_relay}
use echomesh_relay.Server.Outbound.{fetch_add}
use echomesh_relay.Server.Pipeline.{State, process_frame, internal_error}
use echomesh_relay.Server.Pipeline.Answers.{reply_to, after, structured_answered}
use echomesh_relay.Client.Inbound.{
  ClientInboundRouter, register_pending, dispatch, wake, response_wakes_once,
}
use echomesh_relay.Client.Outbound.{send_message, send_frame}

pub wire-AreBytes : (e : MessageEnvelope) → AreBytes e.payload → AreBytes (wire e)
wire-AreBytes e v = field 1 (Versioning.to_u8 e.version) _ (
    field 1 (MessageTypes.to_u8 e.message_type) _ (
      field 2 e.flags _ (
        field 8 e.message_id _ (
          field 8 e.correlation_id _
            (field 8 e.timestamp _ (field 2 (length e.payload) e.payload v))))))
  where
    field : (w n : ℕ) (ys : Bytes) → AreBytes ys → AreBytes (to_be_bytes w n ++ ys)
    field w n ys h = AreBytes-append (to_be_bytes w n) ys (AreBytes-to_be_bytes w n) h

reply-is_response :
    (e : MessageEnvelope) (m : ClientToServerMessage) (s : Session)
    → is_response (reply_to e m s) ≡ true
unfolding is_response ServerToClient.message_type MessageTypes.is_response
reply-is_response e (ClientToServerMessage.raw_echo p) s = refl
reply-is_response e _ s = refl

module _ ⦃b : ByteBuf⦄ where
  module _ ⦃u : Utf8⦄ where
    -- What a client asks is answered to the one who asked: a message of at most 1364 bytes, in a
    -- frame of the session that the pipeline serves, gets the client's next number, which is not
    -- 0; the pipeline answers it by one frame; the client decodes that frame; and the answer wakes
    -- the channel that is registered for the number.
    pub request_answered :
        (counter ts now ts' channel : ℕ) (session : Session) (st : State) (r : ClientInboundRouter)
        (m : ClientToServerMessage)
        → u.is_utf8 internal_error ≡ true
        → IsValid m
        → AreBytes (ClientToServer.encode m)
        → length (ClientToServer.encode m) ≤ 1364
        → 0 < counter
        → counter < 2 ^ 64
        → ts < 2 ^ 64
        → ts' < 2 ^ 64
        → st.msg_id_counter < 2 ^ 64
        → length session.session_id ≡ 16
        → let reply = reply_to (Client.envelope m counter 0 ts) m session in
          let answered = Server.envelope reply st.msg_id_counter counter ts' in
          (f g : Frame) × (send_message true counter ts session.session_id m
            ≡ (ok (counter, f), fetch_add counter))
          × (process_frame standard_relay now ts' st session f ≡ (
            ok tt,
            record (after now st session) { msg_id_counter = fetch_add st.msg_id_counter },
            g ∷ [],
          ))
          × (decode_server_message g.payload ≡ ok (answered, reply))
          × ((dispatch (register_pending r counter channel).0 answered reply).1
              ≡ wake channel reply ∷ [])
    unfolding send_message send_frame register_pending
    request_answered counter ts now ts' channel session st r m text v bytes size pos hc ht ht' hs
          h =
        let e = Client.envelope m counter 0 ts in
        let ids : AreIds counter 0 ts = record {
          message_id_lt = hc;
          correlation_id_lt = omega arith;
          timestamp_lt = ht;
        } in
        elim (Client.encode_client_message_cases m counter 0 ts ids) [
          | inr (over, _) ↦ absurd (omega arith)
          | inl (_, written) ↦
              let (f, made, _, decoded) =
                Client.client_message_arrives m counter 0 ts session.session_id (replicate 8 0)
                  (wire e) [] v ids h (length-replicate 8 0) written in
              let (same, _, payload) =
                new_fields session.session_id (replicate 8 0) (wire e) f made in
              let (g, ran, carries) =
                structured_answered now ts' st session f e m text (inl same) h hs ht'
                  (subst AreBytes (sym payload) (wire-AreBytes e bytes)) decoded in
              (
                f,
                g,
                rw (written, made) refl,
                ran,
                carries.1,
                (response_wakes_once (register_pending r counter channel).0
                    (Server.envelope (reply_to e m session) st.msg_id_counter counter ts')
                    (reply_to e m session) channel (reply-is_response e m session)
                    (λ zero. absurd (omega arith))
                    (get-insert_self counter channel r.pending_requests)).0,
              )
        ]

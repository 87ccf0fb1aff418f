-- ===== src/Client/Outbound.antt =====
-- src/client/routing/outbound_router.rs: numbered requests in frames. The counter is passed along;
-- the time of the day is an argument, and so is whether the write channel is open.
use echomesh_relay.Prelude.{
  ℕ, ◌+◌, ◌%◌, ◌^◌, Bool, true, false, replicate, Bytes, ByteBuf, Result, ◌>>=◌, map_err, ok, err,
}
use echomesh_relay.Protocol.Error.{RoutingError}
use echomesh_relay.Protocol.Frame
use echomesh_relay.Protocol.Frame.{Frame}
use echomesh_relay.Protocol.Messages.ClientToServer.{ClientToServerMessage}
use echomesh_relay.Protocol.Codec.{encode_client_message}

unfoldable pub next_message_id : ℕ → ℕ × ℕ
next_message_id counter = (counter, (counter + 1) % 2 ^ 64)

-- `outbound_tx.send(frame).await.map_err(..)`: the frame, where it was put in the channel.
unfoldable pub send_frame : Bool → Frame → Result RoutingError Frame
send_frame true frame = ok frame
send_frame false frame = err RoutingError.channel_closed

module _ ⦃b : ByteBuf⦄ where
  -- The number of the message and the frame that was queued, and the counter afterwards.
  unfoldable pub send_message :
      Bool → ℕ → ℕ → Bytes → ClientToServerMessage → Result RoutingError (ℕ × Frame) × ℕ
  unfolding next_message_id
  send_message is_open counter timestamp session_id message =
      let (msg_id, counter') = next_message_id counter in
      (
        do
          encoded_bytes ←
              map_err RoutingError.handler_failed (encode_client_message message msg_id 0 timestamp)
          frame ←
              map_err RoutingError.handler_failed
                (Frame.new session_id (replicate 8 0) encoded_bytes)
          frame' ← send_frame is_open frame
          ok (msg_id, frame'),
        counter',
      )

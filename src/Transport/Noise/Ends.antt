-- ===== src/Transport/Noise/Ends.antt =====
-- How the loop of a session of src/server/listener.rs ends, over src/transport/noise.rs.
use echomesh_relay.Prelude.{
  ℕ, ◌+◌, ◌*◌, ◌≤◌, ◌<◌, ◌≡◌, refl, ap, ◌≢◌, Bool, true, false, Option, none, some, List, [], ◌∷◌,
  ◌++◌, arith, length, take, drop, length-drop, Bytes, to_be_bytes, from_be, ByteBuf, Result, ◌>>=◌,
  >>=-eq-ok, ok, err,
}
use echomesh_relay.Protocol.Frame.{Frame}
use echomesh_relay.Protocol.Frame.Wire.{IsValid}
use echomesh_relay.Transport.Noise.{
  Snow, NoiseError, encrypt_frame, decrypt_frame, recv_frame, running, failed, Pick, inbound,
  outbound, session_loop, after_recv, after_send,
}
use echomesh_relay.Transport.Noise.Arrives.{inbounds, one_packet}

module _ (c : Snow) ⦃b : ByteBuf⦄ where
  shorter :
      (s s' : c.TransportState) (stream rest : Bytes) (f : Frame)
      → recv_frame c s stream ≡ ok (some (f, s', rest))
      → length rest < length stream
  unfolding recv_frame
  shorter s s' stream rest f e =
      let n = from_be 0 (take 2 stream) in
      let body : Bytes = drop 2 stream in
      let next : Frame × c.TransportState
          → Result NoiseError (Option (Frame × c.TransportState × Bytes)) =
        λ (frame, t). ok (some (frame, t, drop n body)) in
      let chain : (decrypt_frame c s (take n body) >>= next) ≡ ok (some (f, s', rest)) =
        ground arith in
      let long : 2 ≤ length stream = ground arith in
      let (x, opens, same) = >>=-eq-ok (decrypt_frame c s (take n body)) next chain in
      let left : drop n body ≡ rest = cc in
      omega (arith, ap length left, length-drop n body, length-drop 2 stream)

  -- The loop of a session ends on every stream, whatever comes from the channel between and whatever
  -- bytes are lost by it: when more frames were read than the stream has bytes, the loop was left.
  pub session_loop_ends :
      (picks : List Pick) (s : c.TransportState) (stream : Bytes)
      → length stream < inbounds picks
      → (session_loop c picks s stream).ended ≢ running
  unfolding session_loop
  session_loop_ends [] s stream h = absurd (omega arith)
  session_loop_ends (inbound ∷ more) s stream h =
      by_result (recv_frame c s stream) refl
        (λ s' rest less. session_loop_ends more s' rest (omega arith))
    where
      by_result :
          (q : Result NoiseError (Option (Frame × c.TransportState × Bytes)))
          → recv_frame c s stream ≡ q
          → ((s' : c.TransportState) (rest : Bytes)
              → length rest < length stream
              → (session_loop c more s' rest).ended ≢ running)
          → (after_recv c (session_loop c more) q).ended ≢ running
      by_result (err x) e later = λ w. cc
      by_result (ok none) e later = λ w. cc
      by_result (ok (some (frame, s', rest))) e later =
          later s' rest (shorter s s' stream rest frame e)
  session_loop_ends (outbound taken g is_written ∷ more) s stream h =
      by_sent (encrypt_frame c s g) is_written (λ s'.
        session_loop_ends more s' (drop taken stream) (omega (arith, length-drop taken stream)))
    where
      by_sent :
          (q : Result NoiseError (Bytes × c.TransportState)) (sent : Bool)
          → ((s' : c.TransportState) → (session_loop c more s' (drop taken stream)).ended ≢ running)
          → (after_send c (λ s'. session_loop c more s' (drop taken stream)) sent q).ended ≢ running
      by_sent (err x) sent later = λ w. cc
      by_sent (ok (packet, s')) false later = λ w. cc
      by_sent (ok (packet, s')) true later = later s'

  -- Behind the first byte of a packet there stands no length.
  recv_behind_one :
      (r : c.TransportState) (x rest : Bytes)
      → length x ≡ 1436
      → (size : ℕ) × (recv_frame c r (drop 1 ((to_be_bytes 2 1436 ++ x) ++ rest))
          ≡ err (NoiseError.bad_message_size 1436 size))
  recv_behind_one r [] rest len = absurd (omega (arith, len))
  recv_behind_one r (y ∷ x) rest len =
      (156 * 256 + y, unfold recv_frame to_be_bytes drop take from_be in ground arith)

  -- For two valid frames, and two sessions with a nonce left each: a frame of the channel that is
  -- picked when `recv_frame` has taken the first byte of a packet, and is written, costs the
  -- session. The next read fails for the message's size, and the frame that the packet holds is
  -- never received, nor anything behind it.
  pub half_read_lost :
      (s r : c.TransportState) (f g : Frame) (rest : Bytes) (more : List Pick)
      → IsValid f
      → IsValid g
      → c.HasLeft 1 s
      → c.HasLeft 1 r
      → (packet : Bytes) × (s' : c.TransportState) × (size : ℕ) × (encrypt_frame c s f
          ≡ ok (packet, s'))
        × let run = session_loop c (outbound 1 g true ∷ inbound ∷ more) r (packet ++ rest) in
          (run.received ≡ []) × (run.ended ≡ failed (NoiseError.bad_message_size 1436 size))
  half_read_lost s r f g rest more v w left room =
      let (x, s', _, sent, _, len) = one_packet c 0 s f v left in
      let (y, r', _, written, _, _) = one_packet c 0 r g w room in
      let (size, refused) = recv_behind_one r' x rest len in
      (
        to_be_bytes 2 1436 ++ x,
        s',
        size,
        sent,
        (
          unfold session_loop in rw (written, refused) refl,
          unfold session_loop in rw (written, refused) refl,
        ),
      )

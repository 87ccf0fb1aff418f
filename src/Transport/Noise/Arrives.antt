-- ===== src/Transport/Noise/Arrives.antt =====
-- Frames through the encrypted stream of src/transport/noise.rs.
use echomesh_relay.Prelude.{
  ℕ, suc, ◌*◌, ◌%◌, ◌^◌, ◌<◌, ◌≡◌, refl, true, false, some, List, [], ◌∷◌, ◌++◌, append_assoc,
  arith, ltb, le→not_ltb, length, length-append, drop, take-append, drop-append, Bytes, to_be_bytes,
  length-to_be_bytes, from_be-to_be_bytes, ByteBuf, ok,
}
use echomesh_relay.Protocol.Frame.{Frame}
use echomesh_relay.Protocol.Frame.Wire.{IsValid, wire, length-wire, encode-wire, from_slice-wire}
use echomesh_relay.Protocol.Frame.Stream.{AllValid}
use echomesh_relay.Transport.Noise.{
  Snow, framed, encrypt_frame, opened, decrypt_frame, recv_frame, send_all, stream_closed, Pick,
  inbound, outbound, session_loop,
}

-- How many frames are read by the picks.
abbrev pub inbounds : List Pick → ℕ
inbounds [] = 0
inbounds (inbound ∷ more) = suc (inbounds more)
inbounds (outbound taken frame is_written ∷ more) = inbounds more

abbrev pub outbounds : List Pick → ℕ
outbounds [] = 0
outbounds (inbound ∷ more) = outbounds more
outbounds (outbound taken frame is_written ∷ more) = suc (outbounds more)

-- Frames of the channel are valid, they are written, and none is picked while a `recv_frame` has
-- taken bytes.
abbrev pub IsUndisturbed : List Pick → Type 0
IsUndisturbed [] = Unit {0}
IsUndisturbed (inbound ∷ more) = IsUndisturbed more
IsUndisturbed (outbound taken frame is_written ∷ more) =
    (taken ≡ 0) × IsValid frame × (is_written ≡ true) × IsUndisturbed more

drop_none : (s : Bytes) → drop 0 s ≡ s
unfolding drop
drop_none s = refl

module _ (c : Snow) ⦃b : ByteBuf⦄ where
  -- A valid frame is written as its length in two bytes and 1436 bytes of cipher text.
  pub one_packet :
      (n : ℕ) (s : c.TransportState) (f : Frame)
      → IsValid f
      → c.HasLeft (suc n) s
      → (x : Bytes) × (s' : c.TransportState) × (c.write_message s (wire f) ≡ some (x, s'))
        × (encrypt_frame c s f ≡ ok (to_be_bytes 2 1436 ++ x, s'))
        × c.HasLeft n s'
        × (length x ≡ 1436)
  one_packet n s f v left =
      let size = length-wire f v in
      let (x, s', written, left', grown) = c.write_lem n s (wire f) left (omega arith) in
      let len : length x ≡ 1436 = omega arith in
      let header : length x % 2 ^ 16 ≡ 1436 = rw len refl in
      (
        x,
        s',
        written,
        unfold encrypt_frame framed in rw (encode-wire f [] v, written, header) refl,
        left',
        len,
      )

  -- A frame and the packet it travels in: 1438 bytes, from which the other side reads the frame.
  one_frame :
      (n : ℕ) (s r : c.TransportState) (f : Frame)
      → IsValid f
      → c.HasLeft (suc n) s
      → c.InStep s r
      → (packet : Bytes) × (s' : c.TransportState) × (r' : c.TransportState) × (encrypt_frame c s f
          ≡ ok (packet, s'))
        × c.HasLeft n s'
        × c.InStep s' r'
        × (length packet ≡ 1438)
        × ((rest : Bytes) → recv_frame c r (packet ++ rest) ≡ ok (some (f, r', rest)))
        × ((m : ℕ) → c.HasLeft m r → c.HasLeft m r')
  one_frame n s r f v left step =
      let (x, s', written, sent, left', len) = one_packet n s f v left in
      let (r', read, step') = c.read_lem s r (wire f) x s' step written in
      let two = length-to_be_bytes 2 1436 in
      (
        to_be_bytes 2 1436 ++ x,
        s',
        r',
        sent,
        left',
        step',
        omega (arith, length-append (to_be_bytes 2 1436) x),
        λ rest.
            let tail : Bytes = x ++ rest in
            let whole : (to_be_bytes 2 1436 ++ x) ++ rest ≡ to_be_bytes 2 1436 ++ tail =
              append_assoc (to_be_bytes 2 1436) x rest in
            let long : ltb (length (to_be_bytes 2 1436 ++ tail)) 2 ≡ false =
              le→not_ltb _ 2 (omega (arith, length-append (to_be_bytes 2 1436) tail)) in
            let there : ltb (length tail) 1436 ≡ false =
              le→not_ltb (length tail) 1436 (omega (arith, length-append x rest)) in
            unfold recv_frame decrypt_frame opened in
            rw
              (
                whole,
                take-append 2 (to_be_bytes 2 1436) tail two,
                drop-append 2 (to_be_bytes 2 1436) tail two,
                from_be-to_be_bytes 2 1436 (omega arith),
                long,
                there,
                take-append 1436 x rest len,
                drop-append 1436 x rest len,
                read,
                from_slice-wire f v,
              )
              refl,
        λ m has. c.read_keeps m r x (wire f) r' has read,
      )

  -- Sessions in step, with nonces left for the frames of both directions, and valid frames: what
  -- one side sends is what the other side's loop receives, each frame once and in order, and then
  -- the stream ends, when the loop reads more often than there are frames. The loop's own frames
  -- from the channel may come between, as long as they are valid, are written, and none is picked
  -- while a frame is half read.
  pub frames_arrive :
      (fs : List Frame) (s r : c.TransportState) (picks : List Pick)
      → AllValid fs
      → c.HasLeft (length fs) s
      → c.InStep s r
      → IsUndisturbed picks
      → c.HasLeft (outbounds picks) r
      → length fs < inbounds picks
      → (packets : Bytes) × (s' : c.TransportState) × (send_all c s fs ≡ ok (packets, s'))
        × (length packets ≡ 1438 * length fs)
        × ((session_loop c picks r packets).received ≡ fs)
        × ((session_loop c picks r packets).ended ≡ stream_closed)
  unfolding send_all session_loop
  frames_arrive fs s r [] v left step calm room h = absurd (omega arith)
  frames_arrive [] s r (inbound ∷ more) v left step calm room h =
      ([], s, refl, omega arith, unfold recv_frame in refl, unfold recv_frame in refl)
  frames_arrive (f ∷ fs) s r (inbound ∷ more) v left step calm room h =
      let (packet, s', r', sent, left', step', size, received, keeps) =
        one_frame (length fs) s r f v.0 left step in
      let (packets, s'', all_sent, all_size, all_received, closed) =
        frames_arrive fs s' r' more v.1 left' step' calm (keeps (outbounds more) room)
          (omega arith) in
      (
        packet ++ packets,
        s'',
        rw (sent, all_sent) refl,
        omega (arith, length-append packet packets),
        rw (received packets, all_received) refl,
        rw (received packets, closed) refl,
      )
  frames_arrive fs s r (outbound taken g is_written ∷ more) v left step (none_taken, w, there, calm)
        room h =
      let (x, r', written, sent, room', len) = one_packet (outbounds more) r g w room in
      let (packets, s', all_sent, size, received, closed) =
        frames_arrive fs s r' more v left (c.write_keeps s r (wire g) x r' step written) calm room'
          h in
      (
        packets,
        s',
        all_sent,
        size,
        rw (sent, there, none_taken, drop_none packets, received) refl,
        rw (sent, there, none_taken, drop_none packets, closed) refl,
      )

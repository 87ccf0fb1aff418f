-- ===== src/Transport/Noise.antt =====
-- `NoiseSession` and `NoiseFramedStream` of src/transport/noise.rs. The `snow` crate's transport
-- state is a parameter; a stream is the bytes that are still to be read.
pub mod Arrives
pub mod Ends
use echomesh_relay.Prelude.{
  ℕ, suc, ◌+◌, ◌%◌, ◌^◌, ◌≤◌, ◌≡◌, Bool, true, false, Option, none, some, List, [], ◌∷◌, ◌++◌, ltb,
  if◌then◌else◌, length, take, drop, Bytes, to_be_bytes, from_be, ByteBuf, Result, map_err, ◌>>=◌,
  ok, err,
}
use echomesh_relay.Protocol.Error.{ProtocolError}
use echomesh_relay.Protocol.Frame.{Frame, encode, from_slice, frame_size}

abbrev pub noise_tag_len : ℕ
noise_tag_len = 16

abbrev pub encrypted_frame_size : ℕ
encrypted_frame_size = frame_size + noise_tag_len

-- `snow::TransportState`, by its documentation. Of two states that are in step the one reads what
-- the other wrote, in order; a message grows by its tag; a state has a number of messages left
-- until its nonces are used up, and a message has at most 65535 bytes. A state has a cipher and a
-- nonce for each direction: writing changes nothing for reading, nor reading for writing.
pub record Snow : Type 1 where
  pub TransportState : Type 0
  pub InStep : TransportState → TransportState → Type 0
  pub HasLeft : ℕ → TransportState → Type 0
  pub write_message : TransportState → Bytes → Option (Bytes × TransportState)
  pub read_message : TransportState → Bytes → Option (Bytes × TransportState)
  pub write_lem :
      (n : ℕ) (s : TransportState) (p : Bytes)
      → HasLeft (suc n) s
      → length p + 16 ≤ 65535
      → (c : Bytes) × (s' : TransportState) × (write_message s p ≡ some (c, s'))
        × HasLeft n s'
        × (length c ≡ length p + 16)
  pub read_lem :
      (s r : TransportState) (p c : Bytes) (s' : TransportState)
      → InStep s r
      → write_message s p ≡ some (c, s')
      → (r' : TransportState) × (read_message r c ≡ some (p, r')) × InStep s' r'
  pub write_keeps :
      (s r : TransportState) (p c : Bytes) (r' : TransportState)
      → InStep s r
      → write_message r p ≡ some (c, r')
      → InStep s r'
  pub read_keeps :
      (n : ℕ) (r : TransportState) (c p : Bytes) (r' : TransportState)
      → HasLeft n r
      → read_message r c ≡ some (p, r')
      → HasLeft n r'

-- The variants of `NoiseError` that the modelled code returns.
pub data NoiseError : Type 0 where
  snow : NoiseError
  io : NoiseError
  protocol : ProtocolError → NoiseError
  bad_message_size : ℕ → ℕ → NoiseError

-- How a session's loop stands: it waits, or it was left.
pub data End : Type 0 where
  running : End
  stream_closed : End
  failed : NoiseError → End
  send_failed : End

-- What `select!` picks: a frame that is read, or a frame from the channel, when the half-done
-- `recv_frame` that is dropped has taken some bytes of the stream, and whether it was written.
pub data Pick : Type 0 where
  inbound : Pick
  outbound : (taken : ℕ) (frame : Frame) (written : Bool) → Pick

-- The frames that were received, the bytes that were written, and how the loop stands.
pub record Exchanged : Type 0 where
  pub received : List Frame
  pub written : Bytes
  pub ended : End

abbrev pub stopped : End → Exchanged
stopped e = record { received = []; written = []; ended = e }

module _ (snow_crate : Snow) where
  abbrev pub NoiseSession : Type 0
  NoiseSession = snow_crate.TransportState

  -- `write_message(..)?` and the length in front.
  unfoldable pub framed : Option (Bytes × NoiseSession) → Result NoiseError (Bytes × NoiseSession)
  framed none = err NoiseError.snow
  framed (some (cipher_text, s)) =
      ok (to_be_bytes 2 (length cipher_text % 2 ^ 16) ++ cipher_text, s)

  module _ ⦃b : ByteBuf⦄ where
    unfoldable pub encrypt_frame : NoiseSession → Frame → Result NoiseError (Bytes × NoiseSession)
    unfolding framed
    encrypt_frame s frame =
        let (encoded, raw_frame) = encode frame [] in
        map_err NoiseError.protocol encoded >>= λ _. framed (snow_crate.write_message s raw_frame)

    unfoldable pub opened : Option (Bytes × NoiseSession) → Result NoiseError (Frame × NoiseSession)
    opened none = err NoiseError.snow
    opened (some (plain_buf, s)) =
        map_err NoiseError.protocol (from_slice plain_buf) >>= λ frame. ok (frame, s)

    unfoldable pub decrypt_frame : NoiseSession → Bytes → Result NoiseError (Frame × NoiseSession)
    unfolding opened
    decrypt_frame s cipher_text = opened (snow_crate.read_message s cipher_text)

    -- `Ok(None)` at the end of the stream; else the frame, the session and the rest of the stream.
    unfoldable pub recv_frame :
        NoiseSession → Bytes → Result NoiseError (Option (Frame × NoiseSession × Bytes))
    unfolding decrypt_frame
    recv_frame s stream =
        let len = from_be 0 (take 2 stream) in
        let rest = drop 2 stream in
        if ltb (length stream) 2
        then ok none
        else if ltb encrypted_frame_size len
        then err (NoiseError.bad_message_size encrypted_frame_size len)
        else if ltb (length rest) len
        then err NoiseError.io
        else (decrypt_frame s (take len rest) >>= λ (frame, s').
            ok (some (frame, s', drop len rest)))

    -- `send_frame` for each, onto one stream.
    unfoldable pub send_all : NoiseSession → List Frame → Result NoiseError (Bytes × NoiseSession)
    unfolding encrypt_frame
    send_all s [] = ok ([], s)
    send_all s (frame ∷ frames) = encrypt_frame s frame >>= λ (packet, s').
        send_all s' frames >>= λ (packets, s''). ok (packet ++ packets, s'')

  module _ ⦃b : ByteBuf⦄ where
    abbrev pub after_recv :
        (NoiseSession → Bytes → Exchanged)
        → Result NoiseError (Option (Frame × NoiseSession × Bytes))
        → Exchanged
    after_recv more (err e) = stopped (failed e)
    after_recv more (ok none) = stopped stream_closed
    after_recv more (ok (some (frame, s, rest))) =
        let later = more s rest in record later { received = frame ∷ later.received }

    abbrev pub after_send :
        (NoiseSession → Exchanged) → Bool → Result NoiseError (Bytes × NoiseSession) → Exchanged
    after_send more is_written (err e) = stopped send_failed
    after_send more false (ok (packet, s)) = stopped send_failed
    after_send more true (ok (packet, s)) =
        let later = more s in record later { written = packet ++ later.written }

    -- `loop { tokio::select! { .. } }` of a session, for the picks that are made while it runs. Both
    -- arms use the one session state; the stream is what has still to be read up to its end.
    unfoldable pub session_loop : List Pick → NoiseSession → Bytes → Exchanged
    unfolding recv_frame encrypt_frame
    session_loop [] s stream = stopped running
    session_loop (inbound ∷ more) s stream = after_recv (session_loop more) (recv_frame s stream)
    session_loop (outbound taken frame is_written ∷ more) s stream =
        after_send (λ s'. session_loop more s' (drop taken stream)) is_written
          (encrypt_frame s frame)

-- ===== src/Protocol/Frame.antt =====
-- src/protocol/frame.rs: the 1420-byte frame and its codec. A `&mut BytesMut` goes in as an
-- argument and comes back beside the result.
pub mod Wire
pub mod Stream
pub mod Compare
use echomesh_relay.Prelude.{
  ℕ, ◌-◌, ◌%◌, ◌^◌, ◌==◌, bit_or, bit_xor, Bool, true, false, not, Option, none, some, List, [],
  ◌∷◌, Bytes, ByteBuf, Result, ok, err, length, take, put_u16, put_slice, put_bytes, get_u16,
  advance, split_to, ltb, if◌then◌else◌,
}
use echomesh_relay.Protocol.Error.{ProtocolError}

abbrev pub frame_size : ℕ
frame_size = 1420

abbrev pub session_id_size : ℕ
session_id_size = 16

abbrev pub nonce_size : ℕ
nonce_size = 8

abbrev pub payload_len_size : ℕ
payload_len_size = 2

abbrev pub header_size : ℕ
header_size = 26

abbrev pub max_payload_size : ℕ
max_payload_size = frame_size - header_size

pub record Frame : Type 0 where
  pub session_id : Bytes
  pub nonce : Bytes
  pub payload : Bytes

unfoldable pub new : Bytes → Bytes → Bytes → Result ProtocolError Frame
new session_id nonce payload =
    if ltb max_payload_size (length payload)
    then err (ProtocolError.payload_too_large (length payload) max_payload_size)
    else ok (record { session_id = session_id; nonce = nonce; payload = payload })

module _ ⦃b : ByteBuf⦄ where
  pub from_slice : Bytes → Result ProtocolError Frame
  from_slice slice =
      if ltb (length slice) frame_size
      then err (ProtocolError.frame_too_short frame_size (length slice))
      else (let buf = take frame_size slice in
          let session_id = take session_id_size buf in
          let buf = advance session_id_size buf in
          let nonce = take nonce_size buf in
          let buf = advance nonce_size buf in
          let (payload_len, buf') = get_u16 buf in
          if ltb max_payload_size payload_len
          then err (ProtocolError.payload_too_large payload_len max_payload_size)
          else ok
              (record { session_id = session_id; nonce = nonce; payload = take payload_len buf' }))

  pub parse : Bytes → Result ProtocolError Frame × Bytes
  parse src =
      if ltb (length src) frame_size
      then (err (ProtocolError.frame_too_short frame_size (length src)), src)
      else (let (frame_bytes, src') = split_to frame_size src in
          let session_id = take session_id_size frame_bytes in
          let frame_bytes = advance session_id_size frame_bytes in
          let nonce = take nonce_size frame_bytes in
          let frame_bytes = advance nonce_size frame_bytes in
          let (payload_len, frame_bytes') = get_u16 frame_bytes in
          if ltb max_payload_size payload_len
          then (err (ProtocolError.payload_too_large payload_len max_payload_size), src')
          else (let (payload, padding) = split_to payload_len frame_bytes' in
              (ok (record { session_id = session_id; nonce = nonce; payload = payload }), src')))

  unfoldable pub encode : Frame → Bytes → Result ProtocolError (Unit {0}) × Bytes
  encode item dst =
      let payload_len = length item.payload in
      if ltb max_payload_size payload_len
      then (err (ProtocolError.payload_too_large payload_len max_payload_size), dst)
      else (let dst = put_slice dst item.session_id in
          let dst = put_slice dst item.nonce in
          let dst = put_u16 dst (payload_len % 2 ^ 16) in
          let dst = put_slice dst item.payload in
          let padding_needed = max_payload_size - payload_len in
          (ok tt, if ltb 0 padding_needed then put_bytes dst 0 padding_needed else dst))

  pub decode : Bytes → Result ProtocolError (Option Frame) × Bytes
  decode src =
      if ltb (length src) frame_size
      then (ok none, src)
      else (let (frame_bytes, src') = split_to frame_size src in
          let session_id = take session_id_size frame_bytes in
          let frame_bytes = advance session_id_size frame_bytes in
          let nonce = take nonce_size frame_bytes in
          let frame_bytes = advance nonce_size frame_bytes in
          let (payload_len, frame_bytes') = get_u16 frame_bytes in
          if ltb max_payload_size payload_len
          then (err (ProtocolError.payload_too_large payload_len max_payload_size), src')
          else (let (payload, padding) = split_to payload_len frame_bytes' in
              (
                ok (some (record { session_id = session_id; nonce = nonce; payload = payload })),
                src',
              )))

  -- `ok_or(FrameTooShort { .. })` measures the buffer that `decode` has left.
  ok_or_short : Result ProtocolError (Option Frame) × Bytes → Result ProtocolError Frame × Bytes
  ok_or_short (err e, src) = (err e, src)
  ok_or_short (ok (some frame), src) = (ok frame, src)
  ok_or_short (ok none, src) = (err (ProtocolError.frame_too_short frame_size (length src)), src)

  pub decode_exact : Bytes → Result ProtocolError Frame × Bytes
  unfolding ok_or_short
  decode_exact src =
      if ltb (length src) frame_size
      then (err (ProtocolError.frame_too_short frame_size (length src)), src)
      else ok_or_short (decode src)

  at_eof : Result ProtocolError (Option Frame) × Bytes → Result ProtocolError (Option Frame) × Bytes
  at_eof (err e, buf) = (err e, buf)
  at_eof (ok (some frame), buf) = (ok (some frame), buf)
  at_eof (ok none, []) = (ok none, [])
  at_eof (ok none, x ∷ buf) =
      (err (ProtocolError.frame_too_short frame_size (length (x ∷ buf))), x ∷ buf)

  pub decode_eof : Bytes → Result ProtocolError (Option Frame) × Bytes
  unfolding at_eof
  decode_eof buf = at_eof (decode buf)

-- The loop of `constant_time_eq` over the zipped bytes, with `res` so far.
fold_diff : ℕ → Bytes → Bytes → ℕ
fold_diff res [] ys = res
fold_diff res (x ∷ xs) [] = res
fold_diff res (x ∷ xs) (y ∷ ys) = fold_diff (bit_or res (bit_xor x y)) xs ys

unfoldable pub constant_time_eq : Bytes → Bytes → Bool
unfolding fold_diff
constant_time_eq x y = if not (length x == length y) then false else fold_diff 0 x y == 0

pub session_id_eq : Bytes → Bytes → Bool
session_id_eq x y = constant_time_eq x y

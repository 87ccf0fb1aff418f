-- ===== src/Protocol/Messages/ClientToServer/Bounds.antt =====
-- What `ClientToServerMessage::decode` yields has the widths of its Rust type.
use echomesh_relay.Prelude.{
  ℕ, ◌+◌, ◌^◌, ◌≤◌, ◌<◌, ◌≡◌, sym, subst, arith, length, take, drop, take-append-drop,
  length-take_of_le, length-drop, Bytes, AreBytes, AreBytes-split, ByteBuf, advance, get_u16,
  get_u32, get_int_split, ok,
}
use echomesh_relay.Protocol.MessageTypes.{MessageType}
use echomesh_relay.Protocol.Messages.ClientToServer.{ClientToServerMessage, decode}
use echomesh_relay.Protocol.Messages.ClientToServer.RoundTrip.{IsValid}

module _ ⦃b : ByteBuf⦄ where
  number_lt : (w : ℕ) (s : Bytes) → AreBytes s → w ≤ length s → (b.get_int w s).0 < 256 ^ w
  number_lt w s v h = (get_int_split w s h v).1

  version_lt :
      (s : Bytes)
      → AreBytes s
      → 2 ≤ length s
      → let (n, rest) = get_u16 s in n + 4 ≤ length rest → (get_u32 (advance n rest)).0 < 2 ^ 32
  version_lt s v h fits =
      let (n, rest) = get_u16 s in
      let (_, _, _, vr) = get_int_split 2 s h v in
      let (_, vt) =
        AreBytes-split (take n rest) (drop n rest)
          (subst AreBytes (sym (take-append-drop n rest)) vr) in
      rw (b.advance_lem n rest (omega arith))
        (number_lt 4 (drop n rest) vt (omega (arith, length-drop n rest)))

  -- A client's message that is decoded from bytes has the widths of its Rust type.
  pub decode-IsValid :
      (t : MessageType) (s : Bytes) (m : ClientToServerMessage)
      → AreBytes s
      → decode t s ≡ ok m
      → IsValid m
  unfolding decode
  decode-IsValid MessageType.ack s m v h = ground (arith, number_lt 8 s v)
  decode-IsValid MessageType.heartbeat s m v h = ground (arith, number_lt 8 s v)
  decode-IsValid MessageType.disconnect_request s m v h = ground (arith, number_lt 4 s v)
  decode-IsValid MessageType.connect_request s m v h = ground (arith, length-take_of_le 32 s)
  decode-IsValid MessageType.key_exchange s m v h = ground (arith, length-take_of_le 32 s)
  decode-IsValid MessageType.relay_request s m v h = ground (arith, length-take_of_le 32 s)
  decode-IsValid MessageType.send_message s m v h = ground (arith, length-take_of_le 32 s)
  decode-IsValid MessageType.raw_echo s m v h = ground arith
  decode-IsValid MessageType.auth_request s m v h = ground (arith, version_lt s v)
  decode-IsValid _ s m v h = ground arith

  -- The data of an echo request is the whole payload.
  pub decode-raw_echo :
      (t : MessageType) (s payload : Bytes)
      → decode t s ≡ ok (ClientToServerMessage.raw_echo payload)
      → payload ≡ s
  unfolding decode
  decode-raw_echo MessageType.raw_echo s payload h = ground arith
  decode-raw_echo _ s payload h = ground arith

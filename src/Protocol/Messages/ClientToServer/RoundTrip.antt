-- ===== src/Protocol/Messages/ClientToServer/RoundTrip.antt =====
-- `ClientToServerMessage::decode` against `encode` and `message_type`.
use native.Mathlib.Nat.{mod-eq_of_lt}
use echomesh_relay.Prelude.{
  ℕ, ◌+◌, ◌%◌, ◌^◌, ◌≤◌, ◌<◌, ◌≡◌, refl, subst, ◌↔◌, false, [], ◌++◌, append_assoc, arith, ltb,
  le→not_ltb, length, length-append, take, drop, take-append, drop-append, take_all, Bytes,
  to_be_bytes, length-to_be_bytes, ByteBuf, put_slice, put_u16, put_u32, get_int-append,
  get_int_alone, advance-append, ok, err,
}
use echomesh_relay.Protocol.Error.{ProtocolError}
use echomesh_relay.Protocol.MessageTypes.{MessageType, is_client_to_server}
use echomesh_relay.Protocol.Messages.ClientToServer.{
  ClientToServerMessage, auth_request, connect_request, disconnect_request, send_message, ack,
  heartbeat, key_exchange, relay_request, raw_echo, message_type, encode, decode,
}

-- The widths that the Rust types fix.
abbrev pub IsValid : ClientToServerMessage → Type 0
IsValid (auth_request token client_version) = client_version < 2 ^ 32
IsValid (connect_request peer_id) = length peer_id ≡ 32
IsValid (disconnect_request reason_code) = reason_code < 2 ^ 32
IsValid (send_message recipient_id payload) = length recipient_id ≡ 32
IsValid (ack acknowledged_message_id) = acknowledged_message_id < 2 ^ 64
IsValid (heartbeat sequence) = sequence < 2 ^ 64
IsValid (key_exchange ephemeral_pubkey) = length ephemeral_pubkey ≡ 32
IsValid (relay_request target_peer_id) = length target_peer_id ≡ 32
IsValid (raw_echo payload) = Unit {0}

-- The bytes of a message, which `encode` writes if the length of a token fits its two bytes.
abbrev pub wire : ClientToServerMessage → Bytes
wire (auth_request token client_version) =
    to_be_bytes 2 (length token) ++ (token ++ to_be_bytes 4 client_version)
wire (connect_request peer_id) = peer_id
wire (disconnect_request reason_code) = to_be_bytes 4 reason_code
wire (send_message recipient_id payload) = recipient_id ++ payload
wire (ack acknowledged_message_id) = to_be_bytes 8 acknowledged_message_id
wire (heartbeat sequence) = to_be_bytes 8 sequence
wire (key_exchange ephemeral_pubkey) = ephemeral_pubkey
wire (relay_request target_peer_id) = target_peer_id
wire (raw_echo payload) = payload

module _ ⦃b : ByteBuf⦄ where
  auth_written :
      (token : Bytes) (client_version : ℕ)
      → put_u32 (put_slice (put_u16 [] (length token % 2 ^ 16)) token) client_version
        ≡ to_be_bytes 2 (length token % 2 ^ 16) ++ (token ++ to_be_bytes 4 client_version)
  auth_written token client_version = simp (b.put_int_lem, b.put_slice_lem, append_assoc)

  pub encode-wire : (m : ClientToServerMessage) → length (encode m) < 2 ^ 16 → encode m ≡ wire m
  unfolding encode
  encode-wire (auth_request token client_version) h =
      let n = length token in
      let written = auth_written token client_version in
      rw written (
        rw (
          mod-eq_of_lt {n = n} {m = 2 ^ 16} (
            omega (
              arith,
              subst (λ s. length s < 2 ^ 16) written h,
              length-append (to_be_bytes 2 (n % 2 ^ 16)) (token ++ to_be_bytes 4 client_version),
              length-append token (to_be_bytes 4 client_version),
            ))))
  encode-wire (connect_request peer_id) h = b.put_slice_lem [] peer_id
  encode-wire (disconnect_request reason_code) h = b.put_int_lem 4 [] reason_code
  encode-wire (send_message recipient_id payload) h = simp b.put_slice_lem
  encode-wire (ack acknowledged_message_id) h = b.put_int_lem 8 [] acknowledged_message_id
  encode-wire (heartbeat sequence) h = b.put_int_lem 8 [] sequence
  encode-wire (key_exchange ephemeral_pubkey) h = b.put_slice_lem [] ephemeral_pubkey
  encode-wire (relay_request target_peer_id) h = b.put_slice_lem [] target_peer_id
  encode-wire (raw_echo payload) h = b.put_slice_lem [] payload

  enough : (n : ℕ) (s : Bytes) → length s ≡ n → ltb (length s) n ≡ false
  enough n s h = le→not_ltb (length s) n (omega arith)

  decode-wire :
      (m : ClientToServerMessage)
      → IsValid m
      → length (wire m) < 2 ^ 16
      → decode (message_type m) (wire m) ≡ ok m
  unfolding decode message_type
  decode-wire (auth_request token client_version) v h =
      let n = length token in
      let version : Bytes = to_be_bytes 4 client_version in
      let body : Bytes = token ++ version in
      let size = length-append (to_be_bytes 2 n) body in
      let body_size = length-append token version in
      let four = length-to_be_bytes 4 client_version in
      let two = length-to_be_bytes 2 n in
      rw (
        le→not_ltb (length (to_be_bytes 2 n ++ body)) 2 (omega arith),
        get_int-append 2 n body (omega arith),
        le→not_ltb (length body) (n + 4) (omega arith),
        take-append n token version refl,
        advance-append n token version refl,
        get_int_alone 4 client_version v,
      )
  decode-wire (connect_request peer_id) v h = rw (enough 32 peer_id v, take_all 32 peer_id v)
  decode-wire (disconnect_request reason_code) v h = rw (
    enough 4 (to_be_bytes 4 reason_code) (length-to_be_bytes 4 reason_code),
    get_int_alone 4 reason_code v,
  )
  decode-wire (send_message recipient_id payload) v h = rw (
    le→not_ltb (length (recipient_id ++ payload)) 32
        (omega (arith, length-append recipient_id payload)),
    take-append 32 recipient_id payload v,
    drop-append 32 recipient_id payload v,
  )
  decode-wire (ack n) v h =
      rw (enough 8 (to_be_bytes 8 n) (length-to_be_bytes 8 n), get_int_alone 8 n v)
  decode-wire (heartbeat n) v h =
      rw (enough 8 (to_be_bytes 8 n) (length-to_be_bytes 8 n), get_int_alone 8 n v)
  decode-wire (key_exchange key) v h = rw (enough 32 key v, take_all 32 key v)
  decode-wire (relay_request peer) v h = rw (enough 32 peer v, take_all 32 peer v)
  decode-wire (raw_echo payload) v h = refl

  -- A client's message whose encoding is shorter than 65536 bytes is decoded, under its own type,
  -- to itself.
  pub decode-encode_request :
      (m : ClientToServerMessage)
      → IsValid m
      → length (encode m) < 2 ^ 16
      → decode (message_type m) (encode m) ≡ ok m
  decode-encode_request m v h =
      let e = encode-wire m h in rw e (decode-wire m v (subst (λ s. length s < 2 ^ 16) e h))

  -- What is decoded under a type is a message of that type.
  pub message_type-decode :
      (t : MessageType) (s : Bytes) (m : ClientToServerMessage)
      → decode t s ≡ ok m
      → message_type m ≡ t
  unfolding decode message_type
  message_type-decode MessageType.raw_echo s m h = ground arith
  message_type-decode _ s m h = ground arith

  -- The decoder of client messages answers `UnexpectedDirection` to exactly the types that are not
  -- sent by clients, whatever the payload.
  pub decode_direction_request :
      (t : MessageType) (s : Bytes)
      → (decode t s ≡ err ProtocolError.unexpected_direction) ↔ (is_client_to_server t ≡ false)
  unfolding decode is_client_to_server
  decode_direction_request MessageType.raw_echo s = (λ h. cc, λ h. cc)
  decode_direction_request _ s = (λ h. ground arith, λ h. ground arith)

  -- A decoded message's data is what stands behind the recipient's id.
  pub decode-send_message :
      (t : MessageType) (s recipient_id payload : Bytes)
      → decode t s ≡ ok (send_message recipient_id payload)
      → (32 ≤ length s) × (recipient_id ≡ take 32 s) × (payload ≡ drop 32 s)
  unfolding decode
  decode-send_message MessageType.raw_echo s recipient_id payload h = ground arith
  decode-send_message _ s recipient_id payload h = ground arith

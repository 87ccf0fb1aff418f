-- ===== src/Protocol/Messages/ServerToClient/Wire.antt =====
-- The bytes of a `ServerToClientMessage`, and `encode` against them.
use native.Mathlib.Nat.{mod-eq_of_lt}
use echomesh_relay.Prelude.{
  ℕ, ◌+◌, ◌%◌, ◌^◌, ◌<◌, ◌≡◌, refl, subst, Bool, true, false, not, [], ◌++◌, append_assoc, arith,
  ◌==◌, length, length-append, drop-append, Bytes, to_be_bytes, length-to_be_bytes, ByteBuf,
  put_slice, put_u16, put_u32,
}
use echomesh_relay.Protocol.Messages.ServerToClient.{
  ServerToClientMessage, auth_response, connection_accepted, connection_rejected,
  heartbeat_response, error_response, send_message_response, raw_echo_response,
  incoming_message_event, delivery_status_event, peer_event, relay_event, encode, byte_at, flag,
  delivery_to_u8, delivery_from_u8, peer_to_u8, peer_from_u8, DeliveryStatus, PeerStatus, delivered,
  online,
}

-- The bytes of a message, which `encode` writes if the length of a text fits its two bytes.
abbrev pub wire : ServerToClientMessage → Bytes
wire (auth_response success session_id) = to_be_bytes 1 (flag success) ++ session_id
wire (connection_accepted session_id assigned_peer_id) = session_id ++ assigned_peer_id
wire (connection_rejected reason_code message) =
    to_be_bytes 4 reason_code ++ (to_be_bytes 2 (length message) ++ message)
wire (heartbeat_response sequence) = to_be_bytes 8 sequence
wire (error_response code message) =
    to_be_bytes 4 code ++ (to_be_bytes 2 (length message) ++ message)
wire (send_message_response message_id accepted) =
    to_be_bytes 8 message_id ++ to_be_bytes 1 (flag accepted)
wire (raw_echo_response payload) = payload
wire (incoming_message_event sender_id payload) = sender_id ++ payload
wire (delivery_status_event message_id status) =
    to_be_bytes 8 message_id ++ to_be_bytes 1 (delivery_to_u8 status)
wire (peer_event peer_id status) = peer_id ++ to_be_bytes 1 (peer_to_u8 status)
wire (relay_event session_id status) = session_id ++ to_be_bytes 1 status

pub delivery_round_trip : (s : DeliveryStatus) → delivery_from_u8 (delivery_to_u8 s) ≡ s
unfolding delivery_from_u8 delivery_to_u8
delivery_round_trip delivered = refl
delivery_round_trip _ = refl

pub delivery_to_u8-lt : (s : DeliveryStatus) → delivery_to_u8 s < 256
unfolding delivery_to_u8
delivery_to_u8-lt delivered = omega arith
delivery_to_u8-lt _ = omega arith

pub peer_round_trip : (s : PeerStatus) → peer_from_u8 (peer_to_u8 s) ≡ s
unfolding peer_from_u8 peer_to_u8
peer_round_trip online = refl
peer_round_trip _ = refl

pub peer_to_u8-lt : (s : PeerStatus) → peer_to_u8 s < 256
unfolding peer_to_u8
peer_to_u8-lt online = omega arith
peer_to_u8-lt _ = omega arith

pub flag-lt : (c : Bool) → flag c < 256
flag-lt c = ground arith

pub flag_round_trip : (c : Bool) → not (flag c == 0) ≡ c
flag_round_trip true = refl
flag_round_trip false = refl

pub byte_at-append :
    (n v : ℕ) (xs : Bytes) → length xs ≡ n → v < 256 → byte_at n (xs ++ to_be_bytes 1 v) ≡ v
unfolding byte_at
byte_at-append n v xs h fits =
    rw (drop-append n xs (to_be_bytes 1 v) h, byte_at) (unfold to_be_bytes in mod-eq_of_lt fits)

module _ ⦃b : ByteBuf⦄ where
  text_written :
      (code : ℕ) (message : Bytes)
      → length (put_slice (put_u16 (put_u32 [] code) (length message % 2 ^ 16)) message) < 2 ^ 16
      → put_slice (put_u16 (put_u32 [] code) (length message % 2 ^ 16)) message
        ≡ to_be_bytes 4 code ++ (to_be_bytes 2 (length message) ++ message)
  text_written code message h =
      let n = length message in
      let e : put_slice (put_u16 (put_u32 [] code) (n % 2 ^ 16)) message
          ≡ to_be_bytes 4 code ++ (to_be_bytes 2 (n % 2 ^ 16) ++ message) =
        simp (b.put_int_lem, b.put_slice_lem, append_assoc) in
      rw e (
        rw (
          mod-eq_of_lt {n = n} {m = 2 ^ 16} (
            omega (
              arith,
              subst (λ s. length s < 2 ^ 16) e h,
              length-append (to_be_bytes 4 code) (to_be_bytes 2 (n % 2 ^ 16) ++ message),
              length-append (to_be_bytes 2 (n % 2 ^ 16)) message,
            ))))

  pub encode-wire : (m : ServerToClientMessage) → length (encode m) < 2 ^ 16 → encode m ≡ wire m
  unfolding encode
  encode-wire (auth_response success session_id) h = simp (b.put_int_lem, b.put_slice_lem)
  encode-wire (connection_rejected code message) h = text_written code message h
  encode-wire (error_response code message) h = text_written code message h
  encode-wire (heartbeat_response n) h = b.put_int_lem 8 [] n
  encode-wire (raw_echo_response payload) h = b.put_slice_lem [] payload
  encode-wire (connection_accepted sid pid) h = simp b.put_slice_lem
  encode-wire (incoming_message_event sid payload) h = simp b.put_slice_lem
  encode-wire (send_message_response n c) h = simp b.put_int_lem
  encode-wire (delivery_status_event n c) h = simp b.put_int_lem
  encode-wire (peer_event pid c) h = simp (b.put_int_lem, b.put_slice_lem)
  encode-wire (relay_event sid c) h = simp (b.put_int_lem, b.put_slice_lem)

  -- The sizes of the messages that the relay sends by itself.
  pub length-encode_answer :
      (n : ℕ) (accepted : Bool) → length (encode (send_message_response n accepted)) ≡ 9
  unfolding encode
  length-encode_answer n accepted =
      rw (b.put_int_lem 8 [] n, b.put_int_lem 1 (to_be_bytes 8 n) (flag accepted))
        (omega (
          arith,
          length-append (to_be_bytes 8 n) (to_be_bytes 1 (flag accepted)),
          length-to_be_bytes 8 n,
          length-to_be_bytes 1 (flag accepted),
        ))

  pub length-encode_heartbeat : (n : ℕ) → length (encode (heartbeat_response n)) ≡ 8
  unfolding encode
  length-encode_heartbeat n = rw (b.put_int_lem 8 [] n) (length-to_be_bytes 8 n)

  pub length-encode_delivery :
      (n : ℕ) (status : DeliveryStatus) → length (encode (delivery_status_event n status)) ≡ 9
  unfolding encode
  length-encode_delivery n status =
      rw (b.put_int_lem 8 [] n, b.put_int_lem 1 (to_be_bytes 8 n) (delivery_to_u8 status))
        (omega (
          arith,
          length-append (to_be_bytes 8 n) (to_be_bytes 1 (delivery_to_u8 status)),
          length-to_be_bytes 8 n,
          length-to_be_bytes 1 (delivery_to_u8 status),
        ))

  pub length-encode_incoming :
      (sender payload : Bytes)
      → length (encode (incoming_message_event sender payload)) ≡ length sender + length payload
  unfolding encode
  length-encode_incoming sender payload =
      rw (b.put_slice_lem [] sender, b.put_slice_lem sender payload) (length-append sender payload)

-- ===== src/Examples/Formats.antt =====
-- Examples for the formats of src/protocol.
use echomesh_relay.Prelude.{
  ◌≡◌, subst, inl, inr, true, some, [], ◌∷◌, ◌++◌, append-nil, arith, take, drop, replicate,
  take-append-drop, length-replicate, Bytes, documented, ok,
}
use echomesh_relay.Protocol.Frame
use echomesh_relay.Protocol.Frame.{Frame, constant_time_eq}
use echomesh_relay.Protocol.Frame.Stream
use echomesh_relay.Protocol.Frame.Stream.{receive-wires}
use echomesh_relay.Protocol.Frame.Wire.{decode-encode, decode_exact-eq-parse, from_slice-eq-parse}
use echomesh_relay.Protocol.Envelope
use echomesh_relay.Protocol.Envelope.Canonical.{decode_canonical}
use echomesh_relay.Protocol.Messages.ClientToServer
use echomesh_relay.Protocol.Messages.ClientToServer.{ClientToServerMessage}
use echomesh_relay.Protocol.Messages.ClientToServer.RoundTrip.{decode-encode_request}
use echomesh_relay.Protocol.Messages.ServerToClient
use echomesh_relay.Protocol.Messages.ServerToClient.{ServerToClientMessage}
use echomesh_relay.Protocol.Messages.ServerToClient.RoundTrip.{decode-encode_reply}
use echomesh_relay.Protocol.Messages.ServerToClient.Wire.{length-encode_answer}
use echomesh_relay.Protocol.Codec.{
  decode_client_message, decode_server_message, encode_client_message, encode_server_message,
}
use echomesh_relay.Protocol.Codec.Client
use echomesh_relay.Protocol.Codec.Server
use echomesh_relay.Examples.Data.{
  hello, lenient, small_ids, to_bob, to_bob-IsValid, to_bob_size, to_bob_bytes, request_envelope,
  request_bytes,
}

abbrev note : Frame
note = record { session_id = replicate 16 9; nonce = replicate 8 3; payload = hello }

note-IsValid : Frame.Wire.IsValid note
note-IsValid = record {
  session_id_len = length-replicate 16 9;
  nonce_len = length-replicate 8 3;
  payload_le = omega arith;
}

-- Two frames in three pieces, cut in the middle of the first and of the second.
abbrev stream : Bytes
stream = Stream.wires (note ∷ note ∷ [])

receive-wires_example :
    Stream.receive ⦃b = documented⦄ []
      (take 700 stream ∷ take 1000 (drop 700 stream) ∷ drop 1000 (drop 700 stream) ∷ [])
    ≡ (note ∷ note ∷ [], [])
receive-wires_example =
    receive-wires ⦃b = documented⦄ (note ∷ note ∷ [])
      (take 700 stream ∷ take 1000 (drop 700 stream) ∷ drop 1000 (drop 700 stream) ∷ [])
      (note-IsValid, (note-IsValid, tt))
      (rw (append-nil (drop 1000 (drop 700 stream)), take-append-drop 1000 (drop 700 stream))
        (take-append-drop 700 stream))

to_bob_written :
    encode_client_message ⦃b = documented⦄ to_bob 7 0 5
    ≡ ok (Envelope.Wire.wire (request_envelope to_bob))
to_bob_written = elim (Client.encode_client_message_cases ⦃b = documented⦄ to_bob 7 0 5 small_ids) [
  | inl (_, w) ↦ w
  | inr (over, _) ↦ absurd (omega (arith, to_bob_size))
]

client_message_example :
    (f : Frame) × (Frame.new
        (replicate 16 9)
        (replicate 8 3)
        (Envelope.Wire.wire (request_envelope to_bob))
      ≡ ok f)
    × (Frame.decode ⦃b = documented⦄ ((Frame.encode ⦃b = documented⦄ f []).1 ++ hello)
        ≡ (ok (some f), hello))
    × (decode_client_message ⦃b = documented⦄ f.payload ≡ ok (request_envelope to_bob, to_bob))
client_message_example =
    Client.client_message_arrives ⦃b = documented⦄ to_bob 7 0 5 (replicate 16 9) (replicate 8 3)
      (Envelope.Wire.wire (request_envelope to_bob)) hello to_bob-IsValid small_ids
      (length-replicate 16 9) (length-replicate 8 3) to_bob_written

abbrev accepted : ServerToClientMessage
accepted = ServerToClientMessage.send_message_response 7 true

accepted_written :
    encode_server_message ⦃b = documented⦄ accepted 7 0 5
    ≡ ok (Envelope.Wire.wire (Server.envelope ⦃b = documented⦄ accepted 7 0 5))
accepted_written =
    elim (Server.encode_server_message_cases ⦃b = documented⦄ accepted 7 0 5 small_ids) [
      | inl (_, w) ↦ w
      | inr (over, _) ↦ absurd (omega (arith, length-encode_answer ⦃b = documented⦄ 7 true))
    ]

server_message_example :
    (f : Frame) × (Frame.new
        (replicate 16 9)
        (replicate 8 3)
        (Envelope.Wire.wire (Server.envelope ⦃b = documented⦄ accepted 7 0 5))
      ≡ ok f)
    × (Frame.decode ⦃b = documented⦄ ((Frame.encode ⦃b = documented⦄ f []).1 ++ hello)
        ≡ (ok (some f), hello))
    × (decode_server_message ⦃b = documented⦄ ⦃u = lenient⦄ f.payload
        ≡ ok (Server.envelope ⦃b = documented⦄ accepted 7 0 5, accepted))
server_message_example =
    Server.server_message_arrives ⦃b = documented⦄ accepted 7 0 5 ⦃u = lenient⦄ (replicate 16 9)
      (replicate 8 3) _ hello (omega arith) small_ids (length-replicate 16 9) (length-replicate 8 3)
      accepted_written

request_read :
    Envelope.decode ⦃b = documented⦄ (Envelope.Wire.wire (request_envelope to_bob))
    ≡ ok (request_envelope to_bob)
request_read =
    subst (λ x. Envelope.decode ⦃b = documented⦄ x ≡ ok (request_envelope to_bob))
      (append-nil (Envelope.Wire.wire (request_envelope to_bob)))
      (Envelope.Wire.decode-wire ⦃b = documented⦄ (request_envelope to_bob) []
        (Client.envelope-IsValid ⦃b = documented⦄ to_bob 7 0 5 small_ids to_bob_size))

decode_canonical_example :
    (rest : Bytes) × (Envelope.Wire.wire (request_envelope to_bob)
      ≡ Envelope.Wire.wire (request_envelope to_bob) ++ rest)
    × Envelope.Wire.IsValid (request_envelope to_bob)
decode_canonical_example =
    decode_canonical ⦃b = documented⦄ (Envelope.Wire.wire (request_envelope to_bob))
      (request_envelope to_bob) (request_bytes to_bob to_bob_bytes) request_read

decode-encode_request_example :
    ClientToServer.decode ⦃b = documented⦄
      (ClientToServer.message_type to_bob)
      (ClientToServer.encode ⦃b = documented⦄ to_bob)
    ≡ ok to_bob
decode-encode_request_example =
    decode-encode_request ⦃b = documented⦄ to_bob to_bob-IsValid (omega (arith, to_bob_size))

decode-encode_reply_example :
    ServerToClient.decode ⦃b = documented⦄ ⦃u = lenient⦄
      (ServerToClient.message_type accepted)
      (ServerToClient.encode ⦃b = documented⦄ accepted)
    ≡ ok accepted
decode-encode_reply_example =
    decode-encode_reply ⦃b = documented⦄ ⦃u = lenient⦄ accepted (omega arith)
      (omega (arith, length-encode_answer ⦃b = documented⦄ 7 true))

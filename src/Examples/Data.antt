-- ===== src/Examples/Data.antt =====
-- The peers, frames and messages of the examples.
use echomesh_relay.Prelude.{
  ℕ, suc, ◌≤◌, ◌≡◌, refl, subst, ◌≢◌, true, [], ◌∷◌, append-nil, arith, length, replicate,
  length-replicate, Bytes, AreBytes, documented, ok,
}
use echomesh_relay.Protocol.Frame.{Frame}
use echomesh_relay.Protocol.Envelope.{MessageEnvelope}
use echomesh_relay.Protocol.Envelope.Wire.{AreIds, wire}
use echomesh_relay.Protocol.Messages.ClientToServer.{ClientToServerMessage}
use echomesh_relay.Protocol.Messages.ClientToServer
use echomesh_relay.Protocol.Messages.ClientToServer.RoundTrip.{IsValid}
use echomesh_relay.Protocol.Codec.{decode_client_message}
use echomesh_relay.Client.Exchange.{wire-AreBytes}
use echomesh_relay.Protocol.Messages.ServerToClient.{Utf8}
use echomesh_relay.Protocol.Codec.Client.{envelope, decode_written}
use echomesh_relay.Relay.Registry
use echomesh_relay.Relay.Registry.{RouteRegistry}

-- Every byte string counts as UTF-8 here.
abbrev pub lenient : Utf8
lenient = record { is_utf8 = λ s. true; from_utf8_lossy = λ s. s; lossy_lem = λ s h. refl }

abbrev pub alice : Bytes
alice = replicate 32 1

abbrev pub bob : Bytes
bob = replicate 32 2

abbrev pub hello : Bytes
hello = 104 ∷ 105 ∷ []

abbrev pub request_envelope : ClientToServerMessage → MessageEnvelope
request_envelope m = envelope ⦃b = documented⦄ m 7 0 5

abbrev pub request_frame : Bytes → ClientToServerMessage → Frame
request_frame session_id m = record {
  session_id = session_id;
  nonce = replicate 8 3;
  payload = wire (request_envelope m);
}

-- Alice's connection is 1, Bob's is 2.
abbrev pub both : RouteRegistry
both = (Registry.insert (Registry.insert Registry.new alice 1 1).0 bob 2 2).0

abbrev pub small_ids : AreIds 7 0 5
small_ids = record {
  message_id_lt = omega arith;
  correlation_id_lt = omega arith;
  timestamp_lt = omega arith;
}

-- A request of at most 1364 bytes is what its frame decodes to.
pub request_decoded :
    (m : ClientToServerMessage)
    → IsValid m
    → length (ClientToServer.encode ⦃b = documented⦄ m) ≤ 1364
    → decode_client_message ⦃b = documented⦄ (wire (request_envelope m))
      ≡ ok (request_envelope m, m)
request_decoded m v h =
    subst (λ s. decode_client_message ⦃b = documented⦄ s ≡ ok (request_envelope m, m))
      (append-nil (wire (request_envelope m)))
      (decode_written ⦃b = documented⦄ m 7 0 5 [] v small_ids h)

pub request_bytes :
    (m : ClientToServerMessage)
    → AreBytes (ClientToServer.encode ⦃b = documented⦄ m)
    → AreBytes (wire (request_envelope m))
request_bytes m v = wire-AreBytes (request_envelope m) v

-- Two ids of repeated bytes differ where the bytes do.
pub replicate_apart : (n x y : ℕ) → x ≢ y → replicate (suc n) x ≢ replicate (suc n) y
unfolding replicate
replicate_apart n x y ne e = ground arith

abbrev pub to_bob : ClientToServerMessage
to_bob = ClientToServerMessage.send_message bob hello

pub to_bob-IsValid : IsValid to_bob
to_bob-IsValid = length-replicate 32 2

pub to_bob_size : length (ClientToServer.encode ⦃b = documented⦄ to_bob) ≤ 1364
unfolding ClientToServer.encode replicate
to_bob_size = omega arith

pub to_bob_bytes : AreBytes (ClientToServer.encode ⦃b = documented⦄ to_bob)
unfolding ClientToServer.encode replicate
to_bob_bytes = ground arith

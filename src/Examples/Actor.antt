-- ===== src/Examples/Actor.antt =====
-- Examples for the background task of src/client/api.rs.
use echomesh_relay.Prelude.{
  ℕ, ◌≤◌, ◌<◌, ◌≡◌, refl, ◌⊎◌, true, some, List, [], ◌∷◌, arith, length, take, replicate,
  length-replicate, from_be, documented, err,
}
use echomesh_relay.Examples.Data.{lenient, alice, bob, both, replicate_apart}
use echomesh_relay.Relay.Registry
use echomesh_relay.Relay.Registry.Laws.{entry, insert_routes}
use echomesh_relay.Relay.Session.{forward, receive_frame}
use echomesh_relay.Client.Peers.{peer_stops_client}
use echomesh_relay.Protocol.Frame.{Frame}
use echomesh_relay.Protocol.Codec.{decode_server_message}
use echomesh_relay.Protocol.Envelope
use echomesh_relay.Protocol.Versioning
use echomesh_relay.Protocol.Error.{ProtocolError}
use echomesh_relay.Client.Inbound.{ClientInboundRouter}
use echomesh_relay.Client.Actor.{
  Event, run, raw_frame_lem, Task, running, panicked, frame_received, frame_queued,
}

abbrev long_frame : Frame
long_frame = record {
  session_id = replicate 16 1;
  nonce = replicate 8 2;
  payload = replicate 1370 0;
}

undecoded :
    decode_server_message ⦃b = documented⦄ ⦃u = lenient⦄ (replicate 1370 0)
    ≡ err (ProtocolError.unsupported_version 1 0)
unfolding decode_server_message Envelope.decode replicate Versioning.from_u8 from_be take
undecoded = refl

abbrev waiting : ClientInboundRouter
waiting = record { pending_requests = (5, 8) ∷ []; event_handlers = [] }

abbrev later : List Event
later = frame_queued long_frame true ∷ []

abbrev task : Task
task = record { status = running; router = waiting }

raw_frame_example :
    ((length long_frame.payload ≤ 1364)
      × (run ⦃b = documented⦄ ⦃u = lenient⦄ (frame_received long_frame ∷ later) task
          ≡ run ⦃b = documented⦄ ⦃u = lenient⦄ later task))
    ⊎ ((1364 < length long_frame.payload)
        × (run ⦃b = documented⦄ ⦃u = lenient⦄ (frame_received long_frame ∷ later) task
            ≡ (record { status = panicked; router = waiting }, [])))
raw_frame_example =
    raw_frame_lem ⦃b = documented⦄ ⦃u = lenient⦄ long_frame waiting later
      (ProtocolError.unsupported_version 1 0) undecoded

-- From Alice to Bob.
abbrev from_alice : Frame
from_alice = record {
  session_id = replicate 16 2;
  nonce = replicate 8 2;
  payload = 0 ∷ replicate 1369 0;
}

peer_stops_client_example :
    (f : Frame) × (receive_frame ⦃b = documented⦄ both 1 1 (some alice) from_alice
      ≡ (some alice, forward (entry bob 2 2) f ∷ []))
    × (run ⦃b = documented⦄ ⦃u = lenient⦄ (frame_received f ∷ later) task
        ≡ (record { status = panicked; router = waiting }, []))
peer_stops_client_example =
    peer_stops_client ⦃b = documented⦄ ⦃u = lenient⦄ both 1 1 alice from_alice (entry bob 2 2) 0
      (replicate 1369 0) waiting later
      (replicate_apart 15 2 0xf0 (λ e. omega arith), replicate_apart 15 2 0xee (λ e. omega arith))
      (unfold take replicate in replicate_apart 15 1 2 (λ e. omega arith))
      (unfold take replicate in
        (insert_routes (Registry.insert Registry.new alice 1 1).0 bob 2 2).1)
      refl (λ e. omega (arith, e)) (omega (arith, length-replicate {A = ℕ} 1369 0))

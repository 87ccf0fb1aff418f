-- ===== src/Examples/Routing.antt =====
-- Examples for the relay of src/server/routed_listener.rs.
use echomesh_relay.Prelude.{
  ◌≡◌, refl, ◌∙◌, inr, true, false, some, [], ◌∷◌, arith, take, replicate, length-replicate,
  documented,
}
use echomesh_relay.Protocol.Frame.{Frame}
use echomesh_relay.Relay.Registry
use echomesh_relay.Relay.Registry.{get_by_peer_id}
use echomesh_relay.Relay.Registry.Laws.{entry, insert_routes}
use echomesh_relay.Maps
use echomesh_relay.Protocol.Messages.ServerToClient.{ServerToClientMessage}
use echomesh_relay.Relay.Session.Replies.{Carries}
use echomesh_relay.Relay.Session.{reply, forward, receive_frame}
use echomesh_relay.Relay.Session.Dispatch.{IsRouted}
use echomesh_relay.Relay.Session.Routing.{send_delivered, send_refused}
use echomesh_relay.Relay.Session.Senders.{Every, IsFrom, sender_unforged}
use echomesh_relay.Relay.Registry.Consistency.{IsConsistent, insert-IsConsistent, new-IsConsistent}
use echomesh_relay.Examples.Data.{
  to_bob, to_bob-IsValid, to_bob_size, to_bob_bytes, request_decoded, request_bytes,
  replicate_apart, alice, bob, hello, request_envelope, request_frame, both, lenient,
}

to_bob-IsRouted : IsRouted (request_frame (replicate 16 2) to_bob)
to_bob-IsRouted =
    (replicate_apart 15 2 0xf0 (λ e. omega arith), replicate_apart 15 2 0xee (λ e. omega arith))

bob_online : get_by_peer_id both bob ≡ some (entry bob 2 2)
bob_online = (insert_routes (Registry.insert Registry.new alice 1 1).0 bob 2 2).0

alice_online : get_by_peer_id both alice ≡ some (entry alice 1 1)
alice_online =
    (insert_routes (Registry.insert Registry.new alice 1 1).0 bob 2 2).2 alice
      (replicate_apart 31 2 1 (λ e. omega arith))
    ∙ (insert_routes Registry.new alice 1 1).0

send_delivered_example :
    (f g : Frame) × (receive_frame ⦃b = documented⦄ both 1 1
        (some alice)
        (request_frame (replicate 16 2) to_bob)
      ≡ (some alice, reply 1 f ∷ forward (entry bob 2 2) g ∷ []))
    × Carries ⦃b = documented⦄ ⦃u = lenient⦄ f
        (take 16 alice)
        (ServerToClientMessage.send_message_response 7 true)
        7
        7
        5
    × Carries ⦃b = documented⦄ ⦃u = lenient⦄ g
        (take 16 alice)
        (ServerToClientMessage.incoming_message_event alice hello)
        7
        0
        5
    × (g.nonce ≡ replicate 8 3)
send_delivered_example =
    send_delivered ⦃b = documented⦄ ⦃u = lenient⦄ both 1 1 alice
      (request_frame (replicate 16 2) to_bob) (request_envelope to_bob) bob hello (entry bob 2 2)
      to_bob-IsRouted (length-replicate 32 1) (length-replicate 8 3)
      (request_bytes to_bob to_bob_bytes) (request_decoded to_bob to_bob-IsValid to_bob_size)
      (replicate_apart 31 1 2 (λ e. omega arith)) bob_online

send_refused_example :
    (f : Frame) × (receive_frame ⦃b = documented⦄ Registry.new 1 1
        (some alice)
        (request_frame (replicate 16 2) to_bob)
      ≡ (some alice, reply 1 f ∷ []))
    × Carries ⦃b = documented⦄ ⦃u = lenient⦄ f
        (take 16 alice)
        (ServerToClientMessage.send_message_response 7 false)
        7
        7
        5
send_refused_example =
    send_refused ⦃b = documented⦄ ⦃u = lenient⦄ Registry.new 1 1 alice
      (request_frame (replicate 16 2) to_bob) (request_envelope to_bob) bob hello to_bob-IsRouted
      (length-replicate 32 1) (request_bytes to_bob to_bob_bytes)
      (request_decoded to_bob to_bob-IsValid to_bob_size)
      (inr (unfold get_by_peer_id Registry.new Maps.get in refl))

both-IsConsistent : IsConsistent both
both-IsConsistent =
    insert-IsConsistent _ bob 2 2 (insert-IsConsistent Registry.new alice 1 1 new-IsConsistent)

sender_unforged_example :
    Every
      (IsFrom alice)
      (receive_frame ⦃b = documented⦄ both 1 1
        (some alice)
        (request_frame (replicate 16 2) to_bob)).1
sender_unforged_example =
    sender_unforged ⦃b = documented⦄ both 1 1 alice (request_frame (replicate 16 2) to_bob)
      both-IsConsistent to_bob-IsRouted

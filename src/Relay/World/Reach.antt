-- ===== src/Relay/World/Reach.antt =====
-- Every world that the sessions of src/server/routed_listener.rs can reach, by steps in any order.
use echomesh_relay.Prelude.{
  ℕ, ◌+◌, ◌^◌, ◌<◌, ◌≡◌, refl, subst, ◌≢◌, inl, inr, Option, none, some, List, [], ◌∷◌, arith, ◌==◌,
  ==_iff, Bool-cases, length, Bytes, ByteBuf,
}
use echomesh_relay.Maps.{nat_eq, bytes_cases}
use echomesh_relay.Protocol.Frame.{Frame}
use echomesh_relay.Relay.Registry.{RouteRegistry}
use echomesh_relay.Relay.Registry.Consistency.{IsConsistent}
use echomesh_relay.Relay.Session.{
  Action, reply, forward, register, receive_frame, route_registration_id, echo_route_id,
}
use echomesh_relay.Relay.Session.Senders.{Every, IsFrom, sender_unforged}
use echomesh_relay.Relay.Session.Effects.{registration_lem, dropped}
use echomesh_relay.Relay.Session.Dispatch.{receive_registered}
use echomesh_relay.Relay.World.{
  World, start, accept, advance, leave, abort, counted, accepts, apply, receive, Step, accepted,
  received, acted, left, aborted, Reachable, started, stepped,
}
use echomesh_relay.Relay.World.Invariant.{
  apply_keeps, IsOwn, IsSound, start-IsSound, accept-IsSound, apply-IsSound, advance-IsSound,
  abort-IsSound, leave-IsSound,
}

IsFrom-IsOwn :
    (source : Bytes) (c : ℕ) (peer : Option Bytes) (actions : List Action)
    → Every (IsFrom source) actions
    → Every (IsOwn c peer) actions
IsFrom-IsOwn source c peer [] v = tt
IsFrom-IsOwn source c peer (reply tx f ∷ actions) v = (tt, IsFrom-IsOwn source c peer actions v.1)
IsFrom-IsOwn source c peer (forward entry f ∷ actions) v =
    (tt, IsFrom-IsOwn source c peer actions v.1)
IsFrom-IsOwn source c peer (register p d tx ∷ actions) v = absurd v.0

module _ ⦃b : ByteBuf⦄ where
  -- The registrations that a frame leads to are for the connection that it came from.
  receive-IsOwn :
      (routes : RouteRegistry) (c : ℕ) (peer : Option Bytes) (frame : Frame)
      → IsConsistent routes
      → let (peer', actions) = receive_frame routes c c peer frame in Every (IsOwn c peer') actions
  receive-IsOwn routes c peer frame v = elim (bytes_cases frame.session_id route_registration_id) [
    | inl h ↦ registering h
    | inr h ↦ elim (bytes_cases frame.session_id echo_route_id) [
      | inl k ↦ rw (dropped routes c c peer frame h (inr k)) tt
      | inr k ↦ routed peer h k
    ]
  ]
    where
      registering :
          frame.session_id ≡ route_registration_id
          → let (peer', actions) = receive_frame routes c c peer frame in
            Every (IsOwn c peer') actions
      registering h =
          let (fits, other) = registration_lem routes c c peer frame h in
          elim (Bool-cases (length frame.payload == 32)) [
            | inl k ↦ rw (fits ((==_iff (length frame.payload) 32).0 k)) ((refl, refl, refl), tt)
            | inr k ↦ rw (other (λ e. ground (arith, ==_iff (length frame.payload) 32))) tt
          ]

      routed :
          (p : Option Bytes)
          → frame.session_id ≢ route_registration_id
          → frame.session_id ≢ echo_route_id
          → let (peer', actions) = receive_frame routes c c p frame in Every (IsOwn c peer') actions
      routed none n1 n2 = rw (dropped routes c c none frame n1 (inl refl)) tt
      routed (some source) n1 n2 =
          let unforged = sender_unforged routes c c source frame v (n1, n2) in
          rw (receive_registered routes c c source frame (n1, n2)) (
            IsFrom-IsOwn source c (some source) _ (
              subst (λ r. Every (IsFrom source) r.1)
                (receive_registered routes c c source frame (n1, n2)) unforged))

  -- The counter does not wrap before 2 ^ 64 - 1 connections.
  step_counts :
      {Allowed : Option Bytes → Option Bytes → Type 0} (v w : World) (step : Step Allowed v w)
      → v.next_connection_id + counted step < 2 ^ 64
      → w.next_connection_id ≡ v.next_connection_id + counted step
  unfolding receive counted accept advance leave abort
  step_counts v w (accepted _) few = omega (arith, few)
  step_counts v w (received _ c peer frame here allowed) few = omega arith
  step_counts v w (acted _ c peer action rest alive here) few =
      omega (arith, (apply_keeps alive v action).0)
  step_counts v w (left _ c none here) few = omega arith
  step_counts v w (left _ c (some p) here) few = omega arith
  step_counts v w (aborted _ c peer here) few = omega arith

  next_connection_id_lem :
      {Allowed : Option Bytes → Option Bytes → Type 0} (w : World) (reached : Reachable Allowed w)
      → accepts reached + 1 < 2 ^ 64
      → w.next_connection_id ≡ accepts reached + 1
  unfolding accepts start
  next_connection_id_lem w started few = refl
  next_connection_id_lem w (stepped {v} reached step) few =
      let before = next_connection_id_lem v reached (omega arith) in
      omega (arith, before, step_counts v w step (omega (arith, before)))

  step-IsSound :
      {Allowed : Option Bytes → Option Bytes → Type 0} (v w : World) (step : Step Allowed v w)
      → v.next_connection_id + counted step < 2 ^ 64
      → IsSound v
      → IsSound w
  unfolding receive counted
  step-IsSound v w (accepted _) few sound = accept-IsSound v few sound
  step-IsSound v w (received _ c peer frame here allowed) few sound =
      advance-IsSound v c _ (sound.known c _ here).0
        (receive-IsOwn v.routes c peer frame sound.consistent) sound
  step-IsSound v w (acted _ c peer action rest alive here) few sound =
      let (lt, own) = sound.known c _ here in
      advance-IsSound (apply alive v action) c _ (rw (apply_keeps alive v action).0 lt) own.1
        (apply-IsSound alive v c peer action lt own.0 sound)
  step-IsSound v w (left _ c peer here) few sound = leave-IsSound v c peer sound
  step-IsSound v w (aborted _ c peer here) few sound = abort-IsSound v c sound

  -- While fewer than 2 ^ 64 - 1 connections were accepted, so that their numbers do not repeat,
  -- whatever the order in which the connections act, and whether or not the channels they send to
  -- are alive: the two maps of the registry agree, an entry names a connection that was accepted
  -- and that connection's own channel, and what a connection has still to register is its own.
  pub Reachable-IsSound :
      {Allowed : Option Bytes → Option Bytes → Type 0} (w : World) (reached : Reachable Allowed w)
      → accepts reached + 1 < 2 ^ 64
      → IsSound w
  unfolding accepts
  Reachable-IsSound w started few = start-IsSound
  Reachable-IsSound w (stepped {v} reached step) few =
      step-IsSound v w step (omega (arith, next_connection_id_lem v reached (omega arith)))
        (Reachable-IsSound v reached (omega arith))

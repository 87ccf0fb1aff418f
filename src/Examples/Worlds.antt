-- ===== src/Examples/Worlds.antt =====
-- Examples for the registry of src/server/routed_listener.rs, alone and under its sessions.
use echomesh_relay.Prelude.{
  ℕ, ◌+◌, ◌^◌, ◌<◌, ◌≡◌, refl, true, false, none, some, [], ◌∷◌, ◌++◌, arith, take, replicate,
  length-replicate, Bytes, documented,
}
use echomesh_relay.Maps
use echomesh_relay.Maps.{nat_eq}
use echomesh_relay.Maps.Laws.{get-insert_self}
use echomesh_relay.Protocol.Frame.{Frame}
use echomesh_relay.Relay.Registry
use echomesh_relay.Relay.Registry.{
  RouteRegistry, insert, remove_connection, get_by_peer_id, get_by_prefix, is_current,
}
use echomesh_relay.Relay.Registry.Laws.{entry, remove-insert_reconnect}
use echomesh_relay.Relay.Registry.Consistency.{shared_prefix_lost}
use echomesh_relay.Relay.Session.{register, route_registration_id}
use echomesh_relay.Relay.Session.Effects.{registration_lem}
use echomesh_relay.Relay.World.{
  World, start, accept, apply, advance, leave, receive, Reachable, started, stepped, accepted,
  received, acted, accepts, counted,
}
use echomesh_relay.Relay.World.Invariant.{IsSound}
use echomesh_relay.Relay.World.Reach.{Reachable-IsSound}
use echomesh_relay.Relay.World.Leaving.{Keeps, leave_unroutes}
use echomesh_relay.Examples.Data.{alice}

abbrev enrol : Frame
enrol = record { session_id = route_registration_id; nonce = replicate 8 3; payload = alice }

-- A connection that registers as Alice.
abbrev enrolled : World
enrolled = receive ⦃b = documented⦄ (accept start) 1 none enrol

abbrev routed : World
routed =
    advance (apply true enrolled (register alice 1 1)) 1
      (record { registered_peer = some alice; pending = [] })

enrolled_pending :
    Maps.get 1 enrolled.connections
    ≡ some (record { registered_peer = some alice; pending = register alice 1 1 ∷ [] })
unfolding receive advance
enrolled_pending =
    rw
      ((registration_lem ⦃b = documented⦄ (accept start).routes 1 1 none enrol refl).0
        (length-replicate {A = ℕ} 32 1))
      (get-insert_self 1 _ (accept start).connections)

routed_idle :
    Maps.get 1 routed.connections ≡ some (record { registered_peer = some alice; pending = [] })
unfolding advance
routed_idle = get-insert_self 1 _ (apply true enrolled (register alice 1 1)).connections

abbrev reached : Reachable ⦃b = documented⦄ Keeps routed
reached =
    stepped
      (stepped (stepped started (accepted start)) (
        received (accept start) 1 none enrol (unfold accept start Maps.insert Maps.get in refl) tt))
      (acted enrolled 1 (some alice) (register alice 1 1) [] true enrolled_pending)

few : accepts ⦃b = documented⦄ reached + 1 < 2 ^ 64
unfolding accepts counted
few = omega arith

reachable_example : IsSound routed
reachable_example = Reachable-IsSound ⦃b = documented⦄ {Allowed = Keeps} routed reached few

leave_unroutes_example :
    is_current (get_by_peer_id (leave routed 1 (some alice)).routes alice) 1 ≡ false
leave_unroutes_example =
    leave_unroutes ⦃b = documented⦄ routed 1 (some alice) alice reached few routed_idle

abbrev twin : Bytes
twin = replicate 16 1 ++ replicate 16 9

shared_prefix_lost_example :
    let s = (insert (insert Registry.new alice 1 1).0 twin 2 2).0 in
    (get_by_prefix s (take 16 twin) ≡ some (entry twin 2 2))
    × (get_by_peer_id (remove_connection s alice 1).0 twin ≡ some (entry twin 2 2))
    × (get_by_prefix (remove_connection s alice 1).0 (take 16 twin) ≡ none)
shared_prefix_lost_example =
    shared_prefix_lost Registry.new alice twin 1 2 1 2 (λ e. unfold replicate in ground arith)
      (unfold take replicate in refl)

reconnect_example :
    remove_connection (insert Registry.new alice 2 2).0 alice 1
    ≡ ((insert Registry.new alice 2 2).0, false)
reconnect_example = remove-insert_reconnect Registry.new alice 1 2 2 (λ e. omega arith)

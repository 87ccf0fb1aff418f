-- ===== src/Relay/World/Invariant.antt =====
-- What holds of the sessions and of the registry of src/server/routed_listener.rs under every
-- interleaving.
use mathlib.Core.Path.{subst₂}
use echomesh_relay.Prelude.{
  ℕ, ◌+◌, ◌^◌, ◌<◌, ◌≡◌, refl, subst, inl, inr, Bool, true, false, Option, none, some, [], arith,
  ==_iff, Bool-cases, Bytes,
}
use echomesh_relay.Maps
use echomesh_relay.Maps.{nat_eq, bytes_beq, bytes_beq_iff}
use echomesh_relay.Maps.Laws.{get-insert_cases, get-insert, get-remove}
use echomesh_relay.Relay.Registry
use echomesh_relay.Relay.Registry.{
  Sender, RouteEntry, RouteRegistry, remove_connection, get_by_peer_id, is_current,
}
use echomesh_relay.Relay.Registry.Laws.{
  get_by_peer_id-insert, get_by_peer_id-remove, remove_connection_stale,
}
use echomesh_relay.Relay.Registry.Consistency.{
  IsConsistent, new-IsConsistent, insert-IsConsistent, remove_connection-IsConsistent,
}
use echomesh_relay.Relay.Session.{Action, reply, forward, register}
use echomesh_relay.Relay.Session.Senders.{Every}
use echomesh_relay.Relay.World.{Connection, World, start, accept, apply, advance, leave, abort}

-- A registration that a session has still to make names its own connection and its own peer.
abbrev pub IsOwn : ℕ → Option Bytes → Action → Type 0
IsOwn c peer (reply tx f) = Unit {0}
IsOwn c peer (forward entry f) = Unit {0}
IsOwn c peer (register p d tx) = (d ≡ c) × (tx ≡ c) × (peer ≡ some p)

-- An entry of the registry names a connection that was accepted, and that connection's channel.
abbrev pub Names : RouteRegistry → ℕ → Type 0
Names r next =
    (p : Bytes) (e : RouteEntry)
    → get_by_peer_id r p ≡ some e
    → (e.connection_id < next) × (e.tx ≡ e.connection_id)

pub record IsSound (w : World) : Type 0 where
  pub consistent : IsConsistent w.routes
  pub names : Names w.routes w.next_connection_id
  pub known :
      (c : ℕ) (k : Connection)
      → Maps.get c w.connections ≡ some k
      → (c < w.next_connection_id) × Every (IsOwn c k.registered_peer) k.pending

remove-Names :
    (r : RouteRegistry) (p : Bytes) (c next : ℕ)
    → Names r next
    → Names (remove_connection r p c).0 next
remove-Names r p c next v q e h = elim (Bool-cases (is_current (get_by_peer_id r p) c)) [
  | inr stale ↦
      v q e (subst (λ s. get_by_peer_id s.0 q ≡ some e) (remove_connection_stale r p c stale) h)
  | inl now ↦ ground (arith, get_by_peer_id-remove r p q c now, v q e)
]

insert-Names :
    (r : RouteRegistry) (p : Bytes) (c next : ℕ)
    → c < next
    → Names r next
    → Names (Registry.insert r p c c).0 next
insert-Names r p c next lt v q e h = ground (arith, get_by_peer_id-insert r p q c c, v q e)

pub start-IsSound : IsSound start
unfolding start
start-IsSound = record {
  consistent = new-IsConsistent;
  names = λ p e h. unfold Registry.new get_by_peer_id Maps.get in cc;
  known = λ c k h. unfold Maps.get in cc;
}

pub accept-IsSound :
    (w : World) → w.next_connection_id + 1 < 2 ^ 64 → IsSound w → IsSound (accept w)
unfolding accept
accept-IsSound w few v = record {
  consistent = v.consistent;
  names = λ p e h. ground (arith, v.names p e);
  known = λ c k h. ground (
    arith,
    get-insert w.next_connection_id c (record { registered_peer = none; pending = [] })
        w.connections,
    v.known c k,
    ==_iff w.next_connection_id c,
  );
}

-- An action changes no session.
pub apply_keeps :
    (alive : Bool) (w : World) (a : Action)
    → ((apply alive w a).next_connection_id ≡ w.next_connection_id)
      × ((apply alive w a).connections ≡ w.connections)
unfolding apply
apply_keeps true w (reply tx f) = (refl, refl)
apply_keeps false w (reply tx f) = (refl, refl)
apply_keeps true w (forward entry f) = (refl, refl)
apply_keeps false w (forward entry f) = (refl, refl)
apply_keeps alive w (register p d tx) = (refl, refl)

pub apply-IsSound :
    (alive : Bool) (w : World) (c : ℕ) (peer : Option Bytes) (a : Action)
    → c < w.next_connection_id
    → IsOwn c peer a
    → IsSound w
    → IsSound (apply alive w a)
unfolding apply
apply-IsSound true w c peer (reply tx f) lt own v = record {
  consistent = v.consistent;
  names = v.names;
  known = v.known;
}
apply-IsSound false w c peer (reply tx f) lt own v = v
apply-IsSound true w c peer (forward entry f) lt own v = record {
  consistent = v.consistent;
  names = v.names;
  known = v.known;
}
apply-IsSound false w c peer (forward entry f) lt own v = record {
  consistent =
      remove_connection-IsConsistent w.routes entry.peer_id entry.connection_id v.consistent;
  names = remove-Names w.routes entry.peer_id entry.connection_id w.next_connection_id v.names;
  known = v.known;
}
apply-IsSound alive w c peer (register p d tx) lt own v = record {
  consistent = insert-IsConsistent w.routes p d tx v.consistent;
  names = rw (own.0, own.1) (insert-Names w.routes p c w.next_connection_id lt v.names);
  known = v.known;
}

pub advance-IsSound :
    (w : World) (c : ℕ) (k : Connection)
    → c < w.next_connection_id
    → Every (IsOwn c k.registered_peer) k.pending
    → IsSound w
    → IsSound (advance w c k)
unfolding advance
advance-IsSound w c k lt own v = record {
  consistent = v.consistent;
  names = v.names;
  known = λ d j h. elim (get-insert_cases c d k j w.connections h) [
    | inl (same, new) ↦
        subst₂ (λ x y. (x < w.next_connection_id) × Every (IsOwn x y.registered_peer) y.pending)
          same new (lt, own)
    | inr old ↦ v.known d j old
  ];
}

pub abort-IsSound : (w : World) (c : ℕ) → IsSound w → IsSound (abort w c)
unfolding abort
abort-IsSound w c v = record {
  consistent = v.consistent;
  names = v.names;
  known = λ d j h. ground (arith, get-remove c d w.connections, v.known d j);
}

pub leave-IsSound : (w : World) (c : ℕ) (peer : Option Bytes) → IsSound w → IsSound (leave w c peer)
unfolding leave abort
leave-IsSound w c none v = abort-IsSound w c v
leave-IsSound w c (some p) v =
    let gone = abort-IsSound w c v in
    record {
      consistent = remove_connection-IsConsistent w.routes p c v.consistent;
      names = remove-Names w.routes p c w.next_connection_id v.names;
      known = gone.known;
    }
